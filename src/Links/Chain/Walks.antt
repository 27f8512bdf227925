-- ===== src/Links/Chain/Walks.antt =====
-- The loops of src/util/list.c along a chain: `list_tail`, `list_head` and `list_size`.
use bvgz_vm.Common.{
  ℕ, zero, suc, ◌+◌, ◌%◌, ◌^◌, ◌≤◌, ◌<◌, ◌≡◌, refl, ◌∙◌, ap, Option, none, some, List, [], ◌∷◌,
  ◌++◌, length, arith,
}
use bvgz_vm.Links.{Store, list_tail, list_size}
use bvgz_vm.Links.Chain.{first, Right, Linked}
use bvgz_vm.Links.Chain.Steps.{tail-Disjoint, head-Disjoint, cons-Disjoint}

module _ {A : Type 0} where
  -- The cells of a chain from its first on
  abbrev pub rejoin : List (ℕ × A) → List (ℕ × A) → List (ℕ × A)
  rejoin [] rs = rs
  rejoin (c ∷ ls) rs = rejoin ls (c ∷ rs)

  pub rejoin-append : (ls rs ys : List (ℕ × A)) → rejoin ls (rs ++ ys) ≡ rejoin ls rs ++ ys
  rejoin-append [] rs ys = refl
  rejoin-append (c ∷ ls) rs ys = rejoin-append ls (c ∷ rs) ys

  pub advance-Linked :
      (s : Store A) (ls rs : List (ℕ × A)) (c : ℕ × A) → Linked s ls (c ∷ rs) → Linked s (c ∷ ls) rs
  advance-Linked s ls rs c k = record {
    left = (k.right.0, k.left);
    right = k.right.1;
    left_apart = (head-Disjoint c ls rs k.across, k.left_apart);
    right_apart = k.right_apart.1;
    across = (k.right_apart.0, tail-Disjoint c ls rs k.across);
    back = cons-Disjoint c rs ls k.right_apart.0 k.back.1;
  }

  pub rewind-Linked :
      (s : Store A) (ls rs : List (ℕ × A)) → Linked s ls rs → Linked s [] (rejoin ls rs)
  rewind-Linked s [] rs k = k
  rewind-Linked s (c ∷ ls) rs k = rewind-Linked s ls (c ∷ rs) (record {
    left = k.left.1;
    right = (k.left.0, k.right);
    left_apart = k.left_apart.1;
    right_apart = (k.across.0, k.right_apart);
    across = cons-Disjoint c ls rs k.left_apart.0 k.across.1;
    back = (k.left_apart.0, tail-Disjoint c rs ls k.back);
  })

  tail_end :
      (fuel : ℕ) (s : Store A) (a : ℕ) (p : Option ℕ) (x : A)
      → s.node a ≡ some (record { prev = p; next = none; item = x })
      → list_tail fuel a s ≡ some a
  unfolding list_tail
  tail_end zero s a p x e = rw e refl
  tail_end (suc fuel) s a p x e = rw e refl

  tail_step :
      (fuel : ℕ) (s : Store A) (a b : ℕ) (p : Option ℕ) (x : A)
      → s.node a ≡ some (record { prev = p; next = some b; item = x })
      → list_tail (suc fuel) a s ≡ list_tail fuel b s
  unfolding list_tail
  tail_step fuel s a b p x e = rw e refl

  -- The walk ends at the last cell.
  pub list_tail-Linked :
      (fuel : ℕ) (s : Store A) (ls rs : List (ℕ × A)) (c : ℕ × A)
      → Linked s ls (c ∷ rs)
      → length rs ≤ fuel
      → (ls' : List (ℕ × A)) × (c' : ℕ × A) × (list_tail fuel c.0 s ≡ some c'.0)
        × Linked s (c' ∷ ls') []
        × (rejoin (c' ∷ ls') [] ≡ rejoin ls (c ∷ rs))
  list_tail-Linked fuel s ls [] c k h =
      (ls, c, tail_end fuel s c.0 (first ls) c.1 k.right.0, advance-Linked s ls [] c k, refl)
  list_tail-Linked zero s ls (d ∷ rs) c k h = absurd (omega arith)
  list_tail-Linked (suc fuel) s ls (d ∷ rs) c k h =
      let (ls', c', walk, linked, same) =
        list_tail-Linked fuel s (c ∷ ls) rs d (advance-Linked s ls (d ∷ rs) c k) (omega arith) in
      (ls', c', tail_step fuel s c.0 d.0 (first ls) c.1 k.right.0 ∙ walk, linked, same)

  size_step :
      (fuel n : ℕ) (s : Store A) (a : ℕ) (p q : Option ℕ) (x : A)
      → s.node a ≡ some (record { prev = p; next = q; item = x })
      → list_size (suc fuel) (some a) n s ≡ list_size fuel q ((n + 1) % 2 ^ 32) s
  unfolding list_size
  size_step fuel n s a p q x e = rw e refl

  size_end : (fuel n : ℕ) (s : Store A) → list_size fuel none n s ≡ some n
  unfolding list_size
  size_end zero n s = refl
  size_end (suc fuel) n s = refl

  pub list_size-Linked :
      (fuel n : ℕ) (s : Store A) (p : Option ℕ) (rs : List (ℕ × A))
      → Right s p rs
      → length rs ≤ fuel
      → n < 2 ^ 32
      → list_size fuel (first rs) n s ≡ some ((n + length rs) % 2 ^ 32)
  list_size-Linked fuel n s p [] k h w = size_end fuel n s ∙ ap some (omega arith)
  list_size-Linked zero n s p (c ∷ rs) k h w = absurd (omega arith)
  list_size-Linked (suc fuel) n s p (c ∷ rs) k h w =
      size_step fuel n s c.0 p (first rs) c.1 k.0
      ∙ list_size-Linked fuel ((n + 1) % 2 ^ 32) s (some c.0) rs k.1 (omega arith) (omega arith)
      ∙ ap some (omega arith)
