-- ===== src/Links/Chain.antt =====
-- Nodes that are linked to one another in the order of a sequence, at a place between two of them: the
-- cells to the left, the nearest first, and those to the right.
pub mod Steps
pub mod Walks
use bvgz_vm.Common.{
  ℕ, zero, suc, ◌+◌, ◌≡◌, ◌≢◌, refl, ◌∙◌, sym, ap, Bool, true, false, Option, none, some, List, [],
  ◌∷◌, ◌==◌, arith, All, if◌then◌else◌,
}
use bvgz_vm.Codegen.Emission.{bind-some}
use bvgz_vm.Links.{
  Node, Store, put, set_next, set_prev, list_make_node, list_unlink, list_append, list_prepend,
}

module _ {A : Type 0} where
  abbrev pub first : List (ℕ × A) → Option ℕ
  first [] = none
  first (c ∷ cs) = some c.0

  -- The cells to the right of a place, whose first node points back to `p`
  abbrev pub Right : Store A → (p : Option ℕ) → List (ℕ × A) → Type 0
  Right s p [] = Unit
  Right s p (c ∷ cs) =
      (s.node c.0 ≡ some (record { prev = p; next = first cs; item = c.1 })) × Right s (some c.0) cs

  -- The cells to the left, whose first node points on to `q`
  abbrev pub Left : Store A → List (ℕ × A) → (q : Option ℕ) → Type 0
  Left s [] q = Unit
  Left s (c ∷ cs) q =
      (s.node c.0 ≡ some (record { prev = first cs; next = q; item = c.1 })) × Left s cs (some c.0)

  -- No cell has the address.
  abbrev pub Apart : ℕ → List (ℕ × A) → Type 0
  Apart a cs = All (λ (c : ℕ × A). c.0 ≢ a) cs

  abbrev pub AllApart : List (ℕ × A) → Type 0
  AllApart [] = Unit
  AllApart (c ∷ cs) = Apart c.0 cs × AllApart cs

  -- No cell of the first list has the address of one of the second.
  abbrev pub Disjoint : List (ℕ × A) → List (ℕ × A) → Type 0
  Disjoint xs ys = All (λ (c : ℕ × A). Apart c.0 ys) xs

  -- The nodes at the cells are the same in both stores.
  abbrev pub SameAt : Store A → Store A → List (ℕ × A) → Type 0
  SameAt s s' cs = All (λ (c : ℕ × A). s'.node c.0 ≡ s.node c.0) cs

  pub record Linked (s : Store A) (ls rs : List (ℕ × A)) : Type 0 where
    pub left : Left s ls (first rs)
    pub right : Right s (first ls) rs
    pub left_apart : AllApart ls
    pub right_apart : AllApart rs
    pub across : Disjoint ls rs
    pub back : Disjoint rs ls

  pub put_same : (a : ℕ) (n : Option (Node A)) (s : Store A) → (put a n s).node a ≡ n
  put_same a n s = ground arith

  pub put_other :
      (a b : ℕ) (n : Option (Node A)) (s : Store A) → b ≢ a → (put a n s).node b ≡ s.node b
  put_other a b n s h = ground arith

  pub Right-SameAt :
      (s s' : Store A) (p : Option ℕ) (cs : List (ℕ × A))
      → Right s p cs
      → SameAt s s' cs
      → Right s' p cs
  Right-SameAt s s' p [] h e = tt
  Right-SameAt s s' p (c ∷ cs) h e = (e.0 ∙ h.0, Right-SameAt s s' (some c.0) cs h.1 e.1)

  pub Left-SameAt :
      (s s' : Store A) (cs : List (ℕ × A)) (q : Option ℕ)
      → Left s cs q
      → SameAt s s' cs
      → Left s' cs q
  Left-SameAt s s' [] q h e = tt
  Left-SameAt s s' (c ∷ cs) q h e = (e.0 ∙ h.0, Left-SameAt s s' cs (some c.0) h.1 e.1)

  -- A step that changes none but the nodes of some cells, and makes no node
  pub record Touches (cs : List (ℕ × A)) (s s' : Store A) : Type 0 where
    pub keeps : (a : ℕ) → Apart a cs → s'.node a ≡ s.node a
    pub fresh : s'.fresh ≡ s.fresh

  -- What is apart from the cells that are touched is the same.
  pub Touches-SameAt :
      (cs xs : List (ℕ × A)) (s s' : Store A) → Touches cs s s' → Disjoint xs cs → SameAt s s' xs
  Touches-SameAt cs [] s s' t d = tt
  Touches-SameAt cs (x ∷ xs) s s' t d = (t.keeps x.0 d.0, Touches-SameAt cs xs s s' t d.1)

  pub put-SameAt :
      (a : ℕ) (n : Option (Node A)) (s : Store A) (cs : List (ℕ × A))
      → Apart a cs
      → SameAt s (put a n s) cs
  put-SameAt a n s [] h = tt
  put-SameAt a n s (c ∷ cs) h = (put_other a c.0 n s h.0, put-SameAt a n s cs h.1)

  pub set_next-Left :
      (s : Store A) (ls : List (ℕ × A)) (q q' : Option ℕ)
      → Left s ls q
      → AllApart ls
      → (s' : Store A) × (set_next (first ls) q' s ≡ some s') × Left s' ls q' × Touches ls s s'
  unfolding set_next
  set_next-Left s [] q q' h d = (s, refl, tt, record { keeps = λ a k. refl; fresh = refl })
  set_next-Left s (c ∷ ls) q q' h d =
      let n : Node A = record { prev = first ls; next = q'; item = c.1 } in
      (
        put c.0 (some n) s,
        rw h.0 refl,
        (
          put_same c.0 (some n) s,
          Left-SameAt s (put c.0 (some n) s) ls (some c.0) h.1 (put-SameAt c.0 (some n) s ls d.0),
        ),
        record { keeps = λ a k. put_other c.0 a (some n) s (λ e. k.0 (sym e)); fresh = refl },
      )

  pub set_prev-Right :
      (s : Store A) (rs : List (ℕ × A)) (p p' : Option ℕ)
      → Right s p rs
      → AllApart rs
      → (s' : Store A) × (set_prev (first rs) p' s ≡ some s') × Right s' p' rs × Touches rs s s'
  unfolding set_prev
  set_prev-Right s [] p p' h d = (s, refl, tt, record { keeps = λ a k. refl; fresh = refl })
  set_prev-Right s (c ∷ rs) p p' h d =
      let n : Node A = record { prev = p'; next = first rs; item = c.1 } in
      (
        put c.0 (some n) s,
        rw h.0 refl,
        (
          put_same c.0 (some n) s,
          Right-SameAt s (put c.0 (some n) s) (some c.0) rs h.1 (put-SameAt c.0 (some n) s rs d.0),
        ),
        record { keeps = λ a k. put_other c.0 a (some n) s (λ e. k.0 (sym e)); fresh = refl },
      )
