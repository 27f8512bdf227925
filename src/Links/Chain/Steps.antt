-- ===== src/Links/Chain/Steps.antt =====
-- What the operations of src/util/list.c do to a chain: a node is taken out of it, or put into it.
use bvgz_vm.Common.{ℕ, ◌≡◌, refl, ◌∙◌, sym, Option, some, List, [], ◌∷◌}
use bvgz_vm.Links.{Node, Store, put, set_next, set_prev, list_unlink, list_append}
use bvgz_vm.Links.Chain.{
  first, Apart, Disjoint, Linked, put_same, Right-SameAt, Left-SameAt, Touches-SameAt, put-SameAt,
  set_next-Left, set_prev-Right,
}

module _ {A : Type 0} where
  pub tail-Disjoint : (c : ℕ × A) (xs ys : List (ℕ × A)) → Disjoint xs (c ∷ ys) → Disjoint xs ys
  tail-Disjoint c [] ys h = tt
  tail-Disjoint c (x ∷ xs) ys h = (h.0.1, tail-Disjoint c xs ys h.1)

  pub head-Disjoint : (c : ℕ × A) (xs ys : List (ℕ × A)) → Disjoint xs (c ∷ ys) → Apart c.0 xs
  head-Disjoint c [] ys h = tt
  head-Disjoint c (x ∷ xs) ys h = ((λ e. h.0.0 (sym e)), head-Disjoint c xs ys h.1)

  pub cons-Disjoint :
      (c : ℕ × A) (xs ys : List (ℕ × A)) → Apart c.0 xs → Disjoint xs ys → Disjoint xs (c ∷ ys)
  cons-Disjoint c [] ys h d = tt
  cons-Disjoint c (x ∷ xs) ys h d = (((λ e. h.0 (sym e)), d.0), cons-Disjoint c xs ys h.1 d.1)

  unlink-steps :
      (s s1 s2 : Store A) (a : ℕ) (p q : Option ℕ) (x : A)
      → s.node a ≡ some (record { prev = p; next = q; item = x })
      → set_next p q s ≡ some s1
      → s1.node a ≡ some (record { prev = p; next = q; item = x })
      → set_prev q p s1 ≡ some s2
      → list_unlink a s ≡ some s2
  unfolding list_unlink
  unlink-steps s s1 s2 a p q x e f g h = rw (e, f, g) h

  -- `list_unlink` takes the node at its place out of the chain, and leaves the node itself as it is.
  pub list_unlink-Linked :
      (s : Store A) (ls rs : List (ℕ × A)) (c : ℕ × A)
      → Linked s ls (c ∷ rs)
      → (s' : Store A) × (list_unlink c.0 s ≡ some s')
        × Linked s' ls rs
        × (s'.node c.0 ≡ s.node c.0)
        × (s'.fresh ≡ s.fresh)
  list_unlink-Linked s ls rs c k =
      let apart = head-Disjoint c ls rs k.across in
      let (s1, done, left, touch) = set_next-Left s ls (some c.0) (first rs) k.left k.left_apart in
      let at = touch.keeps c.0 apart ∙ k.right.0 in
      let right =
        Right-SameAt s s1 (some c.0) rs k.right.1 (Touches-SameAt ls rs s s1 touch k.back.1) in
      let (s2, done', right', touch') =
        set_prev-Right s1 rs (some c.0) (first ls) right k.right_apart.1 in
      (
        s2,
        unlink-steps s s1 s2 c.0 (first ls) (first rs) c.1 k.right.0 done at done',
        record {
          left =
              Left-SameAt s1 s2 ls (first rs) left
                (Touches-SameAt rs ls s1 s2 touch' (tail-Disjoint c ls rs k.across));
          right = right';
          left_apart = k.left_apart;
          right_apart = k.right_apart.1;
          across = tail-Disjoint c ls rs k.across;
          back = k.back.1;
        },
        touch'.keeps c.0 k.right_apart.0 ∙ touch.keeps c.0 apart,
        touch'.fresh ∙ touch.fresh,
      )

  append-steps :
      (s s1 s2 s3 s4 : Store A) (l n : ℕ) (p q : Option ℕ) (x : A)
      → s.node l ≡ some (record { prev = p; next = q; item = x })
      → set_next (some n) q s ≡ some s1
      → s1.node l ≡ some (record { prev = p; next = q; item = x })
      → set_prev q (some n) s1 ≡ some s2
      → set_next (some l) (some n) s2 ≡ some s3
      → set_prev (some n) (some l) s3 ≡ some s4
      → list_append (some l) n s ≡ some (l, s4)
  unfolding list_append
  append-steps s s1 s2 s3 s4 l n p q x e f g h i j = rw (e, f, g, h, i, j) refl

  set_next-put :
      (s : Store A) (a : ℕ) (n : Node A) (q : Option ℕ)
      → s.node a ≡ some n
      → set_next (some a) q s ≡ some (put a (some (record n { next = q })) s)
  unfolding set_next
  set_next-put s a n q e = rw e refl

  set_prev-put :
      (s : Store A) (a : ℕ) (n : Node A) (q : Option ℕ)
      → s.node a ≡ some n
      → set_prev (some a) q s ≡ some (put a (some (record n { prev = q })) s)
  unfolding set_prev
  set_prev-put s a n q e = rw e refl

  -- `list_append` puts a node that is outside the chain right behind its place.
  pub list_append-Linked :
      (s : Store A) (ls rs : List (ℕ × A)) (c : ℕ × A) (n : ℕ) (nd : Node A)
      → Linked s (c ∷ ls) rs
      → s.node n ≡ some nd
      → Apart n (c ∷ ls)
      → Apart n rs
      → (s' : Store A) × (list_append (some c.0) n s ≡ some (c.0, s'))
        × Linked s' (c ∷ ls) ((n, nd.item) ∷ rs)
        × (s'.fresh ≡ s.fresh)
  list_append-Linked s ls rs c n nd k e off_left off_right =
      let n1 : Node A = record nd { next = first rs } in
      let s1 = put n (some n1) s in
      let right1 =
        Right-SameAt s s1 (some c.0) rs k.right (put-SameAt n (some n1) s rs off_right) in
      let left1 =
        Left-SameAt s s1 (c ∷ ls) (first rs) k.left (put-SameAt n (some n1) s (c ∷ ls) off_left) in
      let (s2, done2, right2, touch2) =
        set_prev-Right s1 rs (some c.0) (some n) right1 k.right_apart in
      let left2 =
        Left-SameAt s1 s2 (c ∷ ls) (first rs) left1
          (Touches-SameAt rs (c ∷ ls) s1 s2 touch2 k.across) in
      let (s3, done3, left3, touch3) =
        set_next-Left s2 (c ∷ ls) (first rs) (some n) left2 k.left_apart in
      let right3 =
        Right-SameAt s2 s3 (some n) rs right2 (Touches-SameAt (c ∷ ls) rs s2 s3 touch3 k.back) in
      let at3 = touch3.keeps n off_left ∙ touch2.keeps n off_right ∙ put_same n (some n1) s in
      let n4 : Node A = record n1 { prev = some c.0 } in
      let s4 = put n (some n4) s3 in
      (
        s4,
        append-steps s s1 s2 s3 s4 c.0 n (first ls) (first rs) c.1 k.left.0
            (set_next-put s n nd (first rs) e) left1.0 done2 done3
            (set_prev-put s3 n n1 (some c.0) at3),
        record {
          left =
              Left-SameAt s3 s4 (c ∷ ls) (some n) left3
                (put-SameAt n (some n4) s3 (c ∷ ls) off_left);
          right = (
            put_same n (some n4) s3,
            Right-SameAt s3 s4 (some n) rs right3 (put-SameAt n (some n4) s3 rs off_right),
          );
          left_apart = k.left_apart;
          right_apart = (off_right, k.right_apart);
          across = cons-Disjoint (n, nd.item) (c ∷ ls) rs off_left k.across;
          back = (off_left, k.back);
        },
        touch3.fresh ∙ touch2.fresh,
      )
