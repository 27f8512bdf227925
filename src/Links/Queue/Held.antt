-- ===== src/Links/Queue/Held.antt =====
-- The nodes of a queue and the sequence that they hold: what each operation makes of them.
use mathlib.Core.Path.{subst}
use bvgz_vm.Common.{
  ℕ, ◌+◌, ◌≤◌, ◌<◌, ◌≡◌, ◌≢◌, refl, ◌∙◌, sym, ap, Option, none, some, List, [], ◌∷◌, ◌++◌, All,
  All-append, length, arith,
}
use bvgz_vm.Codegen.Emission.{bind-some}
use bvgz_vm.Links.{
  Node, Store, put, list_make_node, list_unlink, list_destroy_node, list_append, list_tail,
}
use bvgz_vm.Links.Chain.{first, Apart, Linked, SameAt, put_same, Right-SameAt, put-SameAt}
use bvgz_vm.Links.Chain.Steps.{list_unlink-Linked, list_append-Linked}
use bvgz_vm.Links.Chain.Walks.{rejoin, rejoin-append, rewind-Linked, list_tail-Linked}
use bvgz_vm.Links.Queue.{Queue, link_last, put_last, drop_first, move_last, yield_first}

module _ {A : Type 0} where
  abbrev pub items : List (ℕ × A) → List A
  items [] = []
  items (c ∷ cs) = c.1 ∷ items cs

  pub items-append : (xs ys : List (ℕ × A)) → items (xs ++ ys) ≡ items xs ++ items ys
  items-append [] ys = refl
  items-append (x ∷ xs) ys = ap (◌∷◌ x.1) (items-append xs ys)

  -- The chain of the cells, whose addresses `malloc` gave
  pub record Holds (q : Queue A) (cells : List (ℕ × A)) : Type 0 where
    pub linked : Linked q.store [] cells
    pub head : q.head ≡ first cells
    pub old : All (λ (c : ℕ × A). c.0 < q.store.fresh) cells

  -- The queue holds the items of the sequence, in their order.
  abbrev pub Represents : Queue A → List A → Type 0
  Represents q xs = (cells : List (ℕ × A)) × Holds q cells × (items cells ≡ xs)

  old-Apart : (n : ℕ) (cs : List (ℕ × A)) → All (λ (c : ℕ × A). c.0 < n) cs → Apart n cs
  old-Apart n [] h = tt
  old-Apart n (c ∷ cs) h = ((λ e. absurd (omega arith)), old-Apart n cs h.1)

  All-rejoin :
      (P : ℕ × A → Type 0) (ls rs : List (ℕ × A)) → All P (rejoin ls rs) → All P ls × All P rs
  All-rejoin P [] rs h = (tt, h)
  All-rejoin P (c ∷ ls) rs h = let (l, r) = All-rejoin P ls (c ∷ rs) h in ((r.0, l), r.1)

  link_last-steps :
      (fuel : ℕ) (s s' : Store A) (a n tail : ℕ)
      → list_tail fuel a s ≡ some tail
      → list_append (some tail) n s ≡ some (tail, s')
      → link_last fuel (some a) n s ≡ some (record { store = s'; head = some a })
  unfolding link_last
  link_last-steps fuel s s' a n tail e f = rw (e, f) refl

  -- A node outside the chain, with an old address, goes to its end.
  link_last-Holds :
      (fuel : ℕ) (s : Store A) (c : ℕ × A) (cells : List (ℕ × A)) (n : ℕ) (nd : Node A)
      → Linked s [] (c ∷ cells)
      → All (λ (d : ℕ × A). d.0 < s.fresh) (c ∷ cells)
      → s.node n ≡ some nd
      → n < s.fresh
      → Apart n (c ∷ cells)
      → length cells ≤ fuel
      → (q : Queue A) × (link_last fuel (some c.0) n s ≡ some q)
        × Holds q (c ∷ (cells ++ (n, nd.item) ∷ []))
  link_last-Holds fuel s c cells n nd k old e less off h =
      let (ls, c', walk, end, same) = list_tail-Linked fuel s [] cells c k h in
      let off' : Apart n (rejoin (c' ∷ ls) []) = subst (Apart n) (sym same) off in
      let (s', done, linked, fresh) =
        list_append-Linked s ls [] c' n nd end e
          (All-rejoin (λ (d : ℕ × A). d.0 ≢ n) (c' ∷ ls) [] off').0 tt in
      let joined : rejoin (c' ∷ ls) ((n, nd.item) ∷ []) ≡ c ∷ (cells ++ (n, nd.item) ∷ []) =
        rejoin-append (c' ∷ ls) [] ((n, nd.item) ∷ []) ∙ ap (λ xs. xs ++ (n, nd.item) ∷ []) same in
      (
        record { store = s'; head = some c.0 },
        link_last-steps fuel s s' c.0 n c'.0 walk done,
        record {
          linked =
              subst (Linked s' []) joined (rewind-Linked s' (c' ∷ ls) ((n, nd.item) ∷ []) linked);
          head = refl;
          old =
              subst (λ f. All (λ (d : ℕ × A). d.0 < f) (c ∷ (cells ++ (n, nd.item) ∷ [])))
                (sym fresh)
                (All-append (λ (d : ℕ × A). d.0 < s.fresh) (c ∷ cells) ((n, nd.item) ∷ []) old
                  (less, tt));
        },
      )

  weaker_old :
      (n : ℕ) (cs : List (ℕ × A))
      → All (λ (c : ℕ × A). c.0 < n) cs
      → All (λ (c : ℕ × A). c.0 < n + 1) cs
  weaker_old n [] h = tt
  weaker_old n (c ∷ cs) h = (omega (arith, h.0), weaker_old n cs h.1)

  Linked-SameAt :
      (s s' : Store A) (cells : List (ℕ × A))
      → Linked s [] cells
      → SameAt s s' cells
      → Linked s' [] cells
  Linked-SameAt s s' cells k e = record {
    left = tt;
    right = Right-SameAt s s' none cells k.right e;
    left_apart = tt;
    right_apart = k.right_apart;
    across = tt;
    back = k.back;
  }

  link_first :
      (fuel n : ℕ) (s : Store A)
      → link_last fuel none n s ≡ some (record { store = s; head = some n })
  unfolding link_last
  link_first fuel n s = refl

  abbrev blank : A → Node A
  blank x = record { prev = none; next = none; item = x }

  abbrev with_node : A → Store A → Store A
  with_node x s = put s.fresh (some (blank x)) (record s { fresh = s.fresh + 1 })

  put_last-steps :
      (fuel : ℕ) (x : A) (q : Queue A) (head : Option ℕ)
      → q.head ≡ head
      → put_last fuel x q ≡ link_last fuel head q.store.fresh (with_node x q.store)
  unfolding put_last list_make_node
  put_last-steps fuel x q head e = ap (λ h. link_last fuel h q.store.fresh (with_node x q.store)) e

  pub put_last-Holds :
      (fuel : ℕ) (x : A) (q : Queue A) (cells : List (ℕ × A))
      → Holds q cells
      → length cells ≤ fuel
      → (q' : Queue A) × (put_last fuel x q ≡ some q') × Holds q' (cells ++ (q.store.fresh, x) ∷ [])
  put_last-Holds fuel x q [] k h =
      let n = q.store.fresh in
      let s = with_node x q.store in
      (
        record { store = s; head = some n },
        put_last-steps fuel x q none k.head ∙ link_first fuel n s,
        record {
          linked = record {
            left = tt;
            right = (put_same n (some (blank x)) (record (q.store) { fresh = n + 1 }), tt);
            left_apart = tt;
            right_apart = (tt, tt);
            across = tt;
            back = (tt, tt);
          };
          head = refl;
          old = (omega arith, tt);
        },
      )
  put_last-Holds fuel x q (c ∷ cells) k h =
      let n = q.store.fresh in
      let s = with_node x q.store in
      let apart = old-Apart n (c ∷ cells) k.old in
      let linked =
        Linked-SameAt q.store s (c ∷ cells) k.linked
          (put-SameAt n (some (blank x)) (record (q.store) { fresh = n + 1 }) (c ∷ cells) apart) in
      let (q', done, holds) =
        link_last-Holds fuel s c cells n (blank x) linked (weaker_old n (c ∷ cells) k.old)
          (put_same n (some (blank x)) (record (q.store) { fresh = n + 1 })) (omega arith) apart
          (omega (arith, h)) in
      (q', put_last-steps fuel x q (some c.0) k.head ∙ done, holds)

  destroyed :
      (a : ℕ) (n : Node A) (s s' : Store A)
      → list_unlink a s ≡ some s'
      → s'.node a ≡ some n
      → list_destroy_node a s ≡ some (put a none s')
  unfolding list_destroy_node
  destroyed a n s s' e f = bind-some (list_unlink a s) _ s' _ e (bind-some (s'.node a) _ n _ f refl)

  drop_first-steps :
      (q : Queue A) (a : ℕ) (n n' : Node A) (s : Store A)
      → q.head ≡ some a
      → q.store.node a ≡ some n
      → list_unlink a q.store ≡ some s
      → s.node a ≡ some n'
      → drop_first q ≡ some (record { store = put a none s; head = n.next })
  unfolding drop_first
  drop_first-steps q a n n' s e f g h = bind-some q.head _ a _ e (
      bind-some (q.store.node a) _ n _ f (
        bind-some (list_destroy_node a q.store) _ (put a none s) _ (destroyed a n' q.store s g h)
          refl))

  pub drop_first-Holds :
      (q : Queue A) (c : ℕ × A) (cells : List (ℕ × A))
      → Holds q (c ∷ cells)
      → (q' : Queue A) × (drop_first q ≡ some q') × Holds q' cells
  drop_first-Holds q c cells k =
      let (s, done, linked, same, fresh) = list_unlink-Linked q.store [] cells c k.linked in
      let at = k.linked.right.0 in
      (
        record { store = put c.0 none s; head = first cells },
        drop_first-steps q c.0 _ _ s k.head at done (same ∙ at),
        record {
          linked =
              Linked-SameAt s (put c.0 none s) cells linked
                (put-SameAt c.0 none s cells k.linked.right_apart.0);
          head = refl;
          old = subst (λ f. All (λ (d : ℕ × A). d.0 < f) cells) (sym fresh) k.old.1;
        },
      )

  yield_first-alone :
      (fuel : ℕ) (q : Queue A) (a : ℕ) (p : Option ℕ) (x : A)
      → q.head ≡ some a
      → q.store.node a ≡ some (record { prev = p; next = none; item = x })
      → yield_first fuel q ≡ some (record { store = q.store; head = some a })
  unfolding yield_first move_last
  yield_first-alone fuel q a p x e f = rw (e, f) refl

  yield_first-steps :
      (fuel : ℕ) (q : Queue A) (a b : ℕ) (p : Option ℕ) (x : A) (s : Store A)
      → q.head ≡ some a
      → q.store.node a ≡ some (record { prev = p; next = some b; item = x })
      → list_unlink a q.store ≡ some s
      → yield_first fuel q ≡ link_last fuel (some b) a s
  unfolding yield_first move_last
  yield_first-steps fuel q a b p x s e f g = rw (e, f, g) refl

  pub yield_first-Holds :
      (fuel : ℕ) (q : Queue A) (c : ℕ × A) (cells : List (ℕ × A))
      → Holds q (c ∷ cells)
      → length cells ≤ fuel
      → (q' : Queue A) × (yield_first fuel q ≡ some q') × Holds q' (cells ++ c ∷ [])
  yield_first-Holds fuel q c [] k h = (
    record q { head = some c.0 },
    yield_first-alone fuel q c.0 none c.1 k.head k.linked.right.0,
    record { linked = k.linked; head = refl; old = k.old },
  )
  yield_first-Holds fuel q c (d ∷ cells) k h =
      let (s, done, linked, same, fresh) = list_unlink-Linked q.store [] (d ∷ cells) c k.linked in
      let at = k.linked.right.0 in
      let (q', linked', holds) =
        link_last-Holds fuel s d cells c.0 _ linked
          (subst (λ f. All (λ (x : ℕ × A). x.0 < f) (d ∷ cells)) (sym fresh) k.old.1) (same ∙ at)
          (subst (λ f. c.0 < f) (sym fresh) k.old.0) k.linked.right_apart.0 (omega (arith, h)) in
      (q', yield_first-steps fuel q c.0 d.0 none c.1 s k.head at done ∙ linked', holds)
