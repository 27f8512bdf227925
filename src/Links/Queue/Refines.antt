-- ===== src/Links/Queue/Refines.antt =====
-- Runs of operations: the nodes carry out what the sequence does.

use bvgz_vm.Common.{
  ℕ, suc, ◌+◌, ◌≤◌, ◌≡◌, refl, ◌∙◌, sym, ap, none, some, List, [], ◌∷◌, ◌++◌, length, length-append,
  ◌%◌, ◌^◌, arith, eq_of_some,
}
use bvgz_vm.Codegen.Emission.{bind-some, bind-eq_some}
use bvgz_vm.Links.{list_size}
use bvgz_vm.Links.Chain.Walks.{list_size-Linked}
use bvgz_vm.Links.Queue.{Queue, QueueOp, enqueue, dequeue, rotate, run, run_all, apply, apply_all}
use bvgz_vm.Links.Queue.Held.{
  items, items-append, Holds, Represents, put_last-Holds, drop_first-Holds, yield_first-Holds,
}

module _ {A : Type 0} where
  length-items : (cells : List (ℕ × A)) → length (items cells) ≡ length cells
  length-items [] = refl
  length-items (c ∷ cells) = ap suc (length-items cells)

  items-snoc :
      (cells : List (ℕ × A)) (c : ℕ × A) (ys : List A)
      → some (items cells ++ c.1 ∷ []) ≡ some ys
      → items (cells ++ c ∷ []) ≡ ys
  items-snoc cells c ys e = items-append cells (c ∷ []) ∙ eq_of_some e

  run-Holds :
      (fuel : ℕ) (op : QueueOp A) (q : Queue A) (cells : List (ℕ × A)) (ys : List A)
      → Holds q cells
      → length cells ≤ fuel
      → apply op (items cells) ≡ some ys
      → (q' : Queue A) × (run fuel op q ≡ some q') × Represents q' ys
  unfolding run apply
  run-Holds fuel (enqueue x) q cells ys k h e =
      let (q', done, holds) = put_last-Holds fuel x q cells k h in
      (q', done, (_, holds, items-snoc cells (q.store.fresh, x) ys e))
  run-Holds fuel dequeue q [] ys k h e = cc
  run-Holds fuel dequeue q (c ∷ cells) ys k h e =
      let (q', done, holds) = drop_first-Holds q c cells k in
      (q', done, (cells, holds, eq_of_some e))
  run-Holds fuel rotate q [] ys k h e = cc
  run-Holds fuel rotate q (c ∷ cells) ys k h e =
      let (q', done, holds) = yield_first-Holds fuel q c cells k (omega (arith, h)) in
      (q', done, (_, holds, items-snoc cells c ys e))

  length-apply :
      (op : QueueOp A) (xs ys : List A) → apply op xs ≡ some ys → length ys ≤ length xs + 1
  unfolding apply
  length-apply (enqueue x) xs ys e =
      omega (arith, length-append xs (x ∷ []), ap length (eq_of_some e))
  length-apply dequeue [] ys e = cc
  length-apply dequeue (x ∷ xs) ys e = omega (arith, ap length (eq_of_some e))
  length-apply rotate [] ys e = cc
  length-apply rotate (x ∷ xs) ys e =
      omega (arith, length-append xs (x ∷ []), ap length (eq_of_some e))

  -- However the operations follow one another, where the sequence allows them the nodes carry them out, no
  -- freed node is read, and the nodes hold the sequence that the machine's model has; the size
  -- that `list_size` counts is its length.
  pub run_all-Represents :
      (fuel : ℕ) (ops : List (QueueOp A)) (q : Queue A) (xs ys : List A)
      → Represents q xs
      → length xs + length ops ≤ fuel
      → apply_all ops xs ≡ some ys
      → (q' : Queue A) × (run_all fuel ops q ≡ some q')
        × Represents q' ys
        × (list_size fuel q'.head 0 q'.store ≡ some (length ys % 2 ^ 32))
  unfolding run_all apply_all
  run_all-Represents fuel [] q xs ys (cells, k, same) h e =
      let n : length cells ≡ length ys =
        sym (length-items cells) ∙ ap length (same ∙ eq_of_some e) in
      (
        q,
        refl,
        (cells, k, same ∙ eq_of_some e),
        ap (λ p. list_size fuel p 0 q.store) k.head
            ∙ list_size-Linked fuel 0 q.store none cells k.linked.right
                (omega (arith, h, n, ap length (eq_of_some e))) (omega arith)
            ∙ ap some (omega (arith, n)),
      )
  run_all-Represents fuel (op ∷ ops) q xs ys (cells, k, same) h e =
      let (mid, first_step, later) = bind-eq_some (apply op xs) (apply_all ops) ys e in
      let n : length cells ≡ length xs = sym (length-items cells) ∙ ap length same in
      let (q1, done, rep) =
        run-Holds fuel op q cells mid k (omega (arith, h, n)) (ap (apply op) same ∙ first_step) in
      let (q2, done', rep', size) =
        run_all-Represents fuel ops q1 mid ys rep
          (omega (arith, h, length-apply op xs mid first_step)) later in
      (q2, bind-some (run fuel op q) (run_all fuel ops) q1 (some q2) done done', rep', size)
