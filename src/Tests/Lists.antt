-- ===== src/Tests/Lists.antt =====
-- The list of procedures on two small items.
use bvgz_vm.Common.{ℕ, ◌≡◌, refl, some, List, [], ◌∷◌, arith}
use bvgz_vm.Links.{list_size}
use bvgz_vm.Links.Queue.{Queue, QueueOp, enqueue, dequeue, rotate, empty, run_all, apply_all}
use bvgz_vm.Links.Queue.Held.{Represents}
use bvgz_vm.Links.Queue.Refines.{run_all-Represents}

abbrev ops : List (QueueOp ℕ)
ops = enqueue 1 ∷ enqueue 2 ∷ enqueue 3 ∷ rotate ∷ dequeue ∷ enqueue 4 ∷ []

empty-Represents : Represents {A = ℕ} empty []
empty-Represents = (
  [],
  record {
    linked = record {
      left = tt;
      right = tt;
      left_apart = tt;
      right_apart = tt;
      across = tt;
      back = tt;
    };
    head = refl;
    old = tt;
  },
  refl,
)

run_all-Represents_example :
    (q : Queue ℕ) × (run_all 8 ops empty ≡ some q)
    × Represents q (3 ∷ 1 ∷ 4 ∷ [])
    × (list_size 8 q.head 0 q.store ≡ some 3)
unfolding apply_all
run_all-Represents_example =
    run_all-Represents 8 ops empty [] (3 ∷ 1 ∷ 4 ∷ []) empty-Represents (omega arith) refl
