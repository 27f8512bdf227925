-- ===== src/Links/Queue.antt =====
-- The list of procedures as src/vm.c and src/syscalls/syscall_misc.c keep it in nodes of src/util/list.c:
-- `make_procedure` puts a node at its end, `delete_current_procedure` takes the first one away, and
-- `sys_yield` moves it behind the others. The fuel is that of `list_tail`.
pub mod Held
pub mod Refines
use bvgz_vm.Common.{ℕ, ◌+◌, Option, none, some, List, [], ◌∷◌, ◌++◌}
use bvgz_vm.Codegen.{◌>>=◌}
use bvgz_vm.Links.{
  Node, Store, list_make_node, list_unlink, list_destroy_node, list_append, list_tail,
}

-- The nodes, and `vm->procedures`
pub record Queue (A : Type 0) : Type 0 where
  pub store : Store A
  pub head : Option ℕ

abbrev pub empty : {A : Type 0} → Queue A
empty = record { store = record { node = λ a. none; fresh = 0 }; head = none }

pub data QueueOp (A : Type 0) : Type 0 where
  enqueue : A → QueueOp A
  dequeue rotate : QueueOp A

module _ {A : Type 0} where
  -- The node, behind the tail of the list where there is one
  unfoldable pub link_last :
      (fuel : ℕ) → (head : Option ℕ) → (node : ℕ) → Store A → Option (Queue A)
  unfolding list_tail list_append
  link_last fuel none node s = some (record { store = s; head = some node })
  link_last fuel (some head) node s = do
    tail ← list_tail fuel head s
    (list, s') ← list_append (some tail) node s
    some (record { store = s'; head = some head })

  -- The end of `make_procedure`
  unfoldable pub put_last : (fuel : ℕ) → A → Queue A → Option (Queue A)
  unfolding list_make_node link_last
  put_last fuel x q = let (node, s) = list_make_node x q.store in link_last fuel q.head node s

  -- `delete_current_procedure`, which reads the first node whether there is one or not
  unfoldable pub drop_first : Queue A → Option (Queue A)
  unfolding list_destroy_node
  drop_first q = do
    current ← q.head
    n ← q.store.node current
    s ← list_destroy_node current q.store
    some (record { store = s; head = n.next })

  -- The body of `sys_yield` behind its first test
  unfoldable pub move_last :
      (fuel : ℕ) → (self : ℕ) → (next : Option ℕ) → Store A → Option (Queue A)
  unfolding list_unlink link_last
  move_last fuel self none s = some (record { store = s; head = some self })
  move_last fuel self (some next) s = do s' ← list_unlink self s; link_last fuel (some next) self s'

  -- `sys_yield`
  unfoldable pub yield_first : (fuel : ℕ) → Queue A → Option (Queue A)
  unfolding move_last
  yield_first fuel q = do self ← q.head; n ← q.store.node self; move_last fuel self n.next q.store

  unfoldable pub run : (fuel : ℕ) → QueueOp A → Queue A → Option (Queue A)
  unfolding put_last drop_first yield_first
  run fuel (enqueue x) q = put_last fuel x q
  run fuel dequeue q = drop_first q
  run fuel rotate q = yield_first fuel q

  unfoldable pub run_all : (fuel : ℕ) → List (QueueOp A) → Queue A → Option (Queue A)
  unfolding run
  run_all fuel [] q = some q
  run_all fuel (op ∷ ops) q = run fuel op q >>= λ q'. run_all fuel ops q'

  -- The same operations on the sequence, as the machine's model has them
  unfoldable pub apply : QueueOp A → List A → Option (List A)
  apply (enqueue x) xs = some (xs ++ x ∷ [])
  apply dequeue [] = none
  apply dequeue (x ∷ xs) = some xs
  apply rotate [] = none
  apply rotate (x ∷ xs) = some (xs ++ x ∷ [])

  unfoldable pub apply_all : List (QueueOp A) → List A → Option (List A)
  unfolding apply
  apply_all [] xs = some xs
  apply_all (op ∷ ops) xs = apply op xs >>= λ ys. apply_all ops ys
