-- ===== src/Links.antt =====
-- src/util/list.c: nodes at addresses, and the queue of procedures that src/vm.c and
-- src/syscalls/syscall_misc.c keep in them. A node that was freed or never made is undefined.
pub mod Chain
pub mod Queue
use bvgz_vm.Common.{ℕ, zero, suc, ◌+◌, ◌%◌, ◌^◌, Bool, Option, none, some, ◌==◌, if◌then◌else◌}
use bvgz_vm.Codegen.{◌>>=◌}

-- `list_t`; NULL is `none`.
pub record Node (A : Type 0) : Type 0 where
  pub prev : Option ℕ
  pub next : Option ℕ
  pub item : A

-- The nodes that are allocated. `malloc` gives the address `fresh`, which no node had.
pub record Store (A : Type 0) : Type 0 where
  pub node : ℕ → Option (Node A)
  pub fresh : ℕ

module _ {A : Type 0} where
  abbrev pub put : ℕ → Option (Node A) → Store A → Store A
  put a n s = record s { node = λ b. if b == a then n else s.node b }

  -- `if (p) p->next = q;`
  unfoldable pub set_next : (p q : Option ℕ) → Store A → Option (Store A)
  set_next none q s = some s
  set_next (some a) q s = s.node a >>= λ n. some (put a (some (record n { next = q })) s)

  -- `if (p) p->prev = q;`
  unfoldable pub set_prev : (p q : Option ℕ) → Store A → Option (Store A)
  set_prev none q s = some s
  set_prev (some a) q s = s.node a >>= λ n. some (put a (some (record n { prev = q })) s)

  unfoldable pub list_make_node : A → Store A → ℕ × Store A
  list_make_node x s = (
    s.fresh,
    put s.fresh (some (record { prev = none; next = none; item = x }))
        (record s { fresh = s.fresh + 1 }),
  )

  unfoldable pub list_unlink : ℕ → Store A → Option (Store A)
  unfolding set_next set_prev
  list_unlink node s0 = do
    n ← s0.node node
    s1 ← set_next n.prev n.next s0
    n' ← s1.node node
    set_prev n'.next n'.prev s1

  unfoldable pub list_destroy_node : ℕ → Store A → Option (Store A)
  unfolding list_unlink
  list_destroy_node node s0 = do s1 ← list_unlink node s0; n ← s1.node node; some (put node none s1)

  -- `while (node)`, on fuel
  unfoldable pub list_destroy : (fuel : ℕ) → Option ℕ → Store A → Option (Store A)
  list_destroy fuel none s = some s
  list_destroy zero (some node) s = none
  list_destroy (suc fuel) (some node) s =
      s.node node >>= λ n. list_destroy fuel n.next (put node none s)

  -- `node` is linked right behind `list`.
  unfoldable pub list_append : (list : Option ℕ) → (node : ℕ) → Store A → Option (ℕ × Store A)
  unfolding set_next set_prev
  list_append none node s0 = some (node, s0)
  list_append (some list) node s0 = do
    l ← s0.node list
    s1 ← set_next (some node) l.next s0
    l' ← s1.node list
    s2 ← set_prev l'.next (some node) s1
    s3 ← set_next (some list) (some node) s2
    s4 ← set_prev (some node) (some list) s3
    some (list, s4)

  -- `node` is linked right in front of `list`.
  unfoldable pub list_prepend : (list : Option ℕ) → (node : ℕ) → Store A → Option (ℕ × Store A)
  unfolding set_next set_prev
  list_prepend none node s0 = some (node, s0)
  list_prepend (some list) node s0 = do
    l ← s0.node list
    s1 ← set_prev (some node) l.prev s0
    l' ← s1.node list
    s2 ← set_next l'.prev (some node) s1
    s3 ← set_prev (some list) (some node) s2
    s4 ← set_next (some node) (some list) s3
    some (node, s4)

  -- `for (list_t* n = head; n; n = n->next) size++;`, on fuel
  unfoldable pub list_size : (fuel : ℕ) → (head : Option ℕ) → (size : ℕ) → Store A → Option ℕ
  list_size fuel none size s = some size
  list_size zero (some node) size s = none
  list_size (suc fuel) (some node) size s =
      s.node node >>= λ n. list_size fuel n.next ((size + 1) % 2 ^ 32) s

  -- `while (node->prev) node = node->prev;`, on fuel
  unfoldable pub list_head : (fuel : ℕ) → (node : ℕ) → Store A → Option ℕ
  list_head zero node s = s.node node >>= λ n. elim n.prev [ none ↦ some node | some p ↦ none ]
  list_head (suc fuel) node s =
      s.node node >>= λ n. elim n.prev [ none ↦ some node | some p ↦ list_head fuel p s ]

  -- `while (node->next) node = node->next;`, on fuel
  unfoldable pub list_tail : (fuel : ℕ) → (node : ℕ) → Store A → Option ℕ
  list_tail zero node s = s.node node >>= λ n. elim n.next [ none ↦ some node | some q ↦ none ]
  list_tail (suc fuel) node s =
      s.node node >>= λ n. elim n.next [ none ↦ some node | some q ↦ list_tail fuel q s ]
