-- ===== src/Syscall/Io/Limits.antt =====
-- The bounds in src/syscalls/syscall_io.c: the index of a descriptor in `sys_close`, and the block of the
-- events of a descriptor in `alloc_event`.

use bvgz_vm.Common.{
  ℕ, ◌+◌, ◌-◌, ◌≤◌, ◌%◌, ◌^◌, ◌≡◌, refl, ◌∙◌, sym, ap, true, false, none, some, List, [], ◌∷◌, ltb,
  ◌==◌, length, get_elem?, set, le→ltb_false, if◌then◌else◌, arith, Bool-cases, inl, inr,
}
use bvgz_vm.Vm.{Vm, Fd, IoEvent, M, ◌>>=◌, ◌>>◌, asks, lref}
use bvgz_vm.Instn.Access.{deref_mem_ptr}
use bvgz_vm.Syscall.{IoHost}
use bvgz_vm.Syscall.Io.{fd_at, set_fd, ebadf, alloc_event}
use bvgz_vm.Syscall.Io.Calls.{refuse, sys_close}
use bvgz_vm.Syscall.Io.Table.{bind-some, get_elem?-set, get_elem?-end}

bind-none : {A B : Type 0} (m : M A) (f : A → M B) (vm : Vm) → m vm ≡ none → (m >>= f) vm ≡ none
bind-none m f vm e = rw (◌>>=◌, e) refl

fd_at-end : (vm : Vm) → fd_at (length vm.fds) vm ≡ none
unfolding fd_at
fd_at-end vm = rw (asks, get_elem?-end vm.fds) refl

-- The index of a descriptor that a handle gives
abbrev pub fd_index : ℕ → ℕ
fd_index handle = (handle + 2 ^ 64 - 1) % 2 ^ 32

-- `sys_close` tests with `>` the index that it cuts from the handle, 32 bits of the handle less one. Of the
-- indices that are not in the table, every one is refused with EBADF but the one right behind the
-- last descriptor, for which the table is read behind its end. The pointers are granted.
pub sys_close_bound :
    (io : IoHost) (vm : Vm) (argv retv a r handle : ℕ)
    → deref_mem_ptr argv 8 vm ≡ some (some a, vm)
    → deref_mem_ptr retv 8 vm ≡ some (some r, vm)
    → lref 8 a vm ≡ some (handle, vm)
    → length vm.fds ≤ fd_index handle
    → sys_close io argv retv vm
      ≡ (if fd_index handle == length vm.fds then none else refuse (some r) ebadf vm)
unfolding sys_close fd_at
sys_close_bound io vm argv retv a r handle e f g outside =
    bind-some (deref_mem_ptr argv 8) _ vm vm (some a) _ e (
      bind-some (deref_mem_ptr retv 8) _ vm vm (some r) _ f (
        bind-some (lref 8 a) _ vm vm handle _ g
          (elim (Bool-cases (fd_index handle == length vm.fds)) [
            | inl k ↦
                let same : fd_index handle ≡ length vm.fds = ground arith in
                rw (k, same, le→ltb_false (length vm.fds) (length vm.fds) (omega arith))
                  (bind-none (fd_at (length vm.fds)) _ vm (fd_at-end vm))
            | inr k ↦
                let above : ltb (length vm.fds) (fd_index handle) ≡ true = ground arith in
                rw (k, above) refl
          ])))

abbrev holding : Fd → List IoEvent → ℕ → Fd
holding f events n = record f { events = events; alloc_events = n; freed = false }

abbrev counted : Vm → ℕ → Fd → Vm
counted vm i f = record vm { fds = set vm.fds i f; n_io_events = (vm.n_io_events + 1) % 2 ^ 32 }

module _ (vm : Vm) (i : ℕ) (f : Fd) (e1 e2 e3 : IoEvent) where
  first_event :
      get_elem? vm.fds i ≡ some (holding f [] 0)
      → alloc_event i e1 vm ≡ some (tt, counted vm i (holding f (e1 ∷ []) 4))
  unfolding alloc_event fd_at set_fd
  first_event at = bind-some (fd_at i) _ vm vm (holding f [] 0) _ (rw (asks, at) refl) refl

  second_event :
      get_elem? vm.fds i ≡ some (holding f (e1 ∷ []) 4)
      → alloc_event i e2 vm ≡ some (tt, counted vm i (holding f (e1 ∷ e2 ∷ []) 4))
  unfolding alloc_event fd_at set_fd
  second_event at = bind-some (fd_at i) _ vm vm (holding f (e1 ∷ []) 4) _ (rw (asks, at) refl) refl

  third_event : get_elem? vm.fds i ≡ some (holding f (e1 ∷ e2 ∷ []) 4) → alloc_event i e3 vm ≡ none
  unfolding alloc_event fd_at set_fd
  third_event at =
      bind-some (fd_at i) _ vm vm (holding f (e1 ∷ e2 ∷ []) 4) _ (rw (asks, at) refl) refl

-- Two events of a descriptor without any are written into its block, and a third one behind it: the block
-- of four events has the size of four of the smaller `io_mem_t`.
pub third_event_overflows :
    (vm : Vm) (i : ℕ) (f : Fd) (e1 e2 e3 : IoEvent)
    → get_elem? vm.fds i ≡ some f
    → f.events ≡ []
    → f.alloc_events ≡ 0
    → f.freed ≡ false
    → (after : Vm) × ((alloc_event i e1 >> alloc_event i e2) vm ≡ some (tt, after))
      × (alloc_event i e3 after ≡ none)
      × (get_elem? after.fds i ≡ some (record f { events = e1 ∷ e2 ∷ []; alloc_events = 4 }))
third_event_overflows vm i f e1 e2 e3 at none_yet none_allocated live =
    let same : f ≡ holding f [] 0 =
      λ k. record f { events = none_yet k; alloc_events = none_allocated k; freed = live k } in
    let at0 = at ∙ ap some same in
    let vm1 = counted vm i (holding f (e1 ∷ []) 4) in
    let at1 = get_elem?-set vm.fds i f (holding f (e1 ∷ []) 4) at in
    let at2 = get_elem?-set vm1.fds i (holding f (e1 ∷ []) 4) (holding f (e1 ∷ e2 ∷ []) 4) at1 in
    (
      counted vm1 i (holding f (e1 ∷ e2 ∷ []) 4),
      bind-some (alloc_event i e1) _ vm vm1 tt _ (first_event vm i f e1 e2 e3 at0)
          (second_event vm1 i f e1 e2 e3 at1),
      third_event (counted vm1 i (holding f (e1 ∷ e2 ∷ []) 4)) i f e1 e2 e3 at2,
      at2
          ∙ ap (λ b. some (record f { events = e1 ∷ e2 ∷ []; alloc_events = 4; freed = b }))
              (sym live),
    )
