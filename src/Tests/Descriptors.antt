-- ===== src/Tests/Descriptors.antt =====
-- A machine with two descriptors, of which the second is in use, and eight bytes that hold the handle 3;
-- and a machine with one child process.
use bvgz_vm.Common.{
  ℕ, ◌≡◌, ◌≢◌, refl, true, false, none, some, [], ◌∷◌, ◌==◌, if◌then◌else◌, get_elem?, arith,
}
use bvgz_vm.Memory.{read_le, load}
use bvgz_vm.Vm.{Vm, Fd, IoEvent, no_data, read_io, ◌>>◌, lref}
use bvgz_vm.Instn.Access.{deref_mem_ptr}
use bvgz_vm.Syscall.Io.{zero_fd, alloc_fd, alloc_event}
use bvgz_vm.Syscall.Io.Calls.{sys_close}
use bvgz_vm.Syscall.Io.Table.{IsCounted, alloc_fd_lem}
use bvgz_vm.Syscall.Io.Limits.{sys_close_bound, third_event_overflows}
use bvgz_vm.Syscall.Procs.{find_proc, save_child_proc}
use bvgz_vm.Syscall.Procs.Table.{count_children, new_child, save_child_proc_lem}
use bvgz_vm.Tests.{machine, io_host}

abbrev two_fds : Vm
two_fds = record machine {
  fds = zero_fd ∷ record zero_fd { fd = 5; used = true } ∷ [];
  used_fds = 1;
  memory = record { size = 64; cell = λ q. if q == 8 then 3 else 0 };
}

alloc_fd_lem_example :
    (i : ℕ) × (after : Vm) × (f : Fd) × (alloc_fd two_fds ≡ some (i, after))
    × ((g : Fd) → get_elem? two_fds.fds i ≡ some g → g.used ≡ false)
    × (get_elem? after.fds i ≡ some f)
    × (f.used ≡ true)
    × ((j : ℕ) (g : Fd) → j ≢ i → get_elem? two_fds.fds j ≡ some g → get_elem? after.fds j ≡ some g)
    × IsCounted after
alloc_fd_lem_example = alloc_fd_lem two_fds refl (omega arith)

sys_close_bound_example : sys_close io_host 8 24 two_fds ≡ none
unfolding read_le deref_mem_ptr lref load
sys_close_bound_example = sys_close_bound io_host two_fds 8 24 8 24 3 refl refl refl (omega arith)

abbrev event : IoEvent
event = record { flags = 1; activate = read_io; payload = no_data }

third_event_overflows_example :
    (after : Vm) × ((alloc_event 1 event >> alloc_event 1 event) two_fds ≡ some (tt, after))
    × (alloc_event 1 event after ≡ none)
    × (get_elem? after.fds 1
        ≡ some
            (record zero_fd { fd = 5; used = true; events = event ∷ event ∷ []; alloc_events = 4 }))
third_event_overflows_example =
    third_event_overflows two_fds 1 (record zero_fd { fd = 5; used = true }) event event event refl
      refl refl refl

abbrev one_child : Vm
one_child = record machine {
  child_proc = record { pid = 41; used = true; exit_cb = [] } ∷ [];
  n_proc = 1;
}

save_child_proc_lem_example :
    (p : ℕ) × (after : Vm) × (save_child_proc 42 one_child ≡ some (tt, after))
    × (find_proc 42 0 after.child_proc ≡ some (p, new_child 42))
    × ((q : ℕ) → q ≢ 42 → find_proc q 0 after.child_proc ≡ find_proc q 0 one_child.child_proc)
    × (after.n_proc ≡ count_children after.child_proc)
unfolding find_proc
save_child_proc_lem_example = save_child_proc_lem 42 one_child refl (omega arith) refl
