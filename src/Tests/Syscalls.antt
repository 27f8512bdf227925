-- ===== src/Tests/Syscalls.antt =====
-- System calls of the small machine.
use bvgz_vm.Common.{
  ℕ, ◌+◌, ◌≤◌, ◌<◌, ◌≡◌, ◌⊎◌, refl, Bool, true, false, some, List, [], ◌∷◌, arith, length,
  get_elem?,
}
use bvgz_vm.Memory.{read_le}
use bvgz_vm.Vm.{Vm, Proc, Timer, ◌>>=◌, with_error, lref}
use bvgz_vm.Vm.Access.{written}
use bvgz_vm.Vm.Procedures.{fresh_proc}
use bvgz_vm.Instn.Access.{deref_mem_ptr}
use bvgz_vm.Syscall.Misc.{sys_getlasterr, sys_setlasterr}
use bvgz_vm.Syscall.Mem.{sys_mexpand}
use bvgz_vm.Syscall.Laws.{
  deref_mem_ptr_wraps, getlasterr-setlasterr, yields, yield_fair, mexpand_grows,
}
use bvgz_vm.Syscall.Timers.{expired, fire_at}
use bvgz_vm.Syscall.Timers.Sweeping.{fire_at_removes}
use bvgz_vm.Syscall.Timers.Arrays.{count}
use bvgz_vm.Tests.{host, machine}

deref_mem_ptr_wraps_example : deref_mem_ptr 0xffff_fffc 8 machine ≡ some (some 0xffff_fffc, machine)
deref_mem_ptr_wraps_example =
    deref_mem_ptr_wraps 0xffff_fffc 8 machine (omega arith) (omega arith) (omega arith)
      (omega arith)

getlasterr-setlasterr_example :
    (sys_setlasterr 8 0 >>= λ _. sys_getlasterr 0 24) machine
    ≡ some (tt, with_error 0 (written 8 24 7 machine))
unfolding read_le
getlasterr-setlasterr_example =
    getlasterr-setlasterr machine 8 24 0 0 (omega arith) (omega arith) refl (omega arith)

abbrev three_procs : List Proc
three_procs = fresh_proc 0 ∷ fresh_proc 2 ∷ fresh_proc 4 ∷ []

yield_fair_example :
    yields 2 0 0 (record machine { procedures = three_procs })
    ≡ some (tt, record machine { procedures = fresh_proc 4 ∷ fresh_proc 0 ∷ fresh_proc 2 ∷ [] })
yield_fair_example =
    yield_fair 0 0 (record machine { procedures = three_procs }) (fresh_proc 0 ∷ fresh_proc 2 ∷ [])
      (fresh_proc 4 ∷ []) refl

mexpand_grows_example :
    (after : Vm) × (sys_mexpand host 8 24 machine ≡ some (tt, after))
    × (after.memsz ≡ 71)
    × (after.memory.size ≡ after.memsz)
    × ((q : ℕ) → q < 64 → (q < 24) ⊎ (32 ≤ q) → after.memory.cell q ≡ machine.memory.cell q)
    × (lref 8 24 after ≡ some (0, after))
    × (after ≡ record machine { memory = after.memory; memsz = after.memsz })
unfolding read_le
mexpand_grows_example =
    mexpand_grows host machine 8 24 (omega arith) (omega arith) refl (omega arith) (λ q. 0)
      (omega arith) refl

abbrev with_timers : Vm
with_timers = record machine {
  timers =
      record { tv_sec = 3; tv_nsec = 0; iptr = 2 }
      ∷ record { tv_sec = 9; tv_nsec = 0; iptr = 4 }
      ∷ [];
}

fire_at_removes_example :
    (n : ℕ) × (after : Vm) × (fire_at 5 0 with_timers ≡ some (n, after))
    × (n + length after.timers ≡ 2)
    × ((j : ℕ) (t : Timer) → get_elem? after.timers j ≡ some t → expired 5 0 t ≡ false)
    × ((q : Timer → Bool)
        → ((t : Timer) → expired 5 0 t ≡ true → q t ≡ false)
        → count q after.timers ≡ count q with_timers.timers)
fire_at_removes_example = fire_at_removes 5 0 with_timers
