-- ===== src/Exec/Keeps/Syscalls.antt =====
-- The system calls keep the code and the bound of the memory.
use bvgz_vm.Common.{ℕ, ◌+◌, ◌-◌, ◌%◌, ◌^◌, ◌≤◌, ◌≡◌, refl, Option, none, some, arith, ◌==◌, ltb}
use bvgz_vm.Memory.{Block, copy}
use bvgz_vm.Vm.{Vm, M, ◌>>=◌, ◌>>◌, asks, modify, set_error, set_lref}
use bvgz_vm.Vm.Procedures.{make_vm_timer}
use bvgz_vm.Syscall.{Host, enomem, ClockReading, time, clock_error}
use bvgz_vm.Syscall.Misc.{
  sys_getlasterr, sys_setlasterr, sys_time, sys_timeout, sys_yield, sys_codesz, sys_codecp,
  copy_code,
}
use bvgz_vm.Syscall.Mem.{realloc_memory, with_pointers, sys_mexpand, sys_mretract, sys_msize}
use bvgz_vm.Exec.{syscall, other}
use bvgz_vm.Exec.Keeps.Events.{
  store_if-Keeps, carry_out-Keeps, sys_close-Keeps, sys_read-Keeps, sys_write-Keeps, sys_kill-Keeps,
  sys_onexit-Keeps,
}
use bvgz_vm.Exec.Keeps.{
  Keeps, Outcome, Outcome-trans, keep_rules, bind-Keeps, set_lref-Keeps, set_error-Keeps,
  lref-Keeps, gets-Keeps, asks-Keeps, cond-Keeps, seq-Keeps,
}

-- A step that goes on from a value that the state determines.
asks_bind-Keeps :
    {A B : Type 0} (f : Vm → Option A) (k : A → M B)
    → ((vm : Vm) (a : A) → f vm ≡ some a → Outcome vm (k a vm))
    → Keeps (asks f >>= k)
asks_bind-Keeps f k h = record { run = λ vm. go vm k (f vm) (h vm) }
  where
    go :
        {A B : Type 0} (vm : Vm) (k : A → M B) (o : Option A)
        → ((a : A) → o ≡ some a → Outcome vm (k a vm))
        → Outcome vm ((asks (λ x. o) >>= k) vm)
    go vm k none h = tt
    go vm k (some a) h = h a refl

realloc_memory_size :
    (host : Host) (size : ℕ) (vm : Vm) (block : Block)
    → realloc_memory host size vm ≡ some (some block)
    → block.size ≡ size
realloc_memory_size host size vm block e = ground arith

copy_code-Keeps : (p begin size : ℕ) → Keeps (copy_code p begin size)
unfolding copy_code copy
copy_code-Keeps p begin size = record { run = λ vm. ground arith }

make_vm_timer-Keeps : (sec nsec iptr : ℕ) → Keeps (modify (make_vm_timer sec nsec iptr))
unfolding make_vm_timer
make_vm_timer-Keeps sec nsec iptr = record { run = λ vm. record { code = refl; within = λ h. h } }

ruleset syscall_rules = (keep_rules, store_if-Keeps, copy_code-Keeps, make_vm_timer-Keeps)

with_pointers-Keeps :
    (argv retv : ℕ) (body : ℕ → ℕ → M (Unit {0}))
    → ((a r : ℕ) → Keeps (body a r))
    → Keeps (with_pointers argv retv body)
unfolding with_pointers
with_pointers-Keeps argv retv body h = search (syscall_rules, h) depth 12

-- The result of `realloc` becomes the memory.
resize-Keeps :
    (host : Host) (size memsz retv r : ℕ)
    → memsz ≤ size
    → Keeps (
        asks (realloc_memory host size) >>= λ mem. elim mem [
          | none ↦ (do set_error enomem; set_lref 8 r 1)
          | some block ↦ do
            modify (λ vm. record vm { memory = block; memsz = memsz })
            set_lref 8 retv 0
        ])
resize-Keeps host size memsz retv r le =
    asks_bind-Keeps (realloc_memory host size) _ (go host size memsz retv r le)
  where
    go :
        (host : Host) (size memsz retv r : ℕ)
        → memsz ≤ size
        → (vm : Vm) (mem : Option Block) → realloc_memory host size vm ≡ some mem
        → Outcome vm (
            elim mem as (λ _. M (Unit {0})) [
              | none ↦ (do set_error enomem; set_lref 8 r 1)
              | some block ↦ do
                modify (λ vm. record vm { memory = block; memsz = memsz })
                set_lref 8 retv 0
            ]
              vm)
    go host size memsz retv r le vm none e =
        (seq-Keeps (set_error-Keeps enomem) (set_lref-Keeps 8 r 1)).run vm
    go host size memsz retv r le vm (some block) e =
        Outcome-trans vm (record vm { memory = block; memsz = memsz }) _
          (record {
            code = refl;
            within = λ h. omega (arith, realloc_memory_size host size vm block e);
          })
          ((set_lref-Keeps 8 retv 0).run _)

sys_mexpand-Keeps : (host : Host) (argv retv : ℕ) → Keeps (sys_mexpand host argv retv)
unfolding sys_mexpand
sys_mexpand-Keeps host argv retv = with_pointers-Keeps argv retv _ λ a r.
    bind-Keeps (lref-Keeps 8 a) λ sz. bind-Keeps (gets-Keeps (λ vm. vm.memsz)) λ memsz.
      resize-Keeps host ((memsz + sz) % 2 ^ 64) ((memsz + sz) % 2 ^ 32) retv r (omega arith)

sys_mretract-Keeps : (host : Host) (argv retv : ℕ) → Keeps (sys_mretract host argv retv)
unfolding sys_mretract
sys_mretract-Keeps host argv retv = with_pointers-Keeps argv retv _ λ a r.
    bind-Keeps (lref-Keeps 8 a) λ sz. bind-Keeps (gets-Keeps (λ vm. vm.memsz)) λ memsz.
      cond-Keeps (ltb memsz sz) (search syscall_rules)
        (resize-Keeps host (memsz - sz) (memsz - sz) retv r (omega arith))

sys_yield-Keeps : (argv retv : ℕ) → Keeps (sys_yield argv retv)
unfolding sys_yield
sys_yield-Keeps argv retv = record { run = λ vm. ground arith }

other-Keeps : (host : Host) (id argv retv : ℕ) → Keeps (other host id argv retv)
other-Keeps host id argv retv =
    bind-Keeps (asks-Keeps (host.other_syscall id argv retv)) carry_out-Keeps

-- The two calls that read the clock, for each of its results.
sys_time_at-Keeps :
    (host : Host) (c : ClockReading) (argv retv : ℕ)
    → Keeps (sys_time (record host { call_clock = c }) argv retv)
unfolding sys_time
sys_time_at-Keeps host (time sec nsec) argv retv = search syscall_rules depth 14
sys_time_at-Keeps host (clock_error e) argv retv = search syscall_rules depth 14

sys_timeout_at-Keeps :
    (host : Host) (c : ClockReading) (argv retv : ℕ)
    → Keeps (sys_timeout (record host { call_clock = c }) argv retv)
unfolding sys_timeout
sys_timeout_at-Keeps host (time sec nsec) argv retv = search syscall_rules depth 14
sys_timeout_at-Keeps host (clock_error e) argv retv = search syscall_rules depth 14

sys_getlasterr-Keeps : (argv retv : ℕ) → Keeps (sys_getlasterr argv retv)
unfolding sys_getlasterr
sys_getlasterr-Keeps argv retv = search syscall_rules depth 14

sys_setlasterr-Keeps : (argv retv : ℕ) → Keeps (sys_setlasterr argv retv)
unfolding sys_setlasterr
sys_setlasterr-Keeps argv retv = search syscall_rules depth 14

sys_msize-Keeps : (argv retv : ℕ) → Keeps (sys_msize argv retv)
unfolding sys_msize
sys_msize-Keeps argv retv = search syscall_rules depth 14

sys_codesz-Keeps : (argv retv : ℕ) → Keeps (sys_codesz argv retv)
unfolding sys_codesz
sys_codesz-Keeps argv retv = search syscall_rules depth 14

sys_codecp-Keeps : (argv retv : ℕ) → Keeps (sys_codecp argv retv)
unfolding sys_codecp
sys_codecp-Keeps argv retv = search syscall_rules depth 16

pub syscall-Keeps : (host : Host) (id argv retv : ℕ) → Keeps (syscall host id argv retv)
unfolding syscall
syscall-Keeps host id argv retv = cond-Keeps (id == 0) (sys_getlasterr-Keeps argv retv) (
    cond-Keeps (id == 1) (sys_setlasterr-Keeps argv retv) (
      cond-Keeps (id == 2) (sys_time_at-Keeps host host.call_clock argv retv) (
        cond-Keeps (id == 3) (sys_timeout_at-Keeps host host.call_clock argv retv) (
          cond-Keeps (id == 4) (sys_yield-Keeps argv retv) (
            cond-Keeps (id == 5) (sys_close-Keeps host.call_io argv retv) (
              cond-Keeps (id == 6) (sys_read-Keeps argv retv) (
                cond-Keeps (id == 7) (sys_write-Keeps argv retv) (
                  cond-Keeps (id == 21) (sys_mexpand-Keeps host argv retv) (
                    cond-Keeps (id == 22) (sys_mretract-Keeps host argv retv) (
                      cond-Keeps (id == 23) (sys_msize-Keeps argv retv) (
                        cond-Keeps (id == 26) (sys_kill-Keeps host.kill argv retv) (
                          cond-Keeps (id == 27) (sys_onexit-Keeps argv retv) (
                            cond-Keeps (id == 28) (sys_codesz-Keeps argv retv) (
                              cond-Keeps (id == 29) (sys_codecp-Keeps argv retv)
                                (other-Keeps host id argv retv)))))))))))))))
