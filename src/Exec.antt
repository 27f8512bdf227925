-- ===== src/Exec.antt =====
-- src/vm_exec.c: one round of the machine and the loop over the rounds, with `op_syscall_3` of
-- src/instns/instn_impl_sys.c, the table of system calls of src/syscalls/syscall.inc, and
-- `cleanup_vm` of src/vm.c.
pub mod Rounds
pub mod Keeps
pub mod Faults
use bvgz_vm.Common.{
  ℕ, zero, suc, ◌+◌, ◌/◌, ◌%◌, ◌^◌, Bool, true, false, Option, none, some, List, [], ◌∷◌, ltb, leb,
  ◌==◌, ◌||◌, if◌then◌else◌, get_elem?,
}
use bvgz_vm.Memory.{Block}
use bvgz_vm.Vm.{
  Vm, Proc, M, Status, proceed, halt, pure, undefined, ◌>>=◌, ◌>>◌, gets, asks, modify, raise,
  set_error, e_bad_syscall_no, with_error,
}
use bvgz_vm.Vm.Procedures.{this_proc, set_this_proc, delete_current_procedure}
use bvgz_vm.Instn.{Instn, arg_value}
use bvgz_vm.Instn.Table
use bvgz_vm.Instn.Table.{Op, InstnDef}
use bvgz_vm.Instn.Arith
use bvgz_vm.Instn.Bitwise
use bvgz_vm.Instn.Logic
use bvgz_vm.Instn.Access
use bvgz_vm.Instn.Control
use bvgz_vm.Decode.{decode_instn}
use bvgz_vm.Syscall.{Host, IoHost, Waited, carry_out}
use bvgz_vm.Syscall.Io.Calls
use bvgz_vm.Syscall.Io.Events.{fire_io_events}
use bvgz_vm.Syscall.Procs
use bvgz_vm.Syscall.Misc
use bvgz_vm.Syscall.Mem
use bvgz_vm.Syscall.Timers.{fire_timer_events, has_pending_timer_events}
use bvgz_vm.Syscall.{ClockReading}

-- `nSyscalls`, the length of the table
abbrev pub n_syscalls : ℕ
n_syscalls = 30

-- A call that is not modelled
abbrev pub other : Host → (id argv retv : ℕ) → M (Unit {0})
other host id argv retv = asks (host.other_syscall id argv retv) >>= carry_out

-- `SyscallTable[id](vm, argv, retv)`
unfoldable pub syscall : Host → (id argv retv : ℕ) → M (Unit {0})
unfolding Misc.sys_getlasterr Misc.sys_setlasterr Misc.sys_time Misc.sys_timeout Misc.sys_yield
    Misc.sys_codesz Misc.sys_codecp Mem.sys_mexpand Mem.sys_mretract Mem.sys_msize Calls.sys_close
    Calls.sys_read Calls.sys_write Procs.sys_kill Procs.sys_onexit
syscall host id argv retv =
    if id == 0
    then Misc.sys_getlasterr argv retv
    else if id == 1
    then Misc.sys_setlasterr argv retv
    else if id == 2
    then Misc.sys_time host argv retv
    else if id == 3
    then Misc.sys_timeout host argv retv
    else if id == 4
    then Misc.sys_yield argv retv
    else if id == 5
    then Calls.sys_close host.call_io argv retv
    else if id == 6
    then Calls.sys_read argv retv
    else if id == 7
    then Calls.sys_write argv retv
    else if id == 21
    then Mem.sys_mexpand host argv retv
    else if id == 22
    then Mem.sys_mretract host argv retv
    else if id == 23
    then Mem.sys_msize argv retv
    else if id == 26
    then Procs.sys_kill host.kill argv retv
    else if id == 27
    then Procs.sys_onexit argv retv
    else if id == 28
    then Misc.sys_codesz argv retv
    else if id == 29
    then Misc.sys_codecp argv retv
    else other host id argv retv

unfoldable pub fire_vm_events : ClockReading → IoHost → List Waited → M ℕ
unfolding fire_io_events Procs.fire_proc_events
fire_vm_events clock io waits = do
  timers ← fire_timer_events clock
  ios ← fire_io_events io
  procs ← Procs.fire_proc_events waits 0
  pure ((timers + ios + procs) % 2 ^ 32)

unfoldable pub has_pending_events : Vm → Bool
has_pending_events vm =
    has_pending_timer_events vm || ltb 0 vm.n_io_events || ltb 0 vm.n_exit_callbacks

unfoldable pub cleanup_vm : List Waited → M (Unit {0})
unfolding Procs.cleanup_child_proc
cleanup_vm waits = do
  Procs.cleanup_child_proc waits
  modify (λ vm. record vm { instns_since_last_cleanup = 0 })

unfoldable pub op_syscall_3 : Host → Instn → M Status
op_syscall_3 host instn = do
  n ← fire_vm_events host.fire_clock host.fire_io host.fire_waits
  cleanup_vm host.call_waits
  syscall_id ← arg_value instn 0
  argv ← arg_value instn 1
  retv ← arg_value instn 2
  if leb n_syscalls (syscall_id % 2 ^ 16)
      then (do raise e_bad_syscall_no; pure halt)
      else (do syscall host (syscall_id % 2 ^ 16) (argv % 2 ^ 32) (retv % 2 ^ 32); pure proceed)

-- The handler that a table entry points at.
unfoldable pub run_op : Host → Op → Instn → M Status
unfolding Access.op_nop_0 Arith.op_add_3 Arith.op_add_2 Arith.op_sub_3 Arith.op_sub_2 Arith.op_mul_3
    Arith.op_mul_2 Arith.op_div_3 Arith.op_div_2 Arith.op_mod_3 Arith.op_mod_2 Arith.op_eq_3
    Arith.op_ne_3 Arith.op_gt_3 Arith.op_lt_3 Arith.op_ge_3 Arith.op_le_3 Logic.op_l_and_3
    Logic.op_l_and_2 Logic.op_l_or_3 Logic.op_l_or_2 Logic.op_l_not_2 Logic.op_l_not_1
    Logic.op_l_bool_2 Logic.op_l_bool_1 Bitwise.op_and_3 Bitwise.op_and_2 Bitwise.op_or_3
    Bitwise.op_or_2 Bitwise.op_xor_3 Bitwise.op_xor_2 Bitwise.op_not_2 Bitwise.op_not_1
    Bitwise.op_shl_3 Bitwise.op_shl_2 Bitwise.op_shr_3 Bitwise.op_shr_2 Access.op_cp_3
    Access.op_read8_3 Access.op_read16_3 Access.op_read32_3 Access.op_read64_3 Access.op_write8_3
    Access.op_write16_3 Access.op_write32_3 Access.op_write64_3 Control.op_jmp_1 Control.op_jtrue_2
    Control.op_jfalse_2 Control.op_call_3 Control.op_ret_0 Control.op_argv_1 Control.op_retv_1
    Access.op_assert_2 Access.op_abrt_1
run_op host Table.op_nop_0 instn = Access.op_nop_0 instn
run_op host Table.op_add_3 instn = Arith.op_add_3 instn
run_op host Table.op_add_2 instn = Arith.op_add_2 instn
run_op host Table.op_sub_3 instn = Arith.op_sub_3 instn
run_op host Table.op_sub_2 instn = Arith.op_sub_2 instn
run_op host Table.op_mul_3 instn = Arith.op_mul_3 instn
run_op host Table.op_mul_2 instn = Arith.op_mul_2 instn
run_op host Table.op_div_3 instn = Arith.op_div_3 instn
run_op host Table.op_div_2 instn = Arith.op_div_2 instn
run_op host Table.op_mod_3 instn = Arith.op_mod_3 instn
run_op host Table.op_mod_2 instn = Arith.op_mod_2 instn
run_op host Table.op_eq_3 instn = Arith.op_eq_3 instn
run_op host Table.op_ne_3 instn = Arith.op_ne_3 instn
run_op host Table.op_gt_3 instn = Arith.op_gt_3 instn
run_op host Table.op_lt_3 instn = Arith.op_lt_3 instn
run_op host Table.op_ge_3 instn = Arith.op_ge_3 instn
run_op host Table.op_le_3 instn = Arith.op_le_3 instn
run_op host Table.op_l_and_3 instn = Logic.op_l_and_3 instn
run_op host Table.op_l_and_2 instn = Logic.op_l_and_2 instn
run_op host Table.op_l_or_3 instn = Logic.op_l_or_3 instn
run_op host Table.op_l_or_2 instn = Logic.op_l_or_2 instn
run_op host Table.op_l_not_2 instn = Logic.op_l_not_2 instn
run_op host Table.op_l_not_1 instn = Logic.op_l_not_1 instn
run_op host Table.op_l_bool_2 instn = Logic.op_l_bool_2 instn
run_op host Table.op_l_bool_1 instn = Logic.op_l_bool_1 instn
run_op host Table.op_and_3 instn = Bitwise.op_and_3 instn
run_op host Table.op_and_2 instn = Bitwise.op_and_2 instn
run_op host Table.op_or_3 instn = Bitwise.op_or_3 instn
run_op host Table.op_or_2 instn = Bitwise.op_or_2 instn
run_op host Table.op_xor_3 instn = Bitwise.op_xor_3 instn
run_op host Table.op_xor_2 instn = Bitwise.op_xor_2 instn
run_op host Table.op_not_2 instn = Bitwise.op_not_2 instn
run_op host Table.op_not_1 instn = Bitwise.op_not_1 instn
run_op host Table.op_shl_3 instn = Bitwise.op_shl_3 instn
run_op host Table.op_shl_2 instn = Bitwise.op_shl_2 instn
run_op host Table.op_shr_3 instn = Bitwise.op_shr_3 instn
run_op host Table.op_shr_2 instn = Bitwise.op_shr_2 instn
run_op host Table.op_cp_3 instn = Access.op_cp_3 instn
run_op host Table.op_read8_3 instn = Access.op_read8_3 instn
run_op host Table.op_read16_3 instn = Access.op_read16_3 instn
run_op host Table.op_read32_3 instn = Access.op_read32_3 instn
run_op host Table.op_read64_3 instn = Access.op_read64_3 instn
run_op host Table.op_write8_3 instn = Access.op_write8_3 instn
run_op host Table.op_write16_3 instn = Access.op_write16_3 instn
run_op host Table.op_write32_3 instn = Access.op_write32_3 instn
run_op host Table.op_write64_3 instn = Access.op_write64_3 instn
run_op host Table.op_jmp_1 instn = Control.op_jmp_1 instn
run_op host Table.op_jtrue_2 instn = Control.op_jtrue_2 instn
run_op host Table.op_jfalse_2 instn = Control.op_jfalse_2 instn
run_op host Table.op_call_3 instn = Control.op_call_3 instn
run_op host Table.op_syscall_3 instn = op_syscall_3 host instn
run_op host Table.op_ret_0 instn = Control.op_ret_0 instn
run_op host Table.op_argv_1 instn = Control.op_argv_1 instn
run_op host Table.op_retv_1 instn = Control.op_retv_1 instn
run_op host Table.op_assert_2 instn = Access.op_assert_2 instn
run_op host Table.op_abrt_1 instn = Access.op_abrt_1 instn

-- `InstnDefs[instn->code >> 3].handler(instn, vm)`: behind the table there is no handler.
unfoldable pub vm_exec_instn : Host → List InstnDef → Instn → M Status
vm_exec_instn host defs instn = elim (get_elem? defs (instn.code / 2 ^ 3)) [
  | none ↦ undefined
  | some def ↦ run_op host def.handler instn
]

-- -1, or the number of events that were fired
unfoldable pub vm_fire_events : Host → M (Option ℕ)
vm_fire_events host = do
  pending ← gets has_pending_events
  if pending
      then (do
        n ← fire_vm_events host.idle_clock host.idle_io host.idle_waits
        if n == 0
            then elim (host.sleep_error) [
              | none ↦ pure (some 0)
              | some e ↦ do set_error e; pure (some 0)
            ]
            else pure (some n))
      else pure none

-- `none` is NULL: a procedure that ran off the end of the code is removed.
unfoldable pub vm_current_procedure : M (Option Proc)
vm_current_procedure = do
  proc ← this_proc
  codesz ← gets (λ vm. vm.code.size)
  if leb codesz proc.iptr then (do delete_current_procedure; pure none) else pure (some proc)

unfoldable pub vm_decode_instn : List InstnDef → Proc → Instn → M (Option Instn)
vm_decode_instn defs proc instn = do
  modify (λ vm. record vm { iptr = proc.iptr })
  result ← decode_instn defs proc.iptr instn
  elim result [
    | none ↦ pure none
    | some (offt, instn') ↦ do
      set_this_proc (record proc { iptr = (proc.iptr + offt) % 2 ^ 32 })
      pure (some instn')
  ]

-- What a round of the loop ends with: `continue` or the end of the body, or `break`.
pub data Round : Type 0 where
  next : Instn → Round
  stop : Round

abbrev pub vm_cleanup_period_instns : ℕ
vm_cleanup_period_instns = 20

-- The counters behind an instruction that was executed.
unfoldable pub count_instn : Host → M (Unit {0})
count_instn host = do
  modify λ vm. record vm {
    instns = (vm.instns + 1) % 2 ^ 64;
    instns_since_last_cleanup = (vm.instns_since_last_cleanup + 1) % 2 ^ 32;
  }
  n ← gets (λ vm. vm.instns_since_last_cleanup)
  if n % vm_cleanup_period_instns == 0 then cleanup_vm host.count_waits else pure tt

-- From `vm_current_procedure` to the end of the body.
unfoldable pub run_current : Host → List InstnDef → Instn → M Round
run_current host defs instn = do
  current ← vm_current_procedure
  elim current [
    | none ↦ pure (next instn)
    | some proc ↦ do
      decoded ← vm_decode_instn defs proc instn
      elim decoded [
        | none ↦ pure stop
        | some instn' ↦ do
          status ← vm_exec_instn host defs instn'
          elim status [ halt ↦ pure stop | proceed ↦ do count_instn host; pure (next instn') ]
      ]
  ]

-- The body of `while (1)`. The count is held in an `int`, so that 2 ^ 31 events look like the end.
unfoldable pub vm_round : Host → List InstnDef → Instn → M Round
vm_round host defs instn vm = elim (vm.procedures) [
  | [] ↦ elim (vm_fire_events host vm) [
    | none ↦ none
    | some (none, vm') ↦ some (stop, vm')
    | some (some n, vm') ↦
        if n == 0
        then some (next instn, vm')
        else if leb (2 ^ 31) n
        then some (stop, vm')
        else run_current host defs instn vm'
  ]
  | _ ∷ _ ↦ run_current host defs instn vm
]

-- `execute_vm` for at most `fuel` rounds; round `k` has the answers `hosts k`.
pub data Run : Type 0 where
  finished : Vm → Run
  running : Instn → Vm → Run
  crashed : Run

unfoldable pub execute_vm : (fuel k : ℕ) → (ℕ → Host) → List InstnDef → Instn → Vm → Run
execute_vm zero k hosts defs instn vm = running instn vm
execute_vm (suc fuel) k hosts defs instn vm = elim (vm_round (hosts k) defs instn vm) [
  | none ↦ crashed
  | some (stop, vm') ↦ elim (cleanup_vm (hosts k).end_waits vm') [
    | none ↦ crashed
    | some (_, vm'') ↦ finished vm''
  ]
  | some (next instn', vm') ↦ execute_vm fuel (k + 1) hosts defs instn' vm'
]
