-- ===== src/Exec/Keeps/Runs.antt =====
-- Whole runs of src/vm_exec.c keep the code and the bound of the memory.
use bvgz_vm.Common.{
  ℕ, zero, suc, ◌+◌, ◌/◌, ◌%◌, ◌^◌, refl, Bool, true, false, Option, none, some, List, [], ◌∷◌,
  if◌then◌else◌, ◌==◌, leb, get_elem?,
}
use bvgz_vm.Vm.{Vm, Proc, M, ◌>>=◌, modify, proceed, halt, Status}
use bvgz_vm.Instn.{Instn}
use bvgz_vm.Instn.Table.{InstnDef}
use bvgz_vm.Syscall.{Host, ClockReading, IoHost, Waited}
use bvgz_vm.Syscall.Procs.{cleanup_child_proc}
use bvgz_vm.Exec.{
  Round, next, stop, Run, finished, running, crashed, op_syscall_3, fire_vm_events, cleanup_vm,
  vm_exec_instn, vm_fire_events, count_instn, run_current, vm_round, execute_vm, has_pending_events,
}
use bvgz_vm.Exec.Keeps.{
  Keep, Keep-refl, Keeps, Outcome, Outcome-trans, keep_rules, bind-Keeps, pure-Keeps,
  set_error-Keeps, seq-Keeps, gets-Keeps, cond-Keeps, option-Keeps, undefined-Keeps,
}
use bvgz_vm.Exec.Keeps.Handlers.{run_op-Keeps}
use bvgz_vm.Exec.Keeps.Syscalls.{syscall-Keeps}
use bvgz_vm.Exec.Keeps.Events.{fire_io_events-Keeps, fire_proc_events-Keeps}
use bvgz_vm.Exec.Keeps.Timers.{Keep-trans, fire_timer_events-Keeps}
use bvgz_vm.Exec.Keeps.Decoding.{vm_decode_instn-Keeps, vm_current_procedure-Keeps}

Outcome-if :
    {A : Type 0} (vm : Vm) (b : Bool) (x y : Option (A × Vm))
    → Outcome vm x
    → Outcome vm y
    → Outcome vm (if b then x else y)
Outcome-if vm true x y o p = o
Outcome-if vm false x y o p = p

bind_status-Keeps :
    {B : Type 0} {m : M Status} (k : Status → M B)
    → Keeps m
    → Keeps (k proceed)
    → Keeps (k halt)
    → Keeps (m >>= k)
bind_status-Keeps k h p q = bind-Keeps h (go k p q)
  where
    go :
        {B : Type 0} (k : Status → M B)
        → Keeps (k proceed)
        → Keeps (k halt)
        → (s : Status) → Keeps (k s)
    go k p q proceed = p
    go k p q halt = q

fire_vm_events-Keeps :
    (c : ClockReading) (io : IoHost) (ws : List Waited) → Keeps (fire_vm_events c io ws)
unfolding fire_vm_events
fire_vm_events-Keeps c io ws =
    search (keep_rules, fire_timer_events-Keeps, fire_io_events-Keeps, fire_proc_events-Keeps) depth
      14

cleanup_vm-Keeps : (ws : List Waited) → Keeps (cleanup_vm ws)
unfolding cleanup_vm cleanup_child_proc
cleanup_vm-Keeps ws =
    seq-Keeps (bind-Keeps (fire_proc_events-Keeps ws 0) (λ n. pure-Keeps tt))
      (record { run = λ vm. record { code = refl; within = λ h. h } })

module _ (host : Host) where
  op_syscall_3-Keeps : (instn : Instn) → Keeps (op_syscall_3 host instn)
  unfolding op_syscall_3
  op_syscall_3-Keeps instn =
      search (keep_rules, fire_vm_events-Keeps, cleanup_vm-Keeps, syscall-Keeps host) depth 16

  vm_exec_instn-Keeps :
      (defs : List InstnDef) (instn : Instn) → Keeps (vm_exec_instn host defs instn)
  unfolding vm_exec_instn
  vm_exec_instn-Keeps defs instn =
      option-Keeps (get_elem? defs (instn.code / 2 ^ 3)) undefined-Keeps
        (λ def. run_op-Keeps host op_syscall_3-Keeps def.handler instn)

  vm_fire_events-Keeps : Keeps (vm_fire_events host)
  unfolding vm_fire_events
  vm_fire_events-Keeps = bind-Keeps (gets-Keeps has_pending_events) λ pending.
      cond-Keeps pending
        (bind-Keeps (fire_vm_events-Keeps host.idle_clock host.idle_io host.idle_waits) λ n.
          cond-Keeps (n == 0)
            (option-Keeps host.sleep_error (pure-Keeps (some 0))
              (λ e. seq-Keeps (set_error-Keeps e) (pure-Keeps (some 0))))
            (pure-Keeps (some n)))
        (pure-Keeps none)

  counters-Keeps : Keeps (
      modify λ vm. record vm {
        instns = (vm.instns + 1) % 2 ^ 64;
        instns_since_last_cleanup = (vm.instns_since_last_cleanup + 1) % 2 ^ 32;
      })
  counters-Keeps = record { run = λ vm. record { code = refl; within = λ k. k } }

  count_instn-Keeps : Keeps (count_instn host)
  unfolding count_instn
  count_instn-Keeps = search (keep_rules, counters-Keeps, cleanup_vm-Keeps) depth 12

  run_current-Keeps : (defs : List InstnDef) (instn : Instn) → Keeps (run_current host defs instn)
  unfolding run_current
  run_current-Keeps defs instn =
      search
        (
          bind_status-Keeps, keep_rules, vm_current_procedure-Keeps, vm_decode_instn-Keeps,
          vm_exec_instn-Keeps, count_instn-Keeps,
        )
        depth 16

  vm_round-Keeps : (defs : List InstnDef) (instn : Instn) → Keeps (vm_round host defs instn)
  unfolding vm_round
  vm_round-Keeps defs instn = record { run = λ vm. go defs instn vm vm.procedures }
    where
      fired :
          (defs : List InstnDef) (instn : Instn) (vm : Vm) (r : Option (Option ℕ × Vm))
          → Outcome vm r
          → Outcome vm (elim r [
            | none ↦ none
            | some (none, vm') ↦ some (stop, vm')
            | some (some n, vm') ↦
                if n == 0
                then some (next instn, vm')
                else if leb (2 ^ 31) n
                then some (stop, vm')
                else run_current host defs instn vm'
          ])
      fired defs instn vm none k = tt
      fired defs instn vm (some (none, vm')) k = k
      fired defs instn vm (some (some n, vm')) k = Outcome-if vm (n == 0) _ _ k (
          Outcome-if vm (leb (2 ^ 31) n) _ _ k
            (Outcome-trans vm vm' _ k ((run_current-Keeps defs instn).run vm')))

      go :
          (defs : List InstnDef) (instn : Instn) (vm : Vm) (ps : List Proc)
          → Outcome vm (elim ps [
            | [] ↦ elim (vm_fire_events host vm) [
              | none ↦ none
              | some (none, vm') ↦ some (stop, vm')
              | some (some n, vm') ↦
                  if n == 0
                  then some (next instn, vm')
                  else if leb (2 ^ 31) n
                  then some (stop, vm')
                  else run_current host defs instn vm'
            ]
            | _ ∷ _ ↦ run_current host defs instn vm
          ])
      go defs instn vm [] =
          fired defs instn vm (vm_fire_events host vm) (vm_fire_events-Keeps.run vm)
      go defs instn vm (p ∷ ps) = (run_current-Keeps defs instn).run vm

-- The machine that a run ends with, or has come to, keeps that of its start.
abbrev pub RunKeeps : Vm → Run → Type 0
RunKeeps vm (finished after) = Keep vm after
RunKeeps vm (running instn after) = Keep vm after
RunKeeps vm crashed = Unit

RunKeeps-trans : (a b : Vm) (r : Run) → Keep a b → RunKeeps b r → RunKeeps a r
RunKeeps-trans a b (finished c) k l = Keep-trans a b c k l
RunKeeps-trans a b (running instn c) k l = Keep-trans a b c k l
RunKeeps-trans a b crashed k l = tt

-- What execute_vm does with the end of a round.
after_round :
    (fuel k : ℕ) (hosts : ℕ → Host) (defs : List InstnDef) (vm : Vm)
    → ((instn : Instn) (vm' : Vm) → RunKeeps vm' (execute_vm fuel (k + 1) hosts defs instn vm'))
    → (r : Option (Round × Vm)) → Outcome vm r
    → RunKeeps vm (elim r [
      | none ↦ crashed
      | some (stop, vm') ↦ elim (cleanup_vm (hosts k).end_waits vm') [
        | none ↦ crashed
        | some (_, vm'') ↦ finished vm''
      ]
      | some (next instn', vm') ↦ execute_vm fuel (k + 1) hosts defs instn' vm'
    ])
after_round fuel k hosts defs vm rest none o = tt
after_round fuel k hosts defs vm rest (some (next instn, vm')) o =
    RunKeeps-trans vm vm' _ o (rest instn vm')
after_round fuel k hosts defs vm rest (some (stop, vm')) o =
    cleaned vm _ (Outcome-trans vm vm' _ o ((cleanup_vm-Keeps (hosts k).end_waits).run vm'))
  where
    cleaned :
        (vm : Vm) (r : Option (Unit {0} × Vm))
        → Outcome vm r
        → RunKeeps vm (elim r [ none ↦ crashed | some (_, vm'') ↦ finished vm'' ])
    cleaned vm none o = tt
    cleaned vm (some (_, vm'')) o = o

-- A program cannot change its code, and cannot make the machine count more memory than its block
-- has. After any number of rounds, whatever is executed and whatever the operating system answers, a
-- machine that has not reached undefined behaviour has the code of the start, and has a block for the
-- memory that it counts if it had one at the start. A system call or a handler of a file that is not
-- modelled has any `Effect` here: it may store bytes in the memory and change the tables, and does
-- nothing else.
pub execute_vm-RunKeeps :
    (fuel k : ℕ) (hosts : ℕ → Host) (defs : List InstnDef) (instn : Instn) (vm : Vm)
    → RunKeeps vm (execute_vm fuel k hosts defs instn vm)
unfolding execute_vm
execute_vm-RunKeeps zero k hosts defs instn vm = Keep-refl vm
execute_vm-RunKeeps (suc fuel) k hosts defs instn vm =
    after_round fuel k hosts defs vm
      (λ instn' vm'. execute_vm-RunKeeps fuel (k + 1) hosts defs instn' vm')
      (vm_round (hosts k) defs instn vm) ((vm_round-Keeps (hosts k) defs instn).run vm)
