-- ===== src/Tests/Machine.antt =====
-- Rounds of the small machine.
use bvgz_vm.Common.{◌≡◌, refl, some, none, List, [], ◌∷◌, arith}
use bvgz_vm.Vm.{Vm, Proc, Fcall, Timer}
use bvgz_vm.Vm.Procedures.{pop_call_stack}
use bvgz_vm.Vm.CallStack.{IsSound, pop_twice_faults}
use bvgz_vm.Format.{le_bytes}
use bvgz_vm.Exec.{vm_round}
use bvgz_vm.Exec.Faults.{sentinel_crashes, end_timer_crashes}
use bvgz_vm.Tests.{host, machine, main, add_instn}

abbrev finished : Vm
finished = record machine { procedures = [] }

sentinel_crashes_example : vm_round host [] add_instn machine ≡ none
unfolding le_bytes
sentinel_crashes_example =
    sentinel_crashes host [] add_instn machine main [] refl (omega arith)
      ((refl, (refl, tt)), omega arith)

abbrev end_timer : Timer
end_timer = record { tv_sec = 3; tv_nsec = 0; iptr = 16 }

end_timer_crashes_example :
    vm_round host [] add_instn (record finished { timers = end_timer ∷ [] }) ≡ none
end_timer_crashes_example =
    end_timer_crashes host [] add_instn (record finished { timers = end_timer ∷ [] }) end_timer 5 0
      refl refl refl refl refl refl refl

abbrev entry : Fcall
entry = record { retval = 0; args = 0; ret_address = 4 }

-- Twelve calls, in a block that has grown to 128 entries; the next pop gives the half of it back.
abbrev deep : List Fcall
deep =
    entry ∷ entry ∷ entry ∷ entry ∷ entry ∷ entry ∷ entry ∷ entry ∷ entry ∷ entry ∷ entry ∷ entry
    ∷ []

abbrev deep_proc : Proc
deep_proc = record { iptr = 4; cstack = deep; cstack_alloc = 128; cstack_bytes = 1536 }

deep_proc-IsSound : IsSound deep_proc
deep_proc-IsSound = record { block = refl; live = omega arith; room = omega arith }

pop_twice_faults_example :
    (q : Proc) × (pop_call_stack deep_proc ≡ some (4, q)) × (pop_call_stack q ≡ none)
pop_twice_faults_example =
    pop_twice_faults deep_proc entry entry
      (entry ∷ entry ∷ entry ∷ entry ∷ entry ∷ entry ∷ entry ∷ entry ∷ entry ∷ entry ∷ [])
      deep_proc-IsSound refl (omega arith) (omega arith)
