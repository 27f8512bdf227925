-- ===== src/Tests/Instructions.antt =====
-- Instructions on the small machine.
use bvgz_vm.Common.{ℕ, ◌≡◌, refl, some, [], ◌∷◌, arith}
use bvgz_vm.Memory.{load, read_le}
use bvgz_vm.Vm.{Vm, Proc, proceed, lref, ◌>>=◌}
use bvgz_vm.Vm.Access.{Assigned, written}
use bvgz_vm.Vm.CallStack.{fresh_proc-IsSound}
use bvgz_vm.Instn.{Instn, imm, ref, arg_value, read_arg}
use bvgz_vm.Instn.Table
use bvgz_vm.Instn.Alu
use bvgz_vm.Instn.Alu.{three, two, three-Assigned, two-three}
use bvgz_vm.Instn.Control.{op_jmp_1, op_call_3, op_ret_0}
use bvgz_vm.Instn.Control.{op_argv_1, op_retv_1}
use bvgz_vm.Instn.Pointers.{called, call_passes_pointers}
use bvgz_vm.Instn.Calls.{at_iptr, jmp_bounds, Returned, ret-call}
use bvgz_vm.Instn.Words.{w16, w32, op_read, op_write, read_bounds, write_bounds}
use bvgz_vm.Exec.{run_op}
use bvgz_vm.Tests.{host, machine, main, add_instn}

three-Assigned_example :
    (vm' : Vm) × (run_op host Table.op_add_3 add_instn machine ≡ some (proceed, vm'))
    × Assigned 0 12 machine vm'
unfolding arg_value read_arg lref load read_le
three-Assigned_example =
    three-Assigned host add_instn machine 0 7 5 Alu.add 12 refl refl (omega arith) (omega arith)
      refl refl (omega arith)

-- `sub [8] 2` and `sub [8] [8] 2`
abbrev sub_two : Instn
sub_two = record { code = 34; arg_sizes = 0; arg0 = ref 8; arg1 = imm 2; arg2 = imm 0 }

abbrev sub_three : Instn
sub_three = record { code = 28; arg_sizes = 0; arg0 = ref 8; arg1 = ref 8; arg2 = imm 2 }

two-three_example :
    run_op host Table.op_sub_2 sub_two machine ≡ run_op host Table.op_sub_3 sub_three machine
unfolding arg_value read_arg lref load read_le
two-three_example =
    two-three host sub_two sub_three machine 7 2 Alu.sub Table.op_sub_2 refl refl refl refl refl
      refl

-- `jmp 12` and `jmp 99`
abbrev jump_to : ℕ → Instn
jump_to t = record { code = 1; arg_sizes = 0; arg0 = imm t; arg1 = imm 0; arg2 = imm 0 }

jmp_bounds_example : op_jmp_1 (jump_to 12) machine ≡ some (proceed, at_iptr 12 main [] machine)
unfolding arg_value
jmp_bounds_example = jmp_bounds (jump_to 12) machine main [] refl 12 refl

-- `call 8 16 24`, with immediate operands
abbrev call_8 : Instn
call_8 = record { code = 7; arg_sizes = 0; arg0 = imm 8; arg1 = imm 16; arg2 = imm 24 }

abbrev caller : Proc
caller = record main { iptr = 6 }

abbrev calling : Vm
calling = record machine { procedures = caller ∷ [] }

ret-call_example :
    (proc' : Proc) × ((op_call_3 call_8 >>= λ _. op_ret_0 add_instn) calling
      ≡ some (proceed, record calling { procedures = proc' ∷ [] }))
    × Returned caller 6 proc'
unfolding arg_value
ret-call_example =
    ret-call call_8 add_instn calling caller [] 8 16 24 refl (fresh_proc-IsSound 6)
      (λ e. absurd (omega arith)) refl refl refl

-- `write32 10 20 258`
abbrev write_instn : Instn
write_instn = record { code = 7; arg_sizes = 16; arg0 = imm 10; arg1 = imm 20; arg2 = imm 258 }

write_bounds_example : op_write w32 write_instn machine ≡ some (proceed, written 4 30 258 machine)
unfolding arg_value
write_bounds_example =
    write_bounds machine refl write_instn 10 20 258 refl refl refl w32 (omega arith)

-- `read16 [0] [16] 5`: the pointer at address 16 is 3.
abbrev read_instn : Instn
read_instn = record { code = 4; arg_sizes = 0; arg0 = ref 0; arg1 = ref 16; arg2 = imm 5 }

read_bounds_example : op_read w16 read_instn machine ≡ some (proceed, written 2 0 7 machine)
unfolding arg_value read_arg lref load read_le
read_bounds_example =
    read_bounds machine refl read_instn 3 5 0 refl refl refl w16 (omega arith) (omega arith)

-- `argv [0]` or `retv [0]`, in the function
abbrev pointer_instn : Instn
pointer_instn = record { code = 0; arg_sizes = 0; arg0 = ref 0; arg1 = imm 0; arg2 = imm 0 }

call_passes_pointers_example :
    ((op_call_3 call_8 >>= λ _. op_argv_1 pointer_instn) calling
      ≡ some (proceed, written 4 0 16 (called calling caller [] 8 16 24)))
    × ((op_call_3 call_8 >>= λ _. op_retv_1 pointer_instn) calling
        ≡ some (proceed, written 8 24 0 (called calling caller [] 8 16 24)))
unfolding arg_value read_arg lref load read_le
call_passes_pointers_example =
    call_passes_pointers call_8 pointer_instn calling caller [] 8 16 24 refl (fresh_proc-IsSound 6)
      refl refl refl 0 0 refl (omega arith) refl (omega arith) refl (omega arith)
