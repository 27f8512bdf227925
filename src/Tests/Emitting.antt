-- ===== src/Tests/Emitting.antt =====
-- The instruction `add [0] [8] 5` through the code generator, the decoder and a round of the machine.
use bvgz_vm.Common.{ℕ, ◌≡◌, refl, false, some, none, List, [], ◌∷◌, arith, length, inl}
use bvgz_vm.Memory.{store, write_le}
use bvgz_vm.Vm.{Vm, proceed, halt}
use bvgz_vm.Instn.Table.{InstnDef, op_nop_0, op_add_3, op_jmp_1}
use bvgz_vm.Decode.{decode_instn}
use bvgz_vm.Format.{Operand, immediate, reference, le_bytes, encode, decoded, OperandsFit}
use bvgz_vm.Format.Decoding.{Holds}
use bvgz_vm.Format.Instruction.{decode_instn-encode}
use bvgz_vm.Codegen.{
  PrsArg, PrsInstn, Labels, Gen, arg_imm, arg_ref_num, arg_imm_lbl, gen_start, emit_instn,
  compute_layout, layout_args, nlog2, grow_blocks, ensure_buffer, write_head, write_args,
  write_typed, write_num_ref_arg, write_imm_arg, fix_skipped,
}
use bvgz_vm.Memory.{Block}
use bvgz_vm.Format.{BytesAt}
use bvgz_vm.Codegen.{parse_to_bytecode}
use bvgz_vm.Codegen.Program.{Program, program_bytes, parse_to_bytecode-program_bytes}
use bvgz_vm.Codegen.Roundtrip.{
  IsWellSized, IsReady, placed, Appended, emit_instn-encode, decode_instn-emit_instn,
}
use bvgz_vm.Exec.{next, stop, vm_round, run_op, count_instn}
use bvgz_vm.Exec.{execute_vm}
use bvgz_vm.Exec.Keeps.Runs.{RunKeeps, execute_vm-RunKeeps}
use bvgz_vm.Exec.Rounds.{fetched, vm_round-encode}
use bvgz_vm.Tests.{host, machine, main, add_instn}

abbrev nop_def : InstnDef
nop_def = record { name = []; opcode = 0; arg_count = 0; flags = 0; handler = op_nop_0 }

abbrev add_def : InstnDef
add_def = record { name = []; opcode = 1; arg_count = 3; flags = 0; handler = op_add_3 }

abbrev defs : List InstnDef
defs = nop_def ∷ add_def ∷ []

abbrev operands : List Operand
operands = reference 0 ∷ reference 8 ∷ immediate 0 5 ∷ []

operands_fit : OperandsFit 64 operands
operands_fit =
    ((omega arith, omega arith), ((omega arith, omega arith), ((omega arith, omega arith), tt)))

abbrev ref_to : ℕ → PrsArg
ref_to a = record { type = arg_ref_num; n_bytes = 4; value = a; label = [] }

abbrev parsed : PrsInstn
parsed = record {
  instn = add_def;
  args = ref_to 0 ∷ ref_to 8 ∷ record { type = arg_imm; n_bytes = 1; value = 5; label = [] } ∷ [];
  mem_offset = 0xffff_ffff;
}

abbrev no_labels : Labels
no_labels name = none

abbrev start : Gen
start = gen_start (λ q. 170) (parsed ∷ [])

start-IsWellSized : IsWellSized start
start-IsWellSized = record { blocks = refl; used = omega arith; small = omega arith }

start-IsReady : IsReady no_labels false start 0 parsed operands
unfolding fix_skipped nlog2
start-IsReady = record {
  listed = refl;
  kept = refl;
  count = refl;
  few = omega arith;
  opcode = omega arith;
  known = refl;
  sized = (refl, (refl, ((inl refl, omega arith), tt)));
}

emit_instn-encode_example :
    (g' : Gen) × (emit_instn no_labels false 0 start ≡ some g')
    × Appended (encode 1 operands) start g'
    × (g'.instns ≡ placed start 0 parsed)
emit_instn-encode_example =
    emit_instn-encode no_labels false start 0 parsed operands start-IsReady start-IsWellSized
      (omega arith)

abbrev emitted : Gen
unfolding emit_instn compute_layout layout_args nlog2 grow_blocks ensure_buffer write_head
    write_args write_typed write_num_ref_arg write_imm_arg fix_skipped store write_le
emitted = elim (emit_instn no_labels false 0 start) [ none ↦ start | some g' ↦ g' ]

abbrev loaded : Vm
loaded = record machine { code = emitted.buffer }

decode_instn-emit_instn_example :
    decode_instn defs 0 add_instn loaded
    ≡ some (some (length (encode 1 operands), decoded 1 operands add_instn), loaded)
unfolding emit_instn compute_layout layout_args nlog2 grow_blocks ensure_buffer write_head
    write_args write_typed write_num_ref_arg write_imm_arg fix_skipped store write_le
decode_instn-emit_instn_example =
    decode_instn-emit_instn no_labels false start emitted 0 parsed operands defs loaded add_instn
      start-IsReady start-IsWellSized (omega arith) refl operands_fit refl (λ q h. refl)
      (omega arith)

loaded-Holds : Holds loaded 0 (encode 1 operands)
unfolding emit_instn compute_layout layout_args nlog2 grow_blocks ensure_buffer write_head
    write_args write_typed write_num_ref_arg write_imm_arg fix_skipped store write_le le_bytes
loaded-Holds = (
  (
    refl,
    (refl, (refl, (refl, (refl, (refl, (refl, (refl, (refl, (refl, (refl, (refl, tt))))))))))),
  ),
  omega arith,
)

decode_instn-encode_example :
    decode_instn defs 0 add_instn loaded
    ≡ some (some (length (encode 1 operands), decoded 1 operands add_instn), loaded)
decode_instn-encode_example =
    decode_instn-encode defs add_def loaded 0 1 operands add_instn refl refl (omega arith)
      (omega arith) operands_fit loaded-Holds

vm_round-encode_example :
    vm_round host defs add_instn loaded
    ≡ elim (run_op host op_add_3
        (decoded 1 operands add_instn)
        (fetched (length (encode 1 operands)) main [] loaded)) [
          | none ↦ none
          | some (halt, after) ↦ some (stop, after)
          | some (proceed, after) ↦ elim (count_instn host after) [
            | none ↦ none
            | some (_, counted) ↦ some (next (decoded 1 operands add_instn), counted)
          ]
        ]
vm_round-encode_example =
    vm_round-encode host defs add_def add_instn loaded main [] 1 operands refl refl refl
      (omega arith) (omega arith) operands_fit loaded-Holds

execute_vm-RunKeeps_example : RunKeeps loaded (execute_vm 3 0 (λ k. host) defs add_instn loaded)
execute_vm-RunKeeps_example = execute_vm-RunKeeps 3 0 (λ k. host) defs add_instn loaded

-- `add [0] [8] 5` and a jump to a label that stands before the jump, behind the 12 bytes of the first
abbrev jump : PrsInstn
jump = record {
  instn = record { name = []; opcode = 2; arg_count = 1; flags = 0; handler = op_jmp_1 };
  args = record { type = arg_imm_lbl; n_bytes = 4; value = 0; label = [] } ∷ [];
  mem_offset = 0xffff_ffff;
}

abbrev one_label : Labels
one_label name = some (record { offset = 1; is_mem_ref = false })

abbrev looping : List (ℕ × List Operand)
looping = (1, operands) ∷ (2, immediate 2 12 ∷ []) ∷ []

looping-Program : Program one_label false 2 0 0 (parsed ∷ jump ∷ []) looping
unfolding fix_skipped nlog2 le_bytes
looping-Program =
    Program.emit parsed operands refl
      (record {
        kept = refl;
        count = refl;
        few = omega arith;
        opcode = omega arith;
        known = refl;
        sized = (refl, (refl, ((inl refl, omega arith), tt)));
      })
      (Program.emit jump (immediate 2 12 ∷ []) refl
        (record {
          kept = refl;
          count = refl;
          few = omega arith;
          opcode = omega arith;
          known = refl;
          sized = (refl, tt);
        })
        Program.end)

parse_to_bytecode-program_bytes_example :
    (code : Block) × (instns : List PrsInstn) × (parse_to_bytecode
        (λ q. 170)
        one_label
        false
        0
        (parsed ∷ jump ∷ [])
      ≡ some (code, length (program_bytes looping), instns))
    × BytesAt code.cell 0 (program_bytes looping)
unfolding le_bytes
parse_to_bytecode-program_bytes_example =
    parse_to_bytecode-program_bytes (λ q. 170) one_label false (parsed ∷ jump ∷ []) looping
      looping-Program (omega arith)
