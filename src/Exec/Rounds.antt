-- ===== src/Exec/Rounds.antt =====
-- The rounds of `execute_vm` of src/vm_exec.c: when the machine stops, when a procedure ends, and what
-- a round does with an instruction.
use bvgz_vm.Common.{
  ℕ, zero, suc, ◌+◌, ◌/◌, ◌%◌, ◌^◌, ◌≤◌, ◌<◌, ◌≡◌, refl, ◌∙◌, none, some, List, [], ◌∷◌, arith,
  length, if◌then◌else◌, get_elem?, length-append, ◌++◌,
}
use bvgz_vm.Vm.{Vm, Proc, proceed, halt}
use bvgz_vm.Vm.Procedures.{this_proc, set_this_proc}
use bvgz_vm.Instn.{Instn, Arg}
use bvgz_vm.Instn.Table.{InstnDef}
use bvgz_vm.Decode.{set_arg}
use bvgz_vm.Format.{
  Operand, encode, decoded, op_word, OperandsFit, set_args, arg_of, le_bytes, size_flags, has_imm,
  operands_bytes,
}
use bvgz_vm.Format.Decoding.{Holds, length-le_bytes}
use bvgz_vm.Format.Instruction.{decode_instn-encode, imm_flags-lt}
use bvgz_vm.Syscall.{Host}
use bvgz_vm.Exec.{
  next, stop, run_op, vm_exec_instn, vm_current_procedure, vm_decode_instn, count_instn,
  run_current, vm_round,
}

-- The state in which the handler of an instruction of `n` bytes runs.
abbrev pub fetched : ℕ → Proc → List Proc → Vm → Vm
fetched n proc rest vm = record vm {
  iptr = proc.iptr;
  procedures = record proc { iptr = (proc.iptr + n) % 2 ^ 32 } ∷ rest;
}

length-encode : (opcode : ℕ) (os : List Operand) → 2 ≤ length (encode opcode os)
length-encode opcode os = omega (
  arith,
  length-le_bytes 2 (op_word opcode os),
  length-append (le_bytes 2 (op_word opcode os))
      ((if has_imm os then size_flags os ∷ [] else []) ++ operands_bytes os),
)

set_arg-code : (i : ℕ) (a : Arg) (instn : Instn) → (set_arg instn i a).code ≡ instn.code
set_arg-code zero a instn = refl
set_arg-code (suc zero) a instn = refl
set_arg-code (suc (suc i)) a instn = refl

set_args-code :
    (os : List Operand) (i : ℕ) (instn : Instn) → (set_args instn i os).code ≡ instn.code
set_args-code [] i instn = refl
set_args-code (o ∷ os) i instn =
    set_args-code os (i + 1) (set_arg instn i (arg_of o)) ∙ set_arg-code i (arg_of o) instn

module _ (host : Host) (defs : List InstnDef) (def : InstnDef) (instn : Instn) (vm : Vm)
    (proc : Proc) (rest : List Proc) (opcode : ℕ) (os : List Operand)
    (current : vm.procedures ≡ proc ∷ rest) (found : get_elem? defs opcode ≡ some def)
    (count : def.arg_count ≡ length os) (small : opcode < 256) (few : length os ≤ 3)
    (fits : OperandsFit vm.memsz os) (holds : Holds vm proc.iptr (encode opcode os)) where
  -- A round whose procedure stands at the bytes of an instruction, with an opcode below 256 of
  -- the table and with operands that fit, runs the handler of its opcode on its operands, in the
  -- state whose `iptr` is its address and whose procedure is behind it. The machine then stops,
  -- or counts the instruction and goes on, as the handler says.
  pub vm_round-encode :
      vm_round host defs instn vm
      ≡ elim (run_op host def.handler
          (decoded opcode os instn)
          (fetched (length (encode opcode os)) proc rest vm)) [
            | none ↦ none
            | some (halt, after) ↦ some (stop, after)
            | some (proceed, after) ↦ elim (count_instn host after) [
              | none ↦ none
              | some (_, counted) ↦ some (next (decoded opcode os instn), counted)
            ]
          ]
  unfolding vm_round run_current vm_current_procedure this_proc vm_decode_instn set_this_proc
      vm_exec_instn
  vm_round-encode =
      let flags = imm_flags-lt os few in
      let code = set_args-code os 0 (record instn {
        code = op_word opcode os;
        arg_sizes = if has_imm os then size_flags os else instn.arg_sizes;
      }) in
      let index : (decoded opcode os instn).code / 2 ^ 3 ≡ opcode = omega (arith, code) in
      let total : 2 ≤ length (encode opcode os) = omega (arith, length-encode opcode os) in
      let step =
        decode_instn-encode defs def (record vm { iptr = proc.iptr }) proc.iptr opcode os instn
          found count small few fits holds in
      ground (arith, current, step, index, found, total, holds.1)
