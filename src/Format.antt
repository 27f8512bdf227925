-- ===== src/Format.antt =====
-- The instruction format of doc/vm.md, as a description that is independent of the code: the opcode
-- word with the bits that mark immediate operands, the byte with their sizes, and the operands.
pub mod Decoding
pub mod Instruction
use bvgz_vm.Common.{
  ℕ, zero, suc, ◌+◌, ◌*◌, ◌/◌, ◌%◌, ◌^◌, ◌≤◌, ◌<◌, ◌≡◌, Bool, true, false, ◌||◌, List, [], ◌∷◌,
  ◌++◌, length, if◌then◌else◌,
}
use bvgz_vm.Instn.{Instn, Arg}
use bvgz_vm.Decode.{set_arg}

-- An immediate operand has the value `v` in `2 ^ log2_size` bytes; a reference is an address.
pub data Operand : Type 0 where
  immediate : (log2_size v : ℕ) → Operand
  reference : ℕ → Operand

-- The `n` lowest bytes of a number, least significant first.
unfoldable pub le_bytes : ℕ → ℕ → List ℕ
le_bytes zero v = []
le_bytes (suc n) v = v % 256 ∷ le_bytes n (v / 256)

abbrev pub imm_bit : Operand → ℕ
imm_bit (immediate s v) = 1
imm_bit (reference a) = 0

abbrev pub size_bits : Operand → ℕ
size_bits (immediate s v) = s
size_bits (reference a) = 0

-- The flags, and the sizes, of the operands in order; the first operand has the lowest bits.
abbrev pub imm_flags : List Operand → ℕ
imm_flags [] = 0
imm_flags (o ∷ os) = imm_bit o + 2 * imm_flags os

abbrev pub size_flags : List Operand → ℕ
size_flags [] = 0
size_flags (o ∷ os) = size_bits o + 4 * size_flags os

abbrev pub op_word : ℕ → List Operand → ℕ
op_word opcode os = opcode * 8 + imm_flags os

abbrev pub has_imm : List Operand → Bool
has_imm [] = false
has_imm (immediate s v ∷ os) = true
has_imm (reference a ∷ os) = has_imm os

abbrev pub operand_bytes : Operand → List ℕ
operand_bytes (immediate s v) = le_bytes (2 ^ s) v
operand_bytes (reference a) = le_bytes 4 a

abbrev pub operands_bytes : List Operand → List ℕ
operands_bytes [] = []
operands_bytes (o ∷ os) = operand_bytes o ++ operands_bytes os

-- `{OpI/R}` `{ISz}`? `{IArg|RArg}`*
abbrev pub encode : ℕ → List Operand → List ℕ
encode opcode os =
    le_bytes 2 (op_word opcode os)
    ++ ((if has_imm os then size_flags os ∷ [] else []) ++ operands_bytes os)

-- The bytes stand in memory from the address on.
abbrev pub BytesAt : (ℕ → ℕ) → ℕ → List ℕ → Type 0
BytesAt c at [] = Unit
BytesAt c at (b ∷ bs) = (c at ≡ b) × BytesAt c (at + 1) bs

-- Operands that the format can hold, and that `decode_instn` accepts for `memsz` bytes of memory.
abbrev pub OperandFits : ℕ → Operand → Type 0
OperandFits memsz (immediate s v) = (s < 4) × (v < 256 ^ 2 ^ s)
OperandFits memsz (reference a) = (a + 4 ≤ memsz) × (memsz < 2 ^ 32)

abbrev pub OperandsFit : ℕ → List Operand → Type 0
OperandsFit memsz [] = Unit
OperandsFit memsz (o ∷ os) = OperandFits memsz o × OperandsFit memsz os

abbrev pub arg_of : Operand → Arg
arg_of (immediate s v) = Arg.imm v
arg_of (reference a) = Arg.ref a

-- The operands in the union members from index `i` on.
abbrev pub set_args : Instn → ℕ → List Operand → Instn
set_args instn i [] = instn
set_args instn i (o ∷ os) = set_args (set_arg instn i (arg_of o)) (i + 1) os

-- The decoded instruction; without an immediate operand the size byte keeps its value.
abbrev pub decoded : ℕ → List Operand → Instn → Instn
decoded opcode os instn =
    set_args
      (record instn {
        code = op_word opcode os;
        arg_sizes = if has_imm os then size_flags os else instn.arg_sizes;
      })
      0 os
