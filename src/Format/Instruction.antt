-- ===== src/Format/Instruction.antt =====
-- The whole of `decode_instn` on the bytes of an instruction.
use bvgz_vm.Common.{
  ℕ, zero, suc, ◌+◌, ◌/◌, ◌%◌, ◌^◌, ◌≤◌, ◌<◌, ◌≡◌, refl, true, inl, inr, some, List, [], ◌∷◌, ◌++◌,
  length, length-append, if◌then◌else◌, arith, ◌==◌, get_elem?, Bool-cases, not,
}
use bvgz_vm.Memory.{load, read_le}
use bvgz_vm.Vm.{Vm}
use bvgz_vm.Instn.{Instn}
use bvgz_vm.Instn.Table.{InstnDef}
use bvgz_vm.Decode.{fetch, decode_sizes, decode_instn}
use bvgz_vm.Format.{
  Operand, immediate, reference, le_bytes, imm_flags, size_flags, op_word, has_imm, operands_bytes,
  encode, OperandFits, OperandsFit, imm_bit, size_bits, decoded,
}
use bvgz_vm.Format.Decoding.{
  length-le_bytes, BytesAt-append, Holds, fetch-le_bytes, AllAgree, agree1, agree2, agree3, Sized,
  decode_args-operands,
}

sized : (memsz : ℕ) (o : Operand) → OperandsFit memsz (o ∷ []) → Sized o
sized memsz (immediate s v) h = h.0.0
sized memsz (reference a) h = tt

-- The flags and sizes of the operands that an instruction can have.
agree :
    (memsz opcode sizes : ℕ) (os : List Operand)
    → length os ≤ 3
    → OperandsFit memsz os
    → (has_imm os ≡ true → sizes ≡ size_flags os)
    → AllAgree (op_word opcode os) sizes 0 os
agree memsz opcode sizes [] len h e = tt
agree memsz opcode sizes (o ∷ []) len h e = agree1 opcode sizes o (sized memsz o (h.0, tt)) e
agree memsz opcode sizes (o ∷ p ∷ []) len h e =
    agree2 opcode sizes o p (sized memsz o (h.0, tt)) (sized memsz p (h.1.0, tt)) e
agree memsz opcode sizes (o ∷ p ∷ q ∷ []) len h e =
    agree3 opcode sizes o p q (sized memsz o (h.0, tt)) (sized memsz p (h.1.0, tt))
      (sized memsz q (h.1.1.0, tt)) e
agree memsz opcode sizes (o ∷ p ∷ q ∷ r ∷ os) len h e = absurd (omega arith)

pub imm_flags_zero : (os : List Operand) → (imm_flags os == 0) ≡ not (has_imm os)
imm_flags_zero [] = refl
imm_flags_zero (immediate s v ∷ os) = ground arith
imm_flags_zero (reference a ∷ os) = ground (arith, imm_flags_zero os)

pub imm_bit-le : (o : Operand) → imm_bit o ≤ 1
imm_bit-le (immediate s v) = omega arith
imm_bit-le (reference a) = omega arith

size_bits-lt : (memsz : ℕ) (o : Operand) → OperandFits memsz o → size_bits o < 4
size_bits-lt memsz (immediate s v) h = h.0
size_bits-lt memsz (reference a) h = omega arith

pub imm_flags-lt : (os : List Operand) → length os ≤ 3 → imm_flags os < 8
imm_flags-lt [] len = omega arith
imm_flags-lt (o ∷ []) len = omega (arith, imm_bit-le o)
imm_flags-lt (o ∷ p ∷ []) len = omega (arith, imm_bit-le o, imm_bit-le p)
imm_flags-lt (o ∷ p ∷ q ∷ []) len = omega (arith, imm_bit-le o, imm_bit-le p, imm_bit-le q)
imm_flags-lt (o ∷ p ∷ q ∷ r ∷ os) len = absurd (omega arith)

-- Three operands have three flags and six bits of sizes.
flags_fit :
    (memsz : ℕ) (os : List Operand)
    → length os ≤ 3
    → OperandsFit memsz os
    → (imm_flags os < 8) × (size_flags os < 256)
flags_fit memsz [] len h = omega arith
flags_fit memsz (o ∷ []) len h = omega (arith, imm_bit-le o, size_bits-lt memsz o h.0)
flags_fit memsz (o ∷ p ∷ []) len h =
    omega (arith, imm_bit-le o, size_bits-lt memsz o h.0, imm_bit-le p, size_bits-lt memsz p h.1.0)
flags_fit memsz (o ∷ p ∷ q ∷ []) len h = omega (
  arith,
  imm_bit-le o,
  size_bits-lt memsz o h.0,
  imm_bit-le p,
  size_bits-lt memsz p h.1.0,
  imm_bit-le q,
  size_bits-lt memsz q h.1.1.0,
)
flags_fit memsz (o ∷ p ∷ q ∷ r ∷ os) len h = absurd (omega arith)

get_elem?-lt {ℓ} :
    {A : Type ℓ} (xs : List A) (i : ℕ) (a : A) → get_elem? xs i ≡ some a → i < length xs
get_elem?-lt [] i a h = cc
get_elem?-lt (x ∷ xs) zero a h = omega arith
get_elem?-lt (x ∷ xs) (suc i) a h = omega (arith, get_elem?-lt xs i a h)

fetch_byte : (vm : Vm) (b at : ℕ) → b < 256 → Holds vm at (b ∷ []) → fetch 1 at vm ≡ some (b, vm)
unfolding fetch load read_le
fetch_byte vm b at h holds = ground (arith, holds.0.0)

module _ (vm : Vm) (pc opcode : ℕ) (os : List Operand) (instn : Instn) (len : length os ≤ 3)
    (fits : OperandsFit vm.memsz os) (small : opcode < 256) where
  -- The size byte is read where an operand is immediate.
  decode_sizes-encode :
      Holds vm (pc + 2) ((if has_imm os then size_flags os ∷ [] else []) ++ operands_bytes os)
      → decode_sizes pc 2 (record instn { code = op_word opcode os }) vm
        ≡ some (
          some (
            2 + length (if has_imm os then size_flags os ∷ [] else []),
            record instn {
              code = op_word opcode os;
              arg_sizes = if has_imm os then size_flags os else instn.arg_sizes;
            },
          ),
          vm,
        )
  unfolding decode_sizes
  decode_sizes-encode holds = elim (Bool-cases (has_imm os)) [
    | inl e ↦
        let held : Holds vm (pc + 2) (size_flags os ∷ operands_bytes os) = rw e at holds in
        let flags = flags_fit vm.memsz os len fits in
        let byte = fetch_byte vm (size_flags os) (pc + 2) flags.1 ((held.0.0, tt), omega arith) in
        ground (arith, e, byte, imm_flags_zero os, flags.0, held.1)
    | inr e ↦
        let flags = flags_fit vm.memsz os len fits in ground (arith, e, imm_flags_zero os, flags.0)
  ]

-- Decoding the bytes of an instruction whose opcode is below 256 and stands in the table with as
-- many arguments as there are operands, at most three, which fit their sizes or the memory,
-- yields the instruction and its length, at any address of the code at which the bytes stand, and
-- leaves the machine as it is.
pub decode_instn-encode :
    (defs : List InstnDef) (def : InstnDef) (vm : Vm) (pc opcode : ℕ) (os : List Operand)
    (instn : Instn)
    → get_elem? defs opcode ≡ some def
    → def.arg_count ≡ length os
    → opcode < 256
    → length os ≤ 3
    → OperandsFit vm.memsz os
    → Holds vm pc (encode opcode os)
    → decode_instn defs pc instn vm
      ≡ some (some (length (encode opcode os), decoded opcode os instn), vm)
unfolding decode_instn
decode_instn-encode defs def vm pc opcode os instn found count small len fits holds =
    let sizes : List ℕ = if has_imm os then size_flags os ∷ [] else [] in
    let word = le_bytes 2 (op_word opcode os) in
    let total = length-append word (sizes ++ operands_bytes os) in
    let total' = length-append sizes (operands_bytes os) in
    let two = length-le_bytes 2 (op_word opcode os) in
    let flags = flags_fit vm.memsz os len fits in
    let (front, back) =
      BytesAt-append vm.code.cell pc (pc + 2) word (sizes ++ operands_bytes os) (omega arith)
        holds.0 in
    let ops =
      BytesAt-append vm.code.cell (pc + 2) (pc + 2 + length sizes) sizes (operands_bytes os) refl
        back in
    let fetched = fetch-le_bytes vm 2 (op_word opcode os) pc (front, omega arith) in
    let sized = decode_sizes-encode vm pc opcode os instn len fits small (back, omega arith) in
    let args =
      decode_args-operands vm os 0 pc (2 + length sizes) (pc + 2 + length sizes)
        (record instn {
          code = op_word opcode os;
          arg_sizes = if has_imm os then size_flags os else instn.arg_sizes;
        })
        (op_word opcode os) (if has_imm os then size_flags os else instn.arg_sizes) refl refl
        (omega arith)
        (agree vm.memsz opcode (if has_imm os then size_flags os else instn.arg_sizes) os len fits
          (λ e. rw e refl))
        fits (ops.1, omega arith) in
    let index : opcode < length defs = get_elem?-lt defs opcode def found in
    let value : op_word opcode os % 256 ^ 2 ≡ op_word opcode os = omega arith in
    let idx : op_word opcode os / 2 ^ 3 % 2 ^ 8 ≡ opcode = omega arith in
    let fetched' = rw value at fetched in
    ground (arith, fetched', idx, sized, args, found, count, index, total, total', two)
