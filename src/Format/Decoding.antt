-- ===== src/Format/Decoding.antt =====
-- `decode_instn` of src/bytecode.c reads the format: from the bytes of an instruction it yields the
-- instruction.

use native.Mathlib.Nat.{mod-eq_of_lt}
use bvgz_vm.Common.{
  ℕ, zero, suc, ◌+◌, ◌/◌, ◌%◌, ◌^◌, ◌≤◌, ◌<◌, ◌≡◌, refl, ◌∙◌, true, false, some, List, [], ◌∷◌,
  ◌++◌, length, length-append, arith, ap,
}
use bvgz_vm.Memory.{load, read_le}
use bvgz_vm.Memory.Access.{mod_suc}
use bvgz_vm.Vm.{Vm}
use bvgz_vm.Instn.{Instn, Arg, is_imm, imm_size}
use bvgz_vm.Instn.Access.{deref_mem_ptr}
use bvgz_vm.Decode.{fetch, decode_arg, decode_args, set_arg}
use bvgz_vm.Format.{
  Operand, immediate, reference, le_bytes, size_flags, op_word, has_imm, operand_bytes,
  operands_bytes, BytesAt, OperandFits, OperandsFit, arg_of, set_args,
}

pub length-le_bytes : (n v : ℕ) → length (le_bytes n v) ≡ n
unfolding le_bytes
length-le_bytes zero v = refl
length-le_bytes (suc n) v = ap suc (length-le_bytes n (v / 256))

pub BytesAt-append :
    (c : ℕ → ℕ) (at end : ℕ) (xs ys : List ℕ)
    → at + length xs ≡ end
    → BytesAt c at (xs ++ ys)
    → BytesAt c at xs × BytesAt c end ys
BytesAt-append c at end [] ys e h = let e' : end ≡ at = omega arith in (tt, rw e' h)
BytesAt-append c at end (x ∷ xs) ys e h =
    let (front, back) = BytesAt-append c (at + 1) end xs ys (omega arith) h.1 in
    ((h.0, front), back)

pub read_le-le_bytes :
    (n v : ℕ) (c : ℕ → ℕ) (at : ℕ) → BytesAt c at (le_bytes n v) → read_le n c at ≡ v % 256 ^ n
unfolding le_bytes read_le
read_le-le_bytes zero v c at h = omega arith
read_le-le_bytes (suc n) v c at h =
    omega (arith, h.0, mod_suc n v, read_le-le_bytes n (v / 256) c (at + 1) h.1)

-- The code holds the bytes at an address, within its block.
abbrev pub Holds : Vm → ℕ → List ℕ → Type 0
Holds vm at bs = BytesAt vm.code.cell at bs × (at + length bs ≤ vm.code.size)

pub fetch-le_bytes :
    (vm : Vm) (n v at : ℕ) → Holds vm at (le_bytes n v) → fetch n at vm ≡ some (v % 256 ^ n, vm)
unfolding fetch load
fetch-le_bytes vm n v at h =
    ground (arith, length-le_bytes n v, read_le-le_bytes n v vm.code.cell at h.0)

deref_mem_ptr-fits :
    (vm : Vm) (a : ℕ)
    → a + 4 ≤ vm.memsz
    → vm.memsz < 2 ^ 32
    → deref_mem_ptr a 4 vm ≡ some (some a, vm)
unfolding deref_mem_ptr
deref_mem_ptr-fits vm a h k = ground arith

-- The flag bit and the size bits of argument `i` say what the operand is.
abbrev pub Agrees : (code sizes i : ℕ) → Operand → Type 0
Agrees code sizes i (immediate s v) = (is_imm code i ≡ true) × (sizes / 4 ^ i % 4 ≡ s)
Agrees code sizes i (reference a) = is_imm code i ≡ false

abbrev pub AllAgree : (code sizes i : ℕ) → List Operand → Type 0
AllAgree code sizes i [] = Unit
AllAgree code sizes i (o ∷ os) = Agrees code sizes i o × AllAgree code sizes (i + 1) os

-- One round of the loop reads one operand.
decode_arg-operand :
    (vm : Vm) (o : Operand) (i iptr offset : ℕ) (instn : Instn)
    → Agrees instn.code instn.arg_sizes i o
    → OperandFits vm.memsz o
    → Holds vm (iptr + offset) (operand_bytes o)
    → decode_arg i iptr offset instn vm
      ≡ some (some (offset + length (operand_bytes o), set_arg instn i (arg_of o)), vm)
unfolding decode_arg
decode_arg-operand vm (immediate s v) i iptr offset instn agrees fits holds =
    let value : v % 256 ^ 2 ^ s ≡ v = mod-eq_of_lt fits.1 in
    let size : imm_size instn.arg_sizes i ≡ 2 ^ s = ap (λ k. 2 ^ k) agrees.1 in
    ground (
      arith,
      agrees.0,
      size,
      value,
      length-le_bytes (2 ^ s) v,
      fetch-le_bytes vm (2 ^ s) v (iptr + offset) holds,
    )
decode_arg-operand vm (reference a) i iptr offset instn agrees fits holds = ground (
  arith,
  agrees,
  length-le_bytes 4 a,
  fetch-le_bytes vm 4 a (iptr + offset) holds,
  deref_mem_ptr-fits vm a fits.0 fits.1,
)

set_arg_kept :
    (instn : Instn) (i : ℕ) (a : Arg)
    → ((set_arg instn i a).code ≡ instn.code) × ((set_arg instn i a).arg_sizes ≡ instn.arg_sizes)
set_arg_kept instn zero a = (refl, refl)
set_arg_kept instn (suc zero) a = (refl, refl)
set_arg_kept instn (suc (suc i)) a = (refl, refl)

-- The loop reads all operands.
pub decode_args-operands :
    (vm : Vm) (os : List Operand) (i iptr offset at : ℕ) (instn : Instn) (code sizes : ℕ)
    → instn.code ≡ code
    → instn.arg_sizes ≡ sizes
    → iptr + offset ≡ at
    → AllAgree code sizes i os
    → OperandsFit vm.memsz os
    → Holds vm at (operands_bytes os)
    → decode_args (length os) i iptr offset instn vm
      ≡ some (some (offset + length (operands_bytes os), set_args instn i os), vm)
unfolding decode_args
decode_args-operands vm [] i iptr offset at instn code sizes ec es ea agree fits holds =
    let e : offset ≡ offset + 0 = omega arith in ap (λ n. some (some (n, instn), vm)) e
decode_args-operands vm (o ∷ os) i iptr offset at instn code sizes ec es ea agree fits holds =
    let split = length-append (operand_bytes o) (operands_bytes os) in
    let parts =
      BytesAt-append vm.code.cell at (at + length (operand_bytes o)) (operand_bytes o)
        (operands_bytes os) refl holds.0 in
    let kept = set_arg_kept instn i (arg_of o) in
    let one =
      decode_arg-operand vm o i iptr offset instn (rw (ec, es) agree.0) fits.0
        (rw ea (parts.0, omega arith)) in
    let others =
      decode_args-operands vm os (i + 1) iptr (offset + length (operand_bytes o))
        (at + length (operand_bytes o)) (set_arg instn i (arg_of o)) code sizes (kept.0 ∙ ec)
        (kept.1 ∙ es) (omega arith) agree.1 fits.1 (parts.1, omega arith) in
    ground (arith, one, others, split)

abbrev pub Sized : Operand → Type 0
Sized (immediate s v) = s < 4
Sized (reference a) = Unit

-- The flags and the sizes of up to three operands are those of the format.
pub agree1 :
    (opcode sizes : ℕ) (o : Operand)
    → Sized o
    → (has_imm (o ∷ []) ≡ true → sizes ≡ size_flags (o ∷ []))
    → AllAgree (op_word opcode (o ∷ [])) sizes 0 (o ∷ [])
agree1 opcode sizes (immediate s v) h e = ground (arith, e refl)
agree1 opcode sizes (reference a) h e = ground arith

pub agree2 :
    (opcode sizes : ℕ) (o p : Operand)
    → Sized o
    → Sized p
    → (has_imm (o ∷ p ∷ []) ≡ true → sizes ≡ size_flags (o ∷ p ∷ []))
    → AllAgree (op_word opcode (o ∷ p ∷ [])) sizes 0 (o ∷ p ∷ [])
agree2 opcode sizes (immediate s v) (immediate t w) h k e = ground (arith, e refl)
agree2 opcode sizes (immediate s v) (reference a) h k e = ground (arith, e refl)
agree2 opcode sizes (reference a) (immediate t w) h k e = ground (arith, e refl)
agree2 opcode sizes (reference a) (reference b) h k e = ground arith

pub agree3 :
    (opcode sizes : ℕ) (o p q : Operand)
    → Sized o
    → Sized p
    → Sized q
    → (has_imm (o ∷ p ∷ q ∷ []) ≡ true → sizes ≡ size_flags (o ∷ p ∷ q ∷ []))
    → AllAgree (op_word opcode (o ∷ p ∷ q ∷ [])) sizes 0 (o ∷ p ∷ q ∷ [])
agree3 opcode sizes (immediate s v) (immediate t w) (immediate u x) h k l e = ground (arith, e refl)
agree3 opcode sizes (immediate s v) (immediate t w) (reference c) h k l e = ground (arith, e refl)
agree3 opcode sizes (immediate s v) (reference b) (immediate u x) h k l e = ground (arith, e refl)
agree3 opcode sizes (immediate s v) (reference b) (reference c) h k l e = ground (arith, e refl)
agree3 opcode sizes (reference a) (immediate t w) (immediate u x) h k l e = ground (arith, e refl)
agree3 opcode sizes (reference a) (immediate t w) (reference c) h k l e = ground (arith, e refl)
agree3 opcode sizes (reference a) (reference b) (immediate u x) h k l e = ground (arith, e refl)
agree3 opcode sizes (reference a) (reference b) (reference c) h k l e = ground arith
