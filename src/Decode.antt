-- ===== src/Decode.antt =====
-- `decode_instn` of src/bytecode.c: from the code bytes at the instruction pointer to an `instn_t`.
-- The table of instructions is an argument, so that the laws hold of every table.
use bvgz_vm.Common.{
  ℕ, zero, suc, ◌+◌, ◌/◌, ◌%◌, ◌^◌, Bool, Option, none, some, List, ltb, ◌==◌, if◌then◌else◌,
  length, get_elem?, not,
}
use bvgz_vm.Memory.{load}
use bvgz_vm.Vm.{M, pure, ◌>>=◌, ◌>>◌, gets, asks, raise, e_bad_instn_pointer, e_bad_instn_code}
use bvgz_vm.Instn.{Instn, Arg, imm, ref, is_imm, imm_size}
use bvgz_vm.Instn.Table.{InstnDef}
use bvgz_vm.Instn.Access.{deref_mem_ptr}

-- `instn->args[i] = a`
abbrev pub set_arg : Instn → ℕ → Arg → Instn
set_arg instn zero a = record instn { arg0 = a }
set_arg instn (suc zero) a = record instn { arg1 = a }
set_arg instn _ a = record instn { arg2 = a }

-- `*(uintN_t*)(vm->code + at)`
unfoldable pub fetch : (n at : ℕ) → M ℕ
fetch n at = asks (λ vm. load n vm.code at)

-- `bound < iptr + n`, of the pointers into the code block
abbrev pub beyond : (iptr n : ℕ) → M Bool
beyond iptr n = gets (λ vm. ltb vm.code.size (iptr + n))

abbrev pub bad_pointer : M (Option (ℕ × Instn))
bad_pointer = do raise e_bad_instn_pointer; pure none

-- The body of the loop for argument `i`: `none` is the result -1. Every bound is tested from the
-- start of the instruction, as in the source.
unfoldable pub decode_arg : (i iptr offset : ℕ) → Instn → M (Option (ℕ × Instn))
decode_arg i iptr offset instn =
    if is_imm instn.code i
    then (do
      let n_bytes = imm_size instn.arg_sizes i
      out ← beyond iptr n_bytes
      if out then bad_pointer else (do
        v ← fetch n_bytes (iptr + offset)
        pure (some (offset + n_bytes, set_arg instn i (imm v)))))
    else (do
      out ← beyond iptr 4
      if out then bad_pointer else (do
        r ← fetch 4 (iptr + offset)
        mem ← deref_mem_ptr r 4
        elim mem [ none ↦ pure none | some p ↦ pure (some (offset + 4, set_arg instn i (ref p))) ]))

-- `for (int i = 0; i < arg_count; i++)`, with `k` rounds left
unfoldable pub decode_args : (k i iptr offset : ℕ) → Instn → M (Option (ℕ × Instn))
decode_args zero i iptr offset instn = pure (some (offset, instn))
decode_args (suc k) i iptr offset instn = do
  result ← decode_arg i iptr offset instn
  elim result [
    | none ↦ pure none
    | some (offset', instn') ↦ decode_args k (i + 1) iptr offset' instn'
  ]

-- `InstnDefs[idx].arg_count`: the entry behind the last one is the sentinel, all zeros.
abbrev pub arg_count_at : List InstnDef → ℕ → Option ℕ
arg_count_at defs idx = elim (get_elem? defs idx) [
  | none ↦ if idx == length defs then some 0 else none
  | some def ↦ some def.arg_count
]

-- The size byte, present where some argument is an immediate value.
unfoldable pub decode_sizes : (iptr offset : ℕ) → Instn → M (Option (ℕ × Instn))
decode_sizes iptr offset instn =
    if not (instn.code % 8 == 0)
    then (do
      out ← beyond iptr 1
      if out then bad_pointer else (do
        sizes ← fetch 1 (iptr + offset)
        pure (some (offset + 1, record instn { arg_sizes = sizes }))))
    else pure (some (offset, instn))

-- `instn` is the structure that the caller passes, and that is overwritten.
unfoldable pub decode_instn : List InstnDef → (iptr : ℕ) → Instn → M (Option (ℕ × Instn))
decode_instn defs iptr instn = do
  out ← beyond iptr 2
  if out then bad_pointer else (do
    word ← fetch 2 iptr
    let instn_idx = word / 2 ^ 3 % 2 ^ 8
    if ltb (length defs) instn_idx then (do raise e_bad_instn_code; pure none) else (do
      sized ← decode_sizes iptr 2 (record instn { code = word })
      elim sized [
        | none ↦ pure none
        | some (offset, instn') ↦ do
          n ← asks (λ _. arg_count_at defs instn_idx)
          decode_args n 0 iptr offset instn'
      ]))
