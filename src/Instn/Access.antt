-- ===== src/Instn/Access.antt =====
-- src/instns/instn_impl_misc.c, and `deref_mem_ptr` of src/bytecode.c with its copy `deref` of
-- src/syscalls/syscall.c.
use bvgz_vm.Common.{ℕ, ◌+◌, ◌%◌, ◌^◌, Option, none, some, ltb, leb, ◌||◌, if◌then◌else◌}
use bvgz_vm.Memory.{copy}
use bvgz_vm.Vm.{
  Vm, M, Status, proceed, halt, pure, ◌>>=◌, ◌>>◌, modify, raise, lref, set_lref, with_exception,
  e_mem_fault, e_assert_failed,
}
use bvgz_vm.Instn.{Instn, Arg, ref, arg_value, read_arg, write_arg}
use bvgz_vm.Instn.Logic.{nonzero}

-- The bound is tested in `uint32_t`. `some ref` stands for the pointer `vm->memory + ref`, which
-- the caller may then access.
unfoldable pub deref : (ref size : ℕ) → Vm → Option ℕ
deref r size vm = if ltb vm.memsz ((r + size) % 2 ^ 32) then none else some r

unfoldable pub deref_mem_ptr : (ref size : ℕ) → M (Option ℕ)
deref_mem_ptr r size vm =
    if ltb vm.memsz ((r + size) % 2 ^ 32)
    then some (none, with_exception e_mem_fault vm)
    else some (some r, vm)

unfoldable pub op_nop_0 : Instn → M Status
op_nop_0 instn = pure proceed

unfoldable pub op_assert_2 : Instn → M Status
op_assert_2 instn = do
  c ← arg_value instn 1
  if nonzero c
      then (do
        id ← arg_value instn 0
        modify (λ vm. record vm { assert_id = id })
        raise e_assert_failed
        pure halt)
      else pure proceed

-- `exceptions` is an `unsigned`, so the 64-bit value is cut to 32 bits.
unfoldable pub op_abrt_1 : Instn → M Status
op_abrt_1 instn = do e ← arg_value instn 0; raise (e % 2 ^ 32); pure halt

-- `memcpy` within the memory. Ranges that overlap are undefined behaviour, and so are operands that
-- are immediate values.
abbrev pub memcpy : Arg → Arg → ℕ → M (Unit {0})
memcpy (ref d) (ref s) n vm =
    if leb (d + n) s || leb (s + n) d
    then elim (copy n vm.memory s vm.memory d) [
      | none ↦ none
      | some m ↦ some (tt, record vm { memory = m })
    ]
    else none
memcpy _ _ n vm = none

unfoldable pub op_cp_3 : Instn → M Status
op_cp_3 instn = do n ← arg_value instn 2; memcpy instn.arg0 instn.arg1 n; pure proceed

unfoldable pub op_read8_3 : Instn → M Status
op_read8_3 instn = do
  r ← read_arg 4 instn.arg1
  offset ← arg_value instn 2
  mem ← deref_mem_ptr ((r + offset % 2 ^ 32) % 2 ^ 32) 1
  elim mem [ none ↦ pure halt | some p ↦ do v ← lref 1 p; write_arg 1 instn.arg0 v; pure proceed ]

unfoldable pub op_read16_3 : Instn → M Status
op_read16_3 instn = do
  r ← read_arg 4 instn.arg1
  offset ← arg_value instn 2
  mem ← deref_mem_ptr ((r + offset % 2 ^ 32) % 2 ^ 32) 2
  elim mem [ none ↦ pure halt | some p ↦ do v ← lref 2 p; write_arg 2 instn.arg0 v; pure proceed ]

unfoldable pub op_read32_3 : Instn → M Status
op_read32_3 instn = do
  r ← read_arg 4 instn.arg1
  offset ← arg_value instn 2
  mem ← deref_mem_ptr ((r + offset % 2 ^ 32) % 2 ^ 32) 4
  elim mem [ none ↦ pure halt | some p ↦ do v ← lref 4 p; write_arg 4 instn.arg0 v; pure proceed ]

unfoldable pub op_read64_3 : Instn → M Status
op_read64_3 instn = do
  r ← read_arg 4 instn.arg1
  offset ← arg_value instn 2
  mem ← deref_mem_ptr ((r + offset % 2 ^ 32) % 2 ^ 32) 8
  elim mem [ none ↦ pure halt | some p ↦ do v ← lref 8 p; write_arg 8 instn.arg0 v; pure proceed ]

unfoldable pub op_write8_3 : Instn → M Status
op_write8_3 instn = do
  r ← arg_value instn 0
  offset ← arg_value instn 1
  mem ← deref_mem_ptr ((r % 2 ^ 32 + offset % 2 ^ 32) % 2 ^ 32) 1
  elim mem [ none ↦ pure halt | some p ↦ do v ← arg_value instn 2; set_lref 1 p v; pure proceed ]

unfoldable pub op_write16_3 : Instn → M Status
op_write16_3 instn = do
  r ← arg_value instn 0
  offset ← arg_value instn 1
  mem ← deref_mem_ptr ((r % 2 ^ 32 + offset % 2 ^ 32) % 2 ^ 32) 2
  elim mem [ none ↦ pure halt | some p ↦ do v ← arg_value instn 2; set_lref 2 p v; pure proceed ]

unfoldable pub op_write32_3 : Instn → M Status
op_write32_3 instn = do
  r ← arg_value instn 0
  offset ← arg_value instn 1
  mem ← deref_mem_ptr ((r % 2 ^ 32 + offset % 2 ^ 32) % 2 ^ 32) 4
  elim mem [ none ↦ pure halt | some p ↦ do v ← arg_value instn 2; set_lref 4 p v; pure proceed ]

unfoldable pub op_write64_3 : Instn → M Status
op_write64_3 instn = do
  r ← arg_value instn 0
  offset ← arg_value instn 1
  mem ← deref_mem_ptr ((r % 2 ^ 32 + offset % 2 ^ 32) % 2 ^ 32) 8
  elim mem [ none ↦ pure halt | some p ↦ do v ← arg_value instn 2; set_lref 8 p v; pure proceed ]
