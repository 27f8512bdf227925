-- ===== src/Instn/Words.antt =====
-- The handlers of src/instns/instn_impl_logc.c, instn_impl_bitw.c and instn_impl_misc.c that take one
-- word, read one or write one.
use bvgz_vm.Common.{
  ℕ, ◌+◌, ◌%◌, ◌^◌, ◌≤◌, ◌<◌, ◌≡◌, Option, none, some, arith, leb, if◌then◌else◌, inl, inr,
  Bool-cases,
}
use bvgz_vm.Memory.{read_le}
use bvgz_vm.Vm.{Vm, Status, proceed, halt, with_exception, e_mem_fault, lref, set_lref}
use bvgz_vm.Vm.Access.{written, Assigned, written-Assigned, set_lref-written, lref-read_le}
use bvgz_vm.Instn.{Instn, ref, arg_value, read_arg, write_arg}
use bvgz_vm.Instn.Bitwise.{op_not_1}
use bvgz_vm.Instn.Access.{
  deref_mem_ptr, op_read8_3, op_read16_3, op_read32_3, op_read64_3, op_write8_3, op_write16_3,
  op_write32_3, op_write64_3,
}

module _ (instn : Instn) (vm : Vm) (d : ℕ) (dest : instn.arg0 ≡ ref d)
    (fits : d + 8 ≤ vm.memory.size) where
  -- The form of the complement with one operand leaves the 64-bit word at its operand, which lies
  -- in the memory, as it was, and changes nothing else.
  not_1_keeps :
      (v : ℕ)
      → lref 8 d vm ≡ some (v, vm)
      → v < 2 ^ 64
      → (after : Vm) × (op_not_1 instn vm ≡ some (proceed, after)) × Assigned d v vm after
  unfolding op_not_1 read_arg write_arg
  not_1_keeps v here small = (
    written 8 d v vm,
    ground (arith, dest, here, set_lref-written 8 d vm fits v),
    written-Assigned d v vm fits,
  )

-- The bytes that an access moves.
pub data Width : Type 0 where
  w8 w16 w32 w64 : Width

abbrev pub bytes : Width → ℕ
bytes w8 = 1
bytes w16 = 2
bytes w32 = 4
bytes w64 = 8

abbrev pub op_read : Width → Instn → Vm → Option (Status × Vm)
op_read w8 = op_read8_3
op_read w16 = op_read16_3
op_read w32 = op_read32_3
op_read w64 = op_read64_3

abbrev pub op_write : Width → Instn → Vm → Option (Status × Vm)
op_write w8 = op_write8_3
op_write w16 = op_write16_3
op_write w32 = op_write32_3
op_write w64 = op_write64_3

module _ (vm : Vm) (same : vm.memory.size ≡ vm.memsz) where
  -- The range test, as the handlers use it.
  granted :
      (w : Width) (p : ℕ)
      → p + bytes w < 2 ^ 32
      → p + bytes w ≤ vm.memsz
      → deref_mem_ptr p (bytes w) vm ≡ some (some p, vm)
  unfolding deref_mem_ptr
  granted w p h le = ground arith

  refused :
      (w : Width) (p : ℕ)
      → p + bytes w < 2 ^ 32
      → vm.memsz < p + bytes w
      → deref_mem_ptr p (bytes w) vm ≡ some (none, with_exception e_mem_fault vm)
  unfolding deref_mem_ptr
  refused w p h lt = ground arith

  module _ (instn : Instn) (r offset v : ℕ) (at : arg_value instn 1 vm ≡ some (offset, vm))
      (base : arg_value instn 0 vm ≡ some (r, vm))
      (value : arg_value instn 2 vm ≡ some (v, vm)) where
    write_within :
        (w : Width)
        → r + offset + bytes w < 2 ^ 32
        → (r % 2 ^ 32 + offset % 2 ^ 32) % 2 ^ 32 ≡ r + offset
        → deref_mem_ptr (r + offset) (bytes w) vm ≡ some (some (r + offset), vm)
        → set_lref (bytes w) (r + offset) v vm ≡ some (tt, written (bytes w) (r + offset) v vm)
        → op_write w instn vm ≡ some (proceed, written (bytes w) (r + offset) v vm)
    unfolding op_write8_3 op_write16_3 op_write32_3 op_write64_3
    write_within w8 bound address allowed done = ground (arith, at, base, value)
    write_within w16 bound address allowed done = ground (arith, at, base, value)
    write_within w32 bound address allowed done = ground (arith, at, base, value)
    write_within w64 bound address allowed done = ground (arith, at, base, value)

    write_outside :
        (w : Width)
        → (r % 2 ^ 32 + offset % 2 ^ 32) % 2 ^ 32 ≡ r + offset
        → deref_mem_ptr (r + offset) (bytes w) vm ≡ some (none, with_exception e_mem_fault vm)
        → op_write w instn vm ≡ some (halt, with_exception e_mem_fault vm)
    unfolding op_write8_3 op_write16_3 op_write32_3 op_write64_3
    write_outside w8 address denied = ground (arith, at, base, value)
    write_outside w16 address denied = ground (arith, at, base, value)
    write_outside w32 address denied = ground (arith, at, base, value)
    write_outside w64 address denied = ground (arith, at, base, value)

    -- The operands of a write are the base, the offset and the value, in this order, and the widths are 1, 2,
    -- 4 and 8 bytes. A write to the sum of the base and the offset that does not reach the end of the
    -- 32-bit addresses, in a machine whose memory block is as long as it counts, stores the value
    -- there, cut to the width, and nothing else changes. A range that leaves the memory is a
    -- memory fault, and the machine stops with its memory as it was.
    pub write_bounds :
        (w : Width)
        → r + offset + bytes w < 2 ^ 32
        → op_write w instn vm ≡ (
            if leb (r + offset + bytes w) vm.memsz
            then some (proceed, written (bytes w) (r + offset) v vm)
            else some (halt, with_exception e_mem_fault vm))
    write_bounds w bound = elim (Bool-cases (leb (r + offset + bytes w) vm.memsz)) [
      | inl e ↦ rw e (
          write_within w bound (omega arith) (granted w (r + offset) bound (ground arith))
            (set_lref-written (bytes w) (r + offset) vm (ground (arith, same)) v))
      | inr e ↦ rw e (write_outside w (omega arith) (refused w (r + offset) bound (ground arith)))
    ]

  module _ (instn : Instn) (r offset d : ℕ) (dest : instn.arg0 ≡ ref d)
      (base : read_arg 4 instn.arg1 vm ≡ some (r, vm))
      (at : arg_value instn 2 vm ≡ some (offset, vm)) where
    read_within :
        (w : Width) (v : ℕ)
        → (r + offset % 2 ^ 32) % 2 ^ 32 ≡ r + offset
        → deref_mem_ptr (r + offset) (bytes w) vm ≡ some (some (r + offset), vm)
        → lref (bytes w) (r + offset) vm ≡ some (v, vm)
        → set_lref (bytes w) d v vm ≡ some (tt, written (bytes w) d v vm)
        → op_read w instn vm ≡ some (proceed, written (bytes w) d v vm)
    unfolding op_read8_3 op_read16_3 op_read32_3 op_read64_3 write_arg
    read_within w8 v address allowed got done = ground (arith, at, base, dest)
    read_within w16 v address allowed got done = ground (arith, at, base, dest)
    read_within w32 v address allowed got done = ground (arith, at, base, dest)
    read_within w64 v address allowed got done = ground (arith, at, base, dest)

    read_outside :
        (w : Width)
        → (r + offset % 2 ^ 32) % 2 ^ 32 ≡ r + offset
        → deref_mem_ptr (r + offset) (bytes w) vm ≡ some (none, with_exception e_mem_fault vm)
        → op_read w instn vm ≡ some (halt, with_exception e_mem_fault vm)
    unfolding op_read8_3 op_read16_3 op_read32_3 op_read64_3
    read_outside w8 address denied = ground (arith, at, base)
    read_outside w16 address denied = ground (arith, at, base)
    read_outside w32 address denied = ground (arith, at, base)
    read_outside w64 address denied = ground (arith, at, base)

    -- A read of any width through a pointer in the memory, in a machine whose memory block is as
    -- long as it counts, copies the bytes at the sum of the pointer and the offset, if that does
    -- not reach the end of the 32-bit addresses, to as many bytes at its destination in the
    -- memory. A range that leaves the memory is a memory fault, and the machine stops with its
    -- memory as it was.
    pub read_bounds :
        (w : Width)
        → r + offset + bytes w < 2 ^ 32
        → d + bytes w ≤ vm.memsz
        → op_read w instn vm ≡ (
            if leb (r + offset + bytes w) vm.memsz
            then some
                (proceed, written (bytes w) d (read_le (bytes w) vm.memory.cell (r + offset)) vm)
            else some (halt, with_exception e_mem_fault vm))
    read_bounds w bound fits = elim (Bool-cases (leb (r + offset + bytes w) vm.memsz)) [
      | inl e ↦ rw e (
          read_within w (read_le (bytes w) vm.memory.cell (r + offset)) (omega arith)
            (granted w (r + offset) bound (ground arith))
            (lref-read_le (bytes w) (r + offset) vm (ground (arith, same)))
            (set_lref-written (bytes w) d vm (omega (arith, same)) _))
      | inr e ↦ rw e (read_outside w (omega arith) (refused w (r + offset) bound (ground arith)))
    ]
