-- ===== src/Instn/Bitwise.antt =====
-- src/instns/instn_impl_bitw.c. A shift by 64 or more is undefined behaviour.
use Prim.Native.Nat.{bit_and, bit_or, bit_xor}
use bvgz_vm.Common.{ℕ, ◌-◌, ◌*◌, ◌/◌, ◌%◌, ◌^◌, ltb, if◌then◌else◌}
use bvgz_vm.Vm.{M, Status, proceed, pure, undefined, ◌>>=◌, ◌>>◌}
use bvgz_vm.Instn.{Instn, arg_value, read_arg, write_arg}

unfoldable pub op_and_3 : Instn → M Status
op_and_3 instn = do
  a ← arg_value instn 1
  b ← arg_value instn 2
  write_arg 8 instn.arg0 (bit_and a b)
  pure proceed

unfoldable pub op_and_2 : Instn → M Status
op_and_2 instn = do
  a ← read_arg 8 instn.arg0
  b ← arg_value instn 1
  write_arg 8 instn.arg0 (bit_and a b)
  pure proceed

unfoldable pub op_or_3 : Instn → M Status
op_or_3 instn = do
  a ← arg_value instn 1
  b ← arg_value instn 2
  write_arg 8 instn.arg0 (bit_or a b)
  pure proceed

unfoldable pub op_or_2 : Instn → M Status
op_or_2 instn = do
  a ← read_arg 8 instn.arg0
  b ← arg_value instn 1
  write_arg 8 instn.arg0 (bit_or a b)
  pure proceed

unfoldable pub op_xor_3 : Instn → M Status
op_xor_3 instn = do
  a ← arg_value instn 1
  b ← arg_value instn 2
  write_arg 8 instn.arg0 (bit_xor a b)
  pure proceed

unfoldable pub op_xor_2 : Instn → M Status
op_xor_2 instn = do
  a ← read_arg 8 instn.arg0
  b ← arg_value instn 1
  write_arg 8 instn.arg0 (bit_xor a b)
  pure proceed

-- `~x` of a `uint64_t`
abbrev pub complement : ℕ → ℕ
complement x = 2 ^ 64 - 1 - x

unfoldable pub op_not_2 : Instn → M Status
op_not_2 instn = do a ← arg_value instn 1; write_arg 8 instn.arg0 (complement a); pure proceed

-- The source writes back what it reads.
unfoldable pub op_not_1 : Instn → M Status
op_not_1 instn = do a ← read_arg 8 instn.arg0; write_arg 8 instn.arg0 a; pure proceed

unfoldable pub op_shl_3 : Instn → M Status
op_shl_3 instn = do
  a ← arg_value instn 1
  b ← arg_value instn 2
  if ltb b 64 then (do write_arg 8 instn.arg0 (a * 2 ^ b % 2 ^ 64); pure proceed) else undefined

unfoldable pub op_shl_2 : Instn → M Status
op_shl_2 instn = do
  a ← read_arg 8 instn.arg0
  b ← arg_value instn 1
  if ltb b 64 then (do write_arg 8 instn.arg0 (a * 2 ^ b % 2 ^ 64); pure proceed) else undefined

unfoldable pub op_shr_3 : Instn → M Status
op_shr_3 instn = do
  a ← arg_value instn 1
  b ← arg_value instn 2
  if ltb b 64 then (do write_arg 8 instn.arg0 (a / 2 ^ b); pure proceed) else undefined

unfoldable pub op_shr_2 : Instn → M Status
op_shr_2 instn = do
  a ← read_arg 8 instn.arg0
  b ← arg_value instn 1
  if ltb b 64 then (do write_arg 8 instn.arg0 (a / 2 ^ b); pure proceed) else undefined
