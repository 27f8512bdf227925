-- ===== src/Instn/Arith.antt =====
-- src/instns/instn_impl_arith.c and src/instns/instn_impl_rel.c. Values are `uint64_t`, which wrap.
use bvgz_vm.Common.{ℕ, ◌+◌, ◌-◌, ◌*◌, ◌/◌, ◌%◌, ◌^◌, Bool, not, ltb, leb, ◌==◌, if◌then◌else◌}
use bvgz_vm.Vm.{M, Status, proceed, halt, pure, ◌>>=◌, ◌>>◌, raise, e_arithmetic}
use bvgz_vm.Instn.{Instn, arg_value, read_arg, write_arg}

unfoldable pub op_add_3 : Instn → M Status
op_add_3 instn = do
  a ← arg_value instn 1
  b ← arg_value instn 2
  write_arg 8 instn.arg0 ((a + b) % 2 ^ 64)
  pure proceed

unfoldable pub op_add_2 : Instn → M Status
op_add_2 instn = do
  a ← read_arg 8 instn.arg0
  b ← arg_value instn 1
  write_arg 8 instn.arg0 ((a + b) % 2 ^ 64)
  pure proceed

unfoldable pub op_sub_3 : Instn → M Status
op_sub_3 instn = do
  a ← arg_value instn 1
  b ← arg_value instn 2
  write_arg 8 instn.arg0 ((a + 2 ^ 64 - b) % 2 ^ 64)
  pure proceed

unfoldable pub op_sub_2 : Instn → M Status
op_sub_2 instn = do
  a ← read_arg 8 instn.arg0
  b ← arg_value instn 1
  write_arg 8 instn.arg0 ((a + 2 ^ 64 - b) % 2 ^ 64)
  pure proceed

unfoldable pub op_mul_3 : Instn → M Status
op_mul_3 instn = do
  a ← arg_value instn 1
  b ← arg_value instn 2
  write_arg 8 instn.arg0 (a * b % 2 ^ 64)
  pure proceed

unfoldable pub op_mul_2 : Instn → M Status
op_mul_2 instn = do
  a ← read_arg 8 instn.arg0
  b ← arg_value instn 1
  write_arg 8 instn.arg0 (a * b % 2 ^ 64)
  pure proceed

unfoldable pub op_div_3 : Instn → M Status
op_div_3 instn = do
  divisor ← arg_value instn 2
  if divisor == 0
      then (do raise e_arithmetic; pure halt)
      else do a ← arg_value instn 1; write_arg 8 instn.arg0 (a / divisor); pure proceed

unfoldable pub op_div_2 : Instn → M Status
op_div_2 instn = do
  divisor ← arg_value instn 1
  if divisor == 0
      then (do raise e_arithmetic; pure halt)
      else do a ← read_arg 8 instn.arg0; write_arg 8 instn.arg0 (a / divisor); pure proceed

unfoldable pub op_mod_3 : Instn → M Status
op_mod_3 instn = do
  divisor ← arg_value instn 2
  if divisor == 0
      then (do raise e_arithmetic; pure halt)
      else do a ← arg_value instn 1; write_arg 8 instn.arg0 (a % divisor); pure proceed

unfoldable pub op_mod_2 : Instn → M Status
op_mod_2 instn = do
  divisor ← arg_value instn 1
  if divisor == 0
      then (do raise e_arithmetic; pure halt)
      else do a ← read_arg 8 instn.arg0; write_arg 8 instn.arg0 (a % divisor); pure proceed

-- `c ? 1 : 0`
abbrev pub truth : Bool → ℕ
truth c = if c then 1 else 0

unfoldable pub op_eq_3 : Instn → M Status
op_eq_3 instn = do
  a ← arg_value instn 1
  b ← arg_value instn 2
  write_arg 8 instn.arg0 (truth (a == b))
  pure proceed

unfoldable pub op_ne_3 : Instn → M Status
op_ne_3 instn = do
  a ← arg_value instn 1
  b ← arg_value instn 2
  write_arg 8 instn.arg0 (truth (not (a == b)))
  pure proceed

unfoldable pub op_gt_3 : Instn → M Status
op_gt_3 instn = do
  a ← arg_value instn 1
  b ← arg_value instn 2
  write_arg 8 instn.arg0 (truth (ltb b a))
  pure proceed

unfoldable pub op_lt_3 : Instn → M Status
op_lt_3 instn = do
  a ← arg_value instn 1
  b ← arg_value instn 2
  write_arg 8 instn.arg0 (truth (ltb a b))
  pure proceed

unfoldable pub op_ge_3 : Instn → M Status
op_ge_3 instn = do
  a ← arg_value instn 1
  b ← arg_value instn 2
  write_arg 8 instn.arg0 (truth (leb b a))
  pure proceed

unfoldable pub op_le_3 : Instn → M Status
op_le_3 instn = do
  a ← arg_value instn 1
  b ← arg_value instn 2
  write_arg 8 instn.arg0 (truth (leb a b))
  pure proceed
