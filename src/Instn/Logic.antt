-- ===== src/Instn/Logic.antt =====
-- src/instns/instn_impl_logc.c. Each result is 0 or 1.
use bvgz_vm.Common.{ℕ, Bool, true, false, not, ◌==◌, if◌then◌else◌}
use bvgz_vm.Vm.{M, Status, proceed, pure, ◌>>=◌, ◌>>◌}
use bvgz_vm.Instn.{Instn, arg_value, read_arg, write_arg}
use bvgz_vm.Instn.Arith.{truth}

-- A number as a condition.
abbrev pub nonzero : ℕ → Bool
nonzero v = not (v == 0)

-- `&&` and `||` read their second operand only where the first does not decide.
abbrev pub and_then_value : M ℕ → M ℕ → M Bool
and_then_value x y = do a ← x; if nonzero a then (do b ← y; pure (nonzero b)) else pure false

abbrev pub or_else_value : M ℕ → M ℕ → M Bool
or_else_value x y = do a ← x; if nonzero a then pure true else do b ← y; pure (nonzero b)

unfoldable pub op_l_and_3 : Instn → M Status
op_l_and_3 instn = do
  c ← and_then_value (arg_value instn 1) (arg_value instn 2)
  write_arg 8 instn.arg0 (truth c)
  pure proceed

unfoldable pub op_l_and_2 : Instn → M Status
op_l_and_2 instn = do
  c ← and_then_value (read_arg 8 instn.arg0) (arg_value instn 1)
  write_arg 8 instn.arg0 (truth c)
  pure proceed

unfoldable pub op_l_or_3 : Instn → M Status
op_l_or_3 instn = do
  c ← or_else_value (arg_value instn 1) (arg_value instn 2)
  write_arg 8 instn.arg0 (truth c)
  pure proceed

unfoldable pub op_l_or_2 : Instn → M Status
op_l_or_2 instn = do
  c ← or_else_value (read_arg 8 instn.arg0) (arg_value instn 1)
  write_arg 8 instn.arg0 (truth c)
  pure proceed

unfoldable pub op_l_not_2 : Instn → M Status
op_l_not_2 instn = do
  a ← arg_value instn 1
  write_arg 8 instn.arg0 (if nonzero a then 0 else 1)
  pure proceed

unfoldable pub op_l_not_1 : Instn → M Status
op_l_not_1 instn = do
  a ← read_arg 8 instn.arg0
  write_arg 8 instn.arg0 (if nonzero a then 0 else 1)
  pure proceed

unfoldable pub op_l_bool_2 : Instn → M Status
op_l_bool_2 instn = do
  a ← arg_value instn 1
  write_arg 8 instn.arg0 (if nonzero a then 1 else 0)
  pure proceed

unfoldable pub op_l_bool_1 : Instn → M Status
op_l_bool_1 instn = do
  a ← read_arg 8 instn.arg0
  write_arg 8 instn.arg0 (if nonzero a then 1 else 0)
  pure proceed
