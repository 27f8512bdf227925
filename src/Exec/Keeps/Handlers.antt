-- ===== src/Exec/Keeps/Handlers.antt =====
-- Every handler keeps the code and the bound of the memory.
use bvgz_vm.Common.{ℕ, arith}
use bvgz_vm.Instn.{Instn}
use bvgz_vm.Instn.Table
use bvgz_vm.Instn.Table.{Op}
use bvgz_vm.Exec.{run_op, op_syscall_3}
use bvgz_vm.Exec.Keeps.{Keeps, keep_rules}
use bvgz_vm.Instn.Control.{do_jump, op_ret_0}
use bvgz_vm.Vm.Procedures.{this_proc, set_this_proc, delete_current_procedure}
use bvgz_vm.Syscall.{Host}

do_jump-Keeps : (t : ℕ) → Keeps (do_jump t)
unfolding do_jump
do_jump-Keeps t = search keep_rules depth 12

ruleset handler_rules = (keep_rules, do_jump-Keeps)

op_ret_0-Keeps : (instn : Instn) → Keeps (op_ret_0 instn)
unfolding op_ret_0 this_proc set_this_proc delete_current_procedure
op_ret_0-Keeps instn = record { run = λ vm. ground arith }

module _ (host : Host) (syscall_kept : (instn : Instn) → Keeps (op_syscall_3 host instn)) where
  pub run_op-Keeps : (op : Op) (instn : Instn) → Keeps (run_op host op instn)
  unfolding run_op
  run_op-Keeps Table.op_nop_0 instn = search handler_rules depth 12
  run_op-Keeps Table.op_add_3 instn = search handler_rules depth 12
  run_op-Keeps Table.op_add_2 instn = search handler_rules depth 12
  run_op-Keeps Table.op_sub_3 instn = search handler_rules depth 12
  run_op-Keeps Table.op_sub_2 instn = search handler_rules depth 12
  run_op-Keeps Table.op_mul_3 instn = search handler_rules depth 12
  run_op-Keeps Table.op_mul_2 instn = search handler_rules depth 12
  run_op-Keeps Table.op_div_3 instn = search handler_rules depth 12
  run_op-Keeps Table.op_div_2 instn = search handler_rules depth 12
  run_op-Keeps Table.op_mod_3 instn = search handler_rules depth 12
  run_op-Keeps Table.op_mod_2 instn = search handler_rules depth 12
  run_op-Keeps Table.op_eq_3 instn = search handler_rules depth 12
  run_op-Keeps Table.op_ne_3 instn = search handler_rules depth 12
  run_op-Keeps Table.op_gt_3 instn = search handler_rules depth 12
  run_op-Keeps Table.op_lt_3 instn = search handler_rules depth 12
  run_op-Keeps Table.op_ge_3 instn = search handler_rules depth 12
  run_op-Keeps Table.op_le_3 instn = search handler_rules depth 12
  run_op-Keeps Table.op_l_and_3 instn = search handler_rules depth 12
  run_op-Keeps Table.op_l_and_2 instn = search handler_rules depth 12
  run_op-Keeps Table.op_l_or_3 instn = search handler_rules depth 12
  run_op-Keeps Table.op_l_or_2 instn = search handler_rules depth 12
  run_op-Keeps Table.op_l_not_2 instn = search handler_rules depth 12
  run_op-Keeps Table.op_l_not_1 instn = search handler_rules depth 12
  run_op-Keeps Table.op_l_bool_2 instn = search handler_rules depth 12
  run_op-Keeps Table.op_l_bool_1 instn = search handler_rules depth 12
  run_op-Keeps Table.op_and_3 instn = search handler_rules depth 12
  run_op-Keeps Table.op_and_2 instn = search handler_rules depth 12
  run_op-Keeps Table.op_or_3 instn = search handler_rules depth 12
  run_op-Keeps Table.op_or_2 instn = search handler_rules depth 12
  run_op-Keeps Table.op_xor_3 instn = search handler_rules depth 12
  run_op-Keeps Table.op_xor_2 instn = search handler_rules depth 12
  run_op-Keeps Table.op_not_2 instn = search handler_rules depth 12
  run_op-Keeps Table.op_not_1 instn = search handler_rules depth 12
  run_op-Keeps Table.op_shl_3 instn = search handler_rules depth 12
  run_op-Keeps Table.op_shl_2 instn = search handler_rules depth 12
  run_op-Keeps Table.op_shr_3 instn = search handler_rules depth 12
  run_op-Keeps Table.op_shr_2 instn = search handler_rules depth 12
  run_op-Keeps Table.op_cp_3 instn = search handler_rules depth 12
  run_op-Keeps Table.op_read8_3 instn = search handler_rules depth 12
  run_op-Keeps Table.op_read16_3 instn = search handler_rules depth 12
  run_op-Keeps Table.op_read32_3 instn = search handler_rules depth 12
  run_op-Keeps Table.op_read64_3 instn = search handler_rules depth 12
  run_op-Keeps Table.op_write8_3 instn = search handler_rules depth 12
  run_op-Keeps Table.op_write16_3 instn = search handler_rules depth 12
  run_op-Keeps Table.op_write32_3 instn = search handler_rules depth 12
  run_op-Keeps Table.op_write64_3 instn = search handler_rules depth 12
  run_op-Keeps Table.op_jmp_1 instn = search handler_rules depth 12
  run_op-Keeps Table.op_jtrue_2 instn = search handler_rules depth 12
  run_op-Keeps Table.op_jfalse_2 instn = search handler_rules depth 12
  run_op-Keeps Table.op_call_3 instn = search handler_rules depth 12
  run_op-Keeps Table.op_syscall_3 instn = syscall_kept instn
  run_op-Keeps Table.op_ret_0 instn = op_ret_0-Keeps instn
  run_op-Keeps Table.op_argv_1 instn = search handler_rules depth 12
  run_op-Keeps Table.op_retv_1 instn = search handler_rules depth 12
  run_op-Keeps Table.op_assert_2 instn = search handler_rules depth 12
  run_op-Keeps Table.op_abrt_1 instn = search handler_rules depth 12
