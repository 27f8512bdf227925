-- ===== src/Instn/Table.antt =====
-- The instruction table: src/instns/instn_defs.inc, the array built from it in src/instns/instn_defs.c,
-- and `setup_instn_defs` of src/instns/instn.c. `qsort` is taken to keep the order of entries
-- that compare equal, as glibc's merge sort does.
pub mod Order
use Prim.Native.Char.{code}
use Prim.Native.String.{String}
use bvgz_vm.Common.{
  ◌≡◌, refl, ℕ, ◌+◌, ◌%◌, Bool, true, false, List, [], ◌∷◌, ltb, ◌==◌, length, if◌then◌else◌,
}

-- `op_NAME_N`, the handlers that the table points at
pub data Op : Type 0 where
  op_nop_0 op_add_3 op_add_2 op_sub_3 op_sub_2 op_mul_3 op_mul_2 op_div_3 op_div_2 : Op
  op_mod_3 op_mod_2 op_eq_3 op_ne_3 op_gt_3 op_lt_3 op_ge_3 op_le_3 op_l_and_3 op_l_and_2 : Op
  op_l_or_3 op_l_or_2 op_l_not_2 op_l_not_1 op_l_bool_2 op_l_bool_1 op_and_3 op_and_2 : Op
  op_or_3 op_or_2 op_xor_3 op_xor_2 op_not_2 op_not_1 op_shl_3 op_shl_2 op_shr_3 op_shr_2 : Op
  op_cp_3 op_read8_3 op_read16_3 op_read32_3 op_read64_3 op_write8_3 op_write16_3 : Op
  op_write32_3 op_write64_3 op_jmp_1 op_jtrue_2 op_jfalse_2 op_call_3 op_syscall_3 : Op
  op_ret_0 op_argv_1 op_retv_1 op_assert_2 op_abrt_1 : Op

abbrev pub f_allow_imm_1st_arg : ℕ
f_allow_imm_1st_arg = 0x1

abbrev pub f_1st_arg_code_ref : ℕ
f_1st_arg_code_ref = 0x2

abbrev pub f_debug_only_instn : ℕ
f_debug_only_instn = 0x4

-- The bytes of a C string, without the one that ends it.
abbrev pub codes : String → List ℕ
codes String.[] = []
codes (String.◌∷◌ c s) = code c ∷ codes s

-- `instn_def_t`
pub record InstnDef : Type 0 where
  pub name : List ℕ
  pub opcode : ℕ
  pub arg_count : ℕ
  pub flags : ℕ
  pub handler : Op

abbrev def : String → ℕ → ℕ → Op → InstnDef
def name n flags op = record {
  name = codes name;
  opcode = 0;
  arg_count = n;
  flags = flags;
  handler = op;
}

-- `strcmp(a, b) <= 0`
unfoldable pub strcmp_le : List ℕ → List ℕ → Bool
strcmp_le [] bs = true
strcmp_le (a ∷ as') [] = false
strcmp_le (a ∷ as') (b ∷ bs) = let rest = strcmp_le as' bs in if a == b then rest else ltb a b

-- The array in the order of the include file.
abbrev pub instn_defs_inc : List InstnDef
instn_defs_inc =
    def "nop" 0 0 op_nop_0
    ∷ def "add" 3 0 op_add_3
    ∷ def "add" 2 0 op_add_2
    ∷ def "sub" 3 0 op_sub_3
    ∷ def "sub" 2 0 op_sub_2
    ∷ def "mul" 3 0 op_mul_3
    ∷ def "mul" 2 0 op_mul_2
    ∷ def "div" 3 0 op_div_3
    ∷ def "div" 2 0 op_div_2
    ∷ def "mod" 3 0 op_mod_3
    ∷ def "mod" 2 0 op_mod_2
    ∷ def "eq" 3 0 op_eq_3
    ∷ def "ne" 3 0 op_ne_3
    ∷ def "gt" 3 0 op_gt_3
    ∷ def "lt" 3 0 op_lt_3
    ∷ def "ge" 3 0 op_ge_3
    ∷ def "le" 3 0 op_le_3
    ∷ def "l_and" 3 0 op_l_and_3
    ∷ def "l_and" 2 0 op_l_and_2
    ∷ def "l_or" 3 0 op_l_or_3
    ∷ def "l_or" 2 0 op_l_or_2
    ∷ def "l_not" 2 0 op_l_not_2
    ∷ def "l_not" 1 0 op_l_not_1
    ∷ def "l_bool" 2 0 op_l_bool_2
    ∷ def "l_bool" 1 0 op_l_bool_1
    ∷ def "and" 3 0 op_and_3
    ∷ def "and" 2 0 op_and_2
    ∷ def "or" 3 0 op_or_3
    ∷ def "or" 2 0 op_or_2
    ∷ def "xor" 3 0 op_xor_3
    ∷ def "xor" 2 0 op_xor_2
    ∷ def "not" 2 0 op_not_2
    ∷ def "not" 1 0 op_not_1
    ∷ def "shl" 3 0 op_shl_3
    ∷ def "shl" 2 0 op_shl_2
    ∷ def "shr" 3 0 op_shr_3
    ∷ def "shr" 2 0 op_shr_2
    ∷ def "cp" 3 0 op_cp_3
    ∷ def "read8" 3 0 op_read8_3
    ∷ def "read16" 3 0 op_read16_3
    ∷ def "read32" 3 0 op_read32_3
    ∷ def "read64" 3 0 op_read64_3
    ∷ def "write8" 3 0 op_write8_3
    ∷ def "write16" 3 0 op_write16_3
    ∷ def "write32" 3 0 op_write32_3
    ∷ def "write64" 3 0 op_write64_3
    ∷ def "jmp" 1 3 op_jmp_1
    ∷ def "jtrue" 2 3 op_jtrue_2
    ∷ def "jfalse" 2 3 op_jfalse_2
    ∷ def "call" 3 3 op_call_3
    ∷ def "syscall" 3 1 op_syscall_3
    ∷ def "ret" 0 0 op_ret_0
    ∷ def "argv" 1 0 op_argv_1
    ∷ def "retv" 1 0 op_retv_1
    ∷ def "assert" 2 4 op_assert_2
    ∷ def "abrt" 1 1 op_abrt_1
    ∷ []

unfoldable pub insert_def : InstnDef → List InstnDef → List InstnDef
insert_def d [] = d ∷ []
insert_def d (e ∷ es) =
    let rest = insert_def d es in if strcmp_le d.name e.name then d ∷ e ∷ es else e ∷ rest

-- `qsort(InstnDefs, nInstnDefs, sizeof(instn_def_t), compare_instn_def)`
unfoldable pub sort_defs : List InstnDef → List InstnDef
sort_defs [] = []
sort_defs (d ∷ ds) = insert_def d (sort_defs ds)

-- `uint8_t n = 0; def->opcode = n++;`
unfoldable pub assign_opcodes : ℕ → List InstnDef → List InstnDef
assign_opcodes n [] = []
assign_opcodes n (d ∷ ds) = record d { opcode = n } ∷ assign_opcodes ((n + 1) % 256) ds

unfoldable pub setup_instn_defs : List InstnDef → List InstnDef
unfolding strcmp_le insert_def sort_defs assign_opcodes
setup_instn_defs defs = assign_opcodes 0 (sort_defs defs)

-- `InstnDefs` once the engine is initialised.
unfoldable pub instn_defs : List InstnDef
unfolding setup_instn_defs
instn_defs = setup_instn_defs instn_defs_inc

instn_defs_count : length instn_defs ≡ 56
unfolding instn_defs
instn_defs_count = refl
