-- ===== src/Asm.antt =====
-- The assembler's parser, src/parser.c: the result that it builds (src/parser.h), `report`,
-- `add_label`, and what it takes from elsewhere. The children follow the file: numbers and
-- arguments, instructions, the data section, lines, files, and references to labels.
pub mod Number
pub mod Arg
pub mod Instruction
pub mod Section
pub mod Data
pub mod Directive
pub mod Lines
pub mod Files
pub mod References
pub mod Text
pub mod Sound
use bvgz_vm.Common.{ℕ, ◌+◌, ◌%◌, ◌^◌, Bool, Option, List, [], ◌∷◌, ◌≡◌, some, none, ◌≢◌}
use bvgz_vm.Memory.{Block}
use bvgz_vm.Codegen.{PrsInstn, Label, Labels}

-- `label_ref_t`
pub record LabelRef : Type 0 where
  pub label : List ℕ
  pub size : ℕ
  pub write_offset : ℕ

-- `prs_result_t`, with the set of referenced labels that is passed beside it and whether `errno` is
-- `ERANGE`. `n_instns` is the number of `instns`, and `mem_alloc` the size of the block `memory`.
pub record Parse : Type 0 where
  pub n_files : ℕ
  pub errors : ℕ
  pub warnings : ℕ
  pub instns : List PrsInstn
  pub memory : Block
  pub memsz : ℕ
  pub labels : Labels
  pub label_refs : List LabelRef
  pub referenced : List (List ℕ)
  pub erange : Bool

-- The hash map and the hash set of src/util, a copy of another project, and the file system.
pub record Env : Type 0 where
  pub hmap_put : List ℕ → Label → Labels → Labels
  pub hset_add : List ℕ → List (List ℕ) → List (List ℕ)
  -- `stat(path, &st) == 0`
  pub exists : List ℕ → Bool
  -- The file that `fopen` opens for reading.
  pub contents : List ℕ → Option (List ℕ)

-- A label that was put is found, and the others are found as before.
pub record IsMap (env : Env) : Type 0 where
  pub put_same : (k : List ℕ) (l : Label) (m : Labels) → env.hmap_put k l m k ≡ some l
  pub put_other : (k k' : List ℕ) (l : Label) (m : Labels) → k' ≢ k → env.hmap_put k l m k' ≡ m k'

-- `init_parse_result`
abbrev pub init_parse_result : Parse
init_parse_result = record {
  n_files = 0;
  errors = 0;
  warnings = 0;
  instns = [];
  memory = record { size = 0; cell = λ _. 0 };
  memsz = 0;
  labels = λ _. none;
  label_refs = [];
  referenced = [];
  erange = Bool.false;
}

-- `report(result, P_ERROR, …)`
abbrev pub report_error : Parse → Parse
report_error r = record r { errors = (r.errors + 1) % 2 ^ 32 }

-- `report(result, P_WARN, …)`
abbrev pub report_warning : Parse → Parse
report_warning r = record r { warnings = (r.warnings + 1) % 2 ^ 32 }

abbrev pub add_label : Env → (label_token : List ℕ) → (offset : ℕ) → Bool → Parse → Parse
add_label env label_token offset is_mem_ref r = record r {
  labels = env.hmap_put label_token (record { offset = offset; is_mem_ref = is_mem_ref }) r.labels;
}
