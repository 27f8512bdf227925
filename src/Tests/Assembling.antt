-- ===== src/Tests/Assembling.antt =====
-- The assembler's parser on small inputs.
use bvgz_vm.Common.{
  ℕ, ◌+◌, ◌<◌, ◌%◌, ◌^◌, ◌≡◌, refl, ◌↔◌, true, Option, none, some, List, [], ◌∷◌, ◌++◌, map, length,
  get_elem?, All, if◌then◌else◌, arith, inl,
}
use bvgz_vm.Vm.{minus_one32}
use bvgz_vm.Memory.{read_le}
use bvgz_vm.Instn.Table.{InstnDef, codes, instn_defs}
use bvgz_vm.Codegen.{Labels, Label}
use bvgz_vm.Asm.{Env, Parse, init_parse_result}
use bvgz_vm.Asm.Number.{read_digits}
use bvgz_vm.Asm.Instruction.{strcmp_eq, find_instn, matched, add_instn}
use bvgz_vm.Asm.Instruction.Table.{find_instn_iff, xor_count_crashes}
use bvgz_vm.Asm.Arg.Text.{number, pointer, label}
use bvgz_vm.Asm.Section.{grow_size}
use bvgz_vm.Asm.Section.Growth.{Extends}
use bvgz_vm.Asm.Data.{find_file, add_str_to_memory, add_hex_to_memory}
use bvgz_vm.Asm.Data.Text.{quoted, add_str_to_memory-quoted}
use bvgz_vm.Asm.Data.Zero.{data_at_zero_hangs}
use bvgz_vm.Asm.Directive.{Options, data_options}
use bvgz_vm.Asm.Directive.Fuel.{data_options_ends}
use bvgz_vm.Asm.Lines.{parse_line}
use bvgz_vm.Asm.Lines.Tokens.{items_text, comment, separator}
use bvgz_vm.Asm.Text.{assembled}
use bvgz_vm.Asm.Text.Line.{Operand, IsOperand, item_of, written_of, parse_line-instruction}
use bvgz_vm.Asm.Files.{parse_asm}
use bvgz_vm.Asm.Files.Root.{parse_asm_needs_direct}
use bvgz_vm.Asm.References.{resolve_data_label_refs}
use bvgz_vm.Asm.References.Laws.{HoldsAddress, resolve_data_label_refs_lem}
use bvgz_vm.Asm.Sound.{IsSound}
use bvgz_vm.Asm.Sound.Lines.{parse_asm-IsSound}

abbrev put_label : List ℕ → Label → Labels → Labels
unfolding strcmp_eq
put_label k l m k' = if strcmp_eq k k' then some l else m k'

abbrev root_name : List ℕ
root_name = codes "a.basm"

-- A directory that holds the one file
abbrev env_of : List ℕ → Env
unfolding strcmp_eq
env_of text = record {
  hmap_put = put_label;
  hset_add = ◌∷◌;
  exists = strcmp_eq root_name;
  contents = λ path. if strcmp_eq root_name path then some text else none;
}

abbrev source : List ℕ
source =
    codes "_entry: ; start"
    ++ b'\n' ∷ codes "  add *0x10, 5 , 300"
    ++ b'\n' ∷ (codes "%data @x \"hi\\n\" /8" ++ b'\n' ∷ [])

abbrev parsed_or : Parse → Option (Option Parse) → Parse
parsed_or r (some (some r')) = r'
parsed_or r _ = r

abbrev parsed : Parse
unfolding parse_asm
parsed = parsed_or init_parse_result (parse_asm 2 (env_of source) root_name [])

one_instruction : (length parsed.instns ≡ 1) × (parsed.errors ≡ 0)
unfolding parsed parse_asm instn_defs strcmp_eq env_of read_digits
one_instruction = (refl, refl)

text_in_memory : (parsed.memsz ≡ 8) × (read_le 4 parsed.memory.cell 0 ≡ 0x000A6968)
unfolding parsed parse_asm instn_defs strcmp_eq env_of read_digits read_le
text_in_memory = (refl, refl)

parsed_is : parse_asm 2 (env_of source) root_name [] ≡ some (some parsed)
unfolding parsed parse_asm instn_defs strcmp_eq env_of read_digits
parsed_is = refl

parse_asm-IsSound_example : IsSound parsed
parse_asm-IsSound_example = parse_asm-IsSound 2 (env_of source) root_name [] parsed parsed_is

abbrev add_3 : InstnDef
unfolding instn_defs
add_3 = elim (get_elem? instn_defs 1) [
  | some d ↦ d
  | none ↦ record {
    name = [];
    opcode = 0;
    arg_count = 0;
    flags = 0;
    handler = bvgz_vm.Instn.Table.op_nop_0;
  }
]

add_3_is : get_elem? instn_defs 1 ≡ some add_3
unfolding add_3 instn_defs
add_3_is = refl

abbrev operands : List Operand
operands =
    record { before = codes " "; written = pointer 1 0x10 }
    ∷ record { before = codes ", "; written = number 0 5 }
    ∷ record { before = codes " ,"; written = label (codes "x") }
    ∷ []

operands-AllOperand : All IsOperand operands
operands-AllOperand = (
  (tt, ((refl, refl), tt), (omega arith, omega arith), tt),
  (
    (tt, ((refl, refl), ((refl, refl), tt)), (omega arith, omega arith), tt),
    (
      (
        tt,
        ((refl, refl), ((refl, refl), tt)),
        (refl, refl, refl, refl, refl, omega arith),
        ((refl, refl, refl), tt),
      ),
      tt,
    ),
  ),
)

parse_line-instruction_example :
    parse_line
      (env_of [])
      (λ path r. none)
      []
      (codes "  " ++ (add_3.name ++ (items_text (map item_of operands) ++ codes " ; sum")))
      init_parse_result
    ≡ some (assembled (env_of []) add_3 (written_of operands) init_parse_result)
unfolding add_3
parse_line-instruction_example =
    parse_line-instruction (env_of []) (λ path r. none) [] (codes "  ") 1 add_3 operands
      (codes " ; sum") init_parse_result (refl, (refl, tt)) add_3_is operands-AllOperand refl refl
      (separator (refl, refl) (comment (codes " sum")))

find_instn_iff_example : (find_instn (codes "add") 3 ≡ some (matched add_3)) ↔ (
    ((i : ℕ) × (get_elem? instn_defs i ≡ some add_3))
    × (codes "add" ≡ add_3.name)
    × (add_3.arg_count ≡ 3))
find_instn_iff_example = find_instn_iff (codes "add") 3 add_3

xor_count_crashes_example :
    add_instn (env_of []) (codes "xor") (codes "x" ∷ []) init_parse_result ≡ none
xor_count_crashes_example =
    xor_count_crashes (env_of []) (codes "x" ∷ []) init_parse_result (λ e. absurd (omega arith))
      (λ e. absurd (omega arith))

-- A quotation mark, a newline and a letter
abbrev some_bytes : List ℕ
some_bytes = 34 ∷ 10 ∷ 120 ∷ []

add_str_to_memory-quoted_example :
    (r' : Parse) × (add_str_to_memory
        (env_of [])
        none
        (b'"' ∷ (quoted some_bytes ++ b'"' ∷ []))
        minus_one32
        minus_one32
        init_parse_result
      ≡ some r')
    × Extends (some_bytes ++ 0 ∷ []) init_parse_result r'
add_str_to_memory-quoted_example =
    add_str_to_memory-quoted (env_of []) none some_bytes [] init_parse_result (omega arith)
      (omega arith) (omega arith)

init-IsSound : IsSound init_parse_result
init-IsSound = ((omega arith, omega arith, omega arith), tt)

data_at_zero_hangs_example :
    (grow_size 1000 ((0 + minus_one32) % 2 ^ 32) 0 ≡ none)
    × (add_str_to_memory (env_of []) none (codes "\"x\"") minus_one32 0 init_parse_result ≡ none)
    × (add_hex_to_memory (env_of []) none (codes "\"x\"") minus_one32 0 init_parse_result ≡ none)
data_at_zero_hangs_example =
    data_at_zero_hangs (env_of []) none (codes "\"x\"") init_parse_result 1000 init-IsSound

abbrev options : Options
options = record { size = minus_one32; offset = minus_one32; parse = init_parse_result }

data_options_ends_example :
    (o : Options) × ((fuel : ℕ)
      → length (codes ":4 /8 ") < fuel
      → data_options fuel (codes ":4 /8 ") options ≡ some o)
data_options_ends_example = data_options_ends (codes ":4 /8 ") options refl

-- A file that is there in the directory `lib` alone
abbrev lib_env : Env
unfolding strcmp_eq
lib_env = record (env_of []) {
  exists = strcmp_eq (codes "lib/a");
  contents = λ path. if strcmp_eq (codes "lib/a") path then some [] else none;
}

parse_asm_needs_direct_example : parse_asm 5 lib_env (codes "a") (codes "lib" ∷ []) ≡ none
unfolding find_file lib_env
parse_asm_needs_direct_example =
    parse_asm_needs_direct 5 lib_env (codes "a") (codes "lib/a") (codes "lib" ∷ []) refl refl refl

-- A reference of four bytes at 4 to a label of the data at 12
abbrev referring : Parse
referring = record init_parse_result {
  memory = record { size = 20; cell = λ q. 0 };
  memsz = 16;
  labels = λ k. some (record { offset = 12; is_mem_ref = true });
  label_refs = record { label = codes "x"; size = 4; write_offset = 4 } ∷ [];
}

resolve_data_label_refs_lem_example :
    (c : ℕ → ℕ) × (resolve_data_label_refs referring
      ≡ some (true, record referring { memory = record { size = 20; cell = c } }))
    × All (HoldsAddress referring.labels referring.instns c) referring.label_refs
resolve_data_label_refs_lem_example =
    resolve_data_label_refs_lem referring (((12, refl), inl refl, omega arith), tt) (tt, tt)
