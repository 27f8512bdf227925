-- ===== src/Asm/Files.antt =====
-- `parse_asm` and `parse_asm_into` of src/parser.c: the lines of a file, the files that it includes, and
-- the check that every label that an instruction refers to is there.
pub mod Root
use bvgz_vm.Common.{
  ℕ, zero, suc, ◌+◌, ◌-◌, ◌%◌, ◌^◌, Bool, true, false, not, ◌&&◌, ◌||◌, List, [], ◌∷◌, ◌++◌, Option,
  none, some, leb, ltb, ◌==◌, length, if◌then◌else◌,
}
use bvgz_vm.Codegen.{◌>>=◌, Labels}
use bvgz_vm.Asm.{Env, Parse, init_parse_result, report_error}
use bvgz_vm.Asm.Data.{find_file}
use bvgz_vm.Asm.Lines.{ParseFile, parse_line}

-- The text of a line up to the first NUL, which is all that the string functions see.
unfoldable pub c_string : List ℕ → List ℕ
c_string [] = []
c_string (c ∷ cs) = let rest = c_string cs in if c == 0 then [] else c ∷ rest

-- `getline`, until the file ends: each line has its newline, but for a last one without.
unfoldable pub lines : List ℕ → List (List ℕ)
lines [] = []
lines (c ∷ cs) =
    let rest = lines cs in
    if c == b'\n'
    then (c ∷ []) ∷ rest
    else elim rest [ [] ↦ (c ∷ []) ∷ [] | line ∷ later ↦ (c ∷ line) ∷ later ]

-- `while (getline(&line, &sz, fp) > 0)`
unfoldable pub parse_lines :
    Env → ParseFile → (include_paths : List (List ℕ)) → List (List ℕ) → Parse → Option Parse
unfolding c_string parse_line
parse_lines env parse_file include_paths [] r = some r
parse_lines env parse_file include_paths (line ∷ later) r = do
  r' ← parse_line env parse_file include_paths (c_string line) r
  parse_lines env parse_file include_paths later r'

-- The fuel is the depth to which files include one another. A file that does not open is undefined.
unfoldable pub parse_asm_into :
    (depth : ℕ) → Env → (include_paths : List (List ℕ)) → (filename : List ℕ) → Parse → Option Parse
unfolding lines parse_lines
parse_asm_into zero env include_paths filename r = none
parse_asm_into (suc depth) env include_paths filename r = do
  bytes ← env.contents filename
  r' ← parse_lines env (parse_asm_into depth env include_paths) include_paths (lines bytes) r
  some (record r' { n_files = (r'.n_files + 1) % 2 ^ 32 })

-- `label_refs_visitor`, on each label of the set
unfoldable pub label_refs_visitor : Parse → (label : List ℕ) → Parse
label_refs_visitor r label = elim (r.labels label) [ none ↦ report_error r | some l ↦ r ]

-- `hmap_iterate(label_refs, result, label_refs_visitor)`
unfoldable pub check_references : List (List ℕ) → Parse → Parse
unfolding label_refs_visitor
check_references [] r = r
check_references (l ∷ ls) r = check_references ls (label_refs_visitor r l)

-- What stands before the last slash, where there is one: `strrchr` and `strndup`.
unfoldable pub directory : List ℕ → Option (List ℕ)
directory [] = none
directory (c ∷ cs) = elim (directory cs) [
  | some d ↦ some (c ∷ d)
  | none ↦ if c == b'/' then some [] else none
]

-- The paths are searched with the directory of the root file in front. No result in the inner option
-- stands for NULL.
unfoldable pub parse_asm :
    (depth : ℕ)
    → Env
    → (filename : List ℕ) → (include_paths : List (List ℕ)) → Option (Option Parse)
unfolding directory find_file parse_asm_into check_references
parse_asm depth env filename include_paths =
    let paths =
      if env.exists filename
      then elim (directory filename) [ none ↦ include_paths | some d ↦ d ∷ include_paths ]
      else include_paths in
    let found : Bool =
      if env.exists filename
      then true
      else elim (find_file env filename include_paths) [ none ↦ false | some path ↦ true ] in
    if found
    then (do
      r ← parse_asm_into depth env paths filename init_parse_result
      some (some (check_references r.referenced r)))
    else some none
