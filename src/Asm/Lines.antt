-- ===== src/Asm/Lines.antt =====
-- `parse_line`, `parse_preproc_line` and `parse_preproc_include` of src/parser.c. The file that an
-- include names is parsed by an argument, `parse_file`. A line is its text up to the NUL.
pub mod Tokens
use bvgz_vm.Common.{
  ℕ, zero, suc, ◌+◌, ◌-◌, ◌%◌, ◌^◌, Bool, true, false, not, ◌&&◌, ◌||◌, List, [], ◌∷◌, ◌++◌, Option,
  none, some, leb, ltb, ◌==◌, length, if◌then◌else◌,
}
use bvgz_vm.Codegen.{◌>>=◌}
use bvgz_vm.Instn.Table.{codes}
use bvgz_vm.Asm.{Env, Parse, report_error, add_label}
use bvgz_vm.Asm.Number.{isspace, skip_spaces}
use bvgz_vm.Asm.Arg.{at_end, starts_with}
use bvgz_vm.Asm.Instruction.{add_instn}
use bvgz_vm.Asm.Data.{find_file, searched}
use bvgz_vm.Asm.Directive.{read_word, next_token, skip, parse_preproc_data}

-- `MAX_TOKENS`
abbrev pub max_tokens : ℕ
max_tokens = 4

-- The variables of the loop over a line: `tokens` are those before `tokens[tkn]`, whose text so far is
-- `current`.
pub record Scan : Type 0 where
  pub tokens : List (List ℕ)
  pub current : List ℕ
  pub mark_token : Bool
  pub parse_instn : Bool
  pub parse : Parse

-- `if (parse_instn) add_instn(…)`
unfoldable pub finish_line : Env → Scan → Option Parse
unfolding add_instn
finish_line env s =
    if s.parse_instn
    then elim (s.tokens ++ s.current ∷ []) [
      | [] ↦ none
      | name ∷ tokens ↦ add_instn env name tokens s.parse
    ]
    else some s.parse

-- The loop over the characters, and what follows it. A token behind the last place of the array is
-- undefined.
unfoldable pub scan_line : Env → List ℕ → Scan → Option Parse
unfolding finish_line
scan_line env [] s = finish_line env s
scan_line env (c ∷ cs) s =
    if c == b';'
    then finish_line env s
    else if isspace c || c == b','
    then scan_line env cs (record s { mark_token = true })
    else if length s.tokens == 0 && c == b':'
    then scan_line env cs (record s {
      parse_instn = false;
      parse = add_label env s.current (length s.parse.instns) false s.parse;
    })
    else if not s.parse_instn
    then some (report_error s.parse)
    else if s.mark_token
    then (if leb max_tokens (length s.tokens + 1)
        then none
        else scan_line env cs (record s {
          tokens = s.tokens ++ s.current ∷ [];
          current = c ∷ [];
          mark_token = false;
        }))
    else scan_line env cs (record s { current = s.current ++ c ∷ [] })

-- `strncmp(line, prefix, n) == 0` with the length of the prefix
unfoldable pub has_prefix : (prefix line : List ℕ) → Bool
has_prefix [] line = true
has_prefix (p ∷ ps) [] = false
has_prefix (p ∷ ps) (c ∷ cs) = let rest = has_prefix ps cs in if p == c then rest else false

-- A file to parse into the result
abbrev pub ParseFile : Type 0
ParseFile = (path : List ℕ) → Parse → Option Parse

unfoldable pub parse_preproc_include :
    Env → ParseFile → (include_paths : List (List ℕ)) → (line : List ℕ) → Parse → Option Parse
unfolding skip read_word skip_spaces find_file searched
parse_preproc_include env parse_file include_paths line r = do
  file ← skip 9 line
  let (word, rest) = next_token file
  if at_end word then some (report_error r) else elim (find_file env word include_paths) [
    | none ↦ some (report_error (searched env word include_paths r))
    | some filepath ↦ parse_file filepath (searched env word include_paths r)
  ]

unfoldable pub parse_preproc_line :
    Env → ParseFile → (include_paths : List (List ℕ)) → (line : List ℕ) → Parse → Option Parse
unfolding has_prefix parse_preproc_data parse_preproc_include
parse_preproc_line env parse_file include_paths line r =
    if has_prefix (codes "%data") line
    then parse_preproc_data env include_paths line r
    else if has_prefix (codes "%include") line
    then parse_preproc_include env parse_file include_paths line r
    else some r

-- A directive is read from the start of the line, spaces included.
unfoldable pub parse_line :
    Env → ParseFile → (include_paths : List (List ℕ)) → (line : List ℕ) → Parse → Option Parse
unfolding skip_spaces parse_preproc_line scan_line
parse_line env parse_file include_paths line r =
    let p = skip_spaces line in
    if at_end p || starts_with b';' p
    then some r
    else if starts_with b'%' p
    then parse_preproc_line env parse_file include_paths line r
    else scan_line env p
        (record { tokens = []; current = []; mark_token = false; parse_instn = true; parse = r })
