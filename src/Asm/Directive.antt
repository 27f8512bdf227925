-- ===== src/Asm/Directive.antt =====
-- `parse_preproc_data` of src/parser.c, with `parse_preproc_data_no`, `parse_string_literal` and the
-- macro NEXT_TOKEN. A string is what stands from a pointer to the NUL; a pointer that passes the NUL
-- is undefined.
pub mod Fuel
use bvgz_vm.Common.{
  ℕ, zero, suc, ◌+◌, ◌-◌, ◌%◌, ◌^◌, Bool, true, false, not, ◌&&◌, ◌||◌, List, [], ◌∷◌, ◌++◌, Option,
  none, some, leb, ltb, ◌==◌, length, if◌then◌else◌,
}
use bvgz_vm.Vm.{minus_one32}
use bvgz_vm.Codegen.{◌>>=◌}
use bvgz_vm.Asm.{Env, Parse, report_error, report_warning}
use bvgz_vm.Asm.Number.{isspace, skip_spaces, strtoul32, Converted}
use bvgz_vm.Asm.Arg.{at_end, starts_with, tail}
use bvgz_vm.Asm.Data.{add_str_to_memory, add_hex_to_memory, add_label_to_memory, add_file_to_memory}

-- `while (*p && !isspace(*p) && *p != ';') p++;`: the text up to `p`, and the text from `p` on
unfoldable pub read_word : List ℕ → List ℕ × List ℕ
read_word [] = ([], [])
read_word (c ∷ cs) =
    let (word, rest) = read_word cs in
    if isspace c || c == b';' then ([], c ∷ cs) else (c ∷ word, rest)

-- `NEXT_TOKEN(0)`: the token, and the text from `p` on
abbrev pub next_token : List ℕ → List ℕ × List ℕ
next_token s = read_word (skip_spaces s)

-- `NEXT_TOKEN(1)`, which returns on an empty token and at the end of the line
abbrev pub next_required : List ℕ → Option (List ℕ × List ℕ)
next_required s =
    let (word, rest) = next_token s in
    if at_end word || at_end rest then none else some (word, rest)

-- `p + 1`
abbrev pub behind : List ℕ → Option (List ℕ)
behind [] = none
behind (c ∷ cs) = some cs

-- `while (*c)`: the text up to the quotation mark that no backslash precedes, and what stands behind.
unfoldable pub read_literal : (prev : ℕ) → List ℕ → List ℕ × List ℕ
read_literal prev [] = ([], [])
read_literal prev (c ∷ cs) =
    let (text, rest) = read_literal c cs in
    if c == b'"' && not (prev == b'\\') then (c ∷ [], cs) else (c ∷ text, rest)

-- `token` starts with a quotation mark.
unfoldable pub parse_string_literal : (token : List ℕ) → List ℕ × List ℕ
unfolding read_literal
parse_string_literal [] = ([], [])
parse_string_literal (q ∷ cs) = let (text, rest) = read_literal 0 cs in (q ∷ text, rest)

unfoldable pub parse_preproc_data_no : (numeric_str : List ℕ) → Parse → ℕ × Parse
unfolding strtoul32
parse_preproc_data_no numeric_str r =
    let n = strtoul32 10 numeric_str in
    let r' : Parse = record r { erange = n.erange || r.erange } in
    if at_end n.endp || starts_with b';' n.endp then (n.value, r') else (0, report_error r')

-- The variables of the loop over what follows the data.
pub record Options : Type 0 where
  pub size : ℕ
  pub offset : ℕ
  pub parse : Parse

-- One `:offset`
unfoldable pub offset_option : (text : List ℕ) → Options → Options
unfolding parse_preproc_data_no
offset_option text o =
    let r = if o.offset == minus_one32 then o.parse else report_error o.parse in
    let (offset, r') = parse_preproc_data_no text r in
    record o {
      offset = offset;
      parse = if not (offset == 0) && ltb offset r'.memsz then report_warning r' else r';
    }

-- One `/size`; the test for an earlier one looks at the offset.
unfoldable pub size_option : (text : List ℕ) → Options → Options
unfolding parse_preproc_data_no
size_option text o =
    let r = if o.offset == minus_one32 then o.parse else report_error o.parse in
    let (size, r') = parse_preproc_data_no text r in record o { size = size; parse = r' }

-- `while (1)`; each round takes a character at least.
unfoldable pub data_options : (fuel : ℕ) → (token : List ℕ) → Options → Option Options
unfolding read_word skip_spaces offset_option size_option
data_options zero token o = none
data_options (suc fuel) token o =
    let (word, rest) = next_token token in
    if at_end word
    then some o
    else if starts_with b':' word
    then (behind rest >>= λ s. data_options fuel s (offset_option (tail word) o))
    else if starts_with b'/' word
    then (behind rest >>= λ s. data_options fuel s (size_option (tail word) o))
    else some (record o { parse = report_error o.parse })

-- `*data == '0' && *(data + 1) == 'x' && *(data + 2)`
abbrev pub is_hex : List ℕ → Bool
is_hex text =
    starts_with b'0' text && starts_with b'x' (tail text) && not (at_end (tail (tail text)))

-- `assert(result->memsz <= result->mem_alloc)`: where it fails the program aborts.
abbrev pub checked : Parse → Option Parse
checked r = if leb r.memsz r.memory.size then some r else none

-- The kinds of data
unfoldable pub add_data :
    Env
    → (include_paths : List (List ℕ)) → (label : Option (List ℕ)) → (datum : List ℕ) → Options
    → Option Parse
unfolding add_str_to_memory add_hex_to_memory add_label_to_memory add_file_to_memory
add_data env include_paths label datum o =
    if starts_with b'=' datum
    then (add_file_to_memory env label (tail datum) o.size o.offset include_paths o.parse
        >>= checked)
    else if starts_with b'"' datum
    then (add_str_to_memory env label datum o.size o.offset o.parse >>= checked)
    else if is_hex datum
    then (add_hex_to_memory env label datum o.size o.offset o.parse >>= checked)
    else if starts_with b'&' datum
    then add_label_to_memory env label (tail datum) o.size o.offset o.parse
    else some (report_error o.parse)

-- From `data = token` on: the data is `word`, and `rest` stands behind it. A string literal is read
-- again from its quotation mark.
unfoldable pub parse_data :
    Env
    → (include_paths : List (List ℕ)) → (label : Option (List ℕ)) → (word rest : List ℕ) → Parse
    → Option Parse
unfolding parse_string_literal data_options add_data
parse_data env include_paths label word rest r = do
  let (datum, rest') =
      if starts_with b'"' word then parse_string_literal (word ++ rest) else (word, rest)
  token ← behind rest'
  o ←
      data_options (suc (length token)) token
        (record { size = minus_one32; offset = minus_one32; parse = r })
  add_data env include_paths label datum o

-- `line + sizeof(PREPROC_DATA)`: behind `%data` and one character more
unfoldable pub skip : ℕ → List ℕ → Option (List ℕ)
skip zero s = some s
skip (suc n) [] = none
skip (suc n) (c ∷ cs) = skip n cs

unfoldable pub parse_preproc_data :
    Env → (include_paths : List (List ℕ)) → (line : List ℕ) → Parse → Option Parse
unfolding skip read_word skip_spaces parse_data
parse_preproc_data env include_paths line r = do
  token ← skip 6 line
  elim (next_required token) [
    | none ↦ some (report_error r)
    | some (word, rest) ↦
        if starts_with b'@' word
        then (do
          token' ← behind rest
          elim (next_required token') [
            | none ↦ some (report_error r)
            | some (word', rest') ↦ parse_data env include_paths (some word) word' rest' r
          ])
        else parse_data env include_paths none word rest r
  ]
