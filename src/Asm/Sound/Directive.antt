-- ===== src/Asm/Sound/Directive.antt =====
-- `parse_preproc_data` of src/parser.c keeps what the parser keeps.
use bvgz_vm.Common.{
  leb, ℕ, zero, suc, Bool, true, false, not, ◌&&◌, ◌||◌, List, ◌++◌, Option, none, some, ltb, ◌==◌,
  length, if◌then◌else◌,
}
use bvgz_vm.Vm.{minus_one32}
use bvgz_vm.Codegen.{◌>>=◌}
use bvgz_vm.Asm.{Env, Parse, report_error, report_warning}
use bvgz_vm.Asm.Number.{strtoul32}
use bvgz_vm.Asm.Arg.{at_end, starts_with, tail}
use bvgz_vm.Asm.Directive.{
  Options, offset_option, size_option, parse_preproc_data_no, data_options, add_data, checked,
  parse_data, skip, behind, next_token, next_required, parse_string_literal, parse_preproc_data,
  is_hex,
}
use bvgz_vm.Asm.Sound.{IsSound, Ensures, any-Ensures, bind-Ensures, cond-Ensures}
use bvgz_vm.Asm.Sound.Data.{
  IsOk, cond-IsSound, add_str_to_memory-IsOk, add_hex_to_memory-IsOk, add_label_to_memory-IsOk,
  add_file_to_memory-IsOk,
}

cond-snd :
    (b : Bool) (t u : ℕ × Parse)
    → IsSound t.1
    → IsSound u.1
    → IsSound (if◌then◌else◌ {A = ℕ × Parse} b t u).1
cond-snd true t u s s' = s
cond-snd false t u s s' = s'

parse_preproc_data_no-IsSound :
    (text : List ℕ) (r : Parse) → IsSound r → IsSound (parse_preproc_data_no text r).1
unfolding parse_preproc_data_no
parse_preproc_data_no-IsSound text r s =
    let n = strtoul32 10 text in
    let r' : Parse = record r { erange = n.erange || r.erange } in
    cond-snd (at_end n.endp || starts_with b';' n.endp) (n.value, r') (0, report_error r') s s

-- The options change the counts of reports alone.
abbrev HasParse : Options → Type 0
HasParse o = IsSound o.parse

offset_option-HasParse :
    (text : List ℕ) (o : Options) → HasParse o → HasParse (offset_option text o)
unfolding offset_option
offset_option-HasParse text o s =
    let r = if o.offset == minus_one32 then o.parse else report_error o.parse in
    let t = parse_preproc_data_no text r in
    let s' =
      parse_preproc_data_no-IsSound text r
        (cond-IsSound (o.offset == minus_one32) o.parse (report_error o.parse) s s) in
    cond-IsSound (not (t.0 == 0) && ltb t.0 t.1.memsz) (report_warning t.1) t.1 s' s'

size_option-HasParse : (text : List ℕ) (o : Options) → HasParse o → HasParse (size_option text o)
unfolding size_option
size_option-HasParse text o s =
    parse_preproc_data_no-IsSound text
      (if o.offset == minus_one32 then o.parse else report_error o.parse)
      (cond-IsSound (o.offset == minus_one32) o.parse (report_error o.parse) s s)

data_options-HasParse :
    (fuel : ℕ) (token : List ℕ) (o : Options)
    → HasParse o
    → Ensures HasParse (data_options fuel token o)
unfolding data_options
data_options-HasParse zero token o s = tt
data_options-HasParse (suc fuel) token o s =
    let t = next_token token in
    cond-Ensures HasParse (at_end t.0) (some o) _ s (
      cond-Ensures HasParse (starts_with b':' t.0) _ _
        (any-Ensures HasParse (behind t.1) _ (λ rest.
          data_options-HasParse fuel rest (offset_option (tail t.0) o)
            (offset_option-HasParse (tail t.0) o s)))
        (cond-Ensures HasParse (starts_with b'/' t.0) _ _
          (any-Ensures HasParse (behind t.1) _ (λ rest.
            data_options-HasParse fuel rest (size_option (tail t.0) o)
              (size_option-HasParse (tail t.0) o s)))
          s))

checked-IsOk : (m : Option Parse) → IsOk m → IsOk (m >>= checked)
checked-IsOk m k =
    bind-Ensures IsSound IsSound m checked k
      (λ r s. cond-Ensures IsSound (leb r.memsz r.memory.size) (some r) none s tt)

add_data-IsOk :
    (env : Env) (include_paths : List (List ℕ)) (label : Option (List ℕ)) (datum : List ℕ)
    (o : Options)
    → HasParse o
    → IsOk (add_data env include_paths label datum o)
unfolding add_data
add_data-IsOk env include_paths label datum o s =
    cond-Ensures IsSound (starts_with b'=' datum) _ _
      (checked-IsOk _
        (add_file_to_memory-IsOk env label (tail datum) o.size o.offset include_paths o.parse s))
      (cond-Ensures IsSound (starts_with b'"' datum) _ _
        (checked-IsOk _ (add_str_to_memory-IsOk env label datum o.size o.offset o.parse s))
        (cond-Ensures IsSound (is_hex datum) _ _
          (checked-IsOk _ (add_hex_to_memory-IsOk env label datum o.size o.offset o.parse s))
          (cond-Ensures IsSound (starts_with b'&' datum) _ _
            (add_label_to_memory-IsOk env label (tail datum) o.size o.offset o.parse s) s)))

parse_data-IsOk :
    (env : Env) (include_paths : List (List ℕ)) (label : Option (List ℕ)) (word rest : List ℕ)
    (r : Parse)
    → IsSound r
    → IsOk (parse_data env include_paths label word rest r)
unfolding parse_data
parse_data-IsOk env include_paths label word rest r s =
    let t = if starts_with b'"' word then parse_string_literal (word ++ rest) else (word, rest) in
    any-Ensures IsSound (behind t.1) _ λ token.
      bind-Ensures HasParse IsSound (data_options (suc (length token)) token _) _
        (data_options-HasParse (suc (length token)) token
          (record { size = minus_one32; offset = minus_one32; parse = r }) s)
        (add_data-IsOk env include_paths label t.0)

labelled-IsOk :
    (env : Env) (include_paths : List (List ℕ)) (word : List ℕ) (r : Parse)
    → IsSound r
    → (next : Option (List ℕ × List ℕ))
    → IsOk (elim next [
      | none ↦ some (report_error r)
      | some (word', rest') ↦ parse_data env include_paths (some word) word' rest' r
    ])
labelled-IsOk env include_paths word r s none = s
labelled-IsOk env include_paths word r s (some (word', rest')) =
    parse_data-IsOk env include_paths (some word) word' rest' r s

first-IsOk :
    (env : Env) (include_paths : List (List ℕ)) (r : Parse)
    → IsSound r
    → (next : Option (List ℕ × List ℕ))
    → IsOk (elim next [
      | none ↦ some (report_error r)
      | some (word, rest) ↦
          if starts_with b'@' word
          then (do
            token' ← behind rest
            elim (next_required token') [
              | none ↦ some (report_error r)
              | some (word', rest') ↦ parse_data env include_paths (some word) word' rest' r
            ])
          else parse_data env include_paths none word rest r
    ])
first-IsOk env include_paths r s none = s
first-IsOk env include_paths r s (some (word, rest)) =
    cond-Ensures IsSound (starts_with b'@' word) _ _
      (any-Ensures IsSound (behind rest) _
        λ token'. labelled-IsOk env include_paths word r s (next_required token'))
      (parse_data-IsOk env include_paths none word rest r s)

pub parse_preproc_data-IsOk :
    (env : Env) (include_paths : List (List ℕ)) (line : List ℕ) (r : Parse)
    → IsSound r
    → IsOk (parse_preproc_data env include_paths line r)
unfolding parse_preproc_data
parse_preproc_data-IsOk env include_paths line r s =
    any-Ensures IsSound (skip 6 line) _
      λ token. first-IsOk env include_paths r s (next_required token)
