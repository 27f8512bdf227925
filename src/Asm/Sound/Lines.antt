-- ===== src/Asm/Sound/Lines.antt =====
-- What `parse_line` and `parse_asm` of src/parser.c build, whatever the files hold.
use bvgz_vm.Common.{
  ℕ, zero, suc, ◌+◌, ◌≡◌, true, false, not, ◌&&◌, ◌||◌, List, [], ◌∷◌, ◌++◌, Option, none, some,
  leb, ◌==◌, arith, if◌then◌else◌, length,
}
use bvgz_vm.Instn.Table.{codes}
use bvgz_vm.Asm.{Env, Parse, init_parse_result, report_error, add_label}
use bvgz_vm.Asm.Number.{isspace, skip_spaces}
use bvgz_vm.Asm.Arg.{at_end, starts_with}
use bvgz_vm.Asm.Instruction.{add_instn}
use bvgz_vm.Asm.Data.{find_file, searched}
use bvgz_vm.Asm.Directive.{skip, next_token}
use bvgz_vm.Asm.Lines.{
  max_tokens, Scan, finish_line, scan_line, has_prefix, ParseFile, parse_preproc_include,
  parse_preproc_line, parse_line,
}
use bvgz_vm.Asm.Files.{
  c_string, lines, parse_lines, parse_asm_into, label_refs_visitor, check_references, directory,
  parse_asm,
}
use bvgz_vm.Asm.Sound.{IsSound, Ensures, Ensures-eq, any-Ensures, bind-Ensures, cond-Ensures}
use bvgz_vm.Asm.Sound.Data.{searched-IsSound, IsOk, then-IsOk}
use bvgz_vm.Asm.Sound.Directive.{parse_preproc_data-IsOk}
use bvgz_vm.Asm.Sound.Instruction.{add_instn-IsSound}

named-IsOk :
    (env : Env) (tokens : List (List ℕ)) (r : Parse)
    → IsSound r
    → IsOk (elim tokens [ [] ↦ none | name ∷ tokens' ↦ add_instn env name tokens' r ])
named-IsOk env [] r s = tt
named-IsOk env (name ∷ tokens) r s = add_instn-IsSound env name tokens r s

finish_line-IsOk : (env : Env) (s : Scan) → IsSound s.parse → IsOk (finish_line env s)
unfolding finish_line
finish_line-IsOk env s h =
    cond-Ensures IsSound s.parse_instn _ (some s.parse)
      (named-IsOk env (s.tokens ++ s.current ∷ []) s.parse h) h

scan_line-IsOk : (env : Env) (cs : List ℕ) (s : Scan) → IsSound s.parse → IsOk (scan_line env cs s)
unfolding scan_line
scan_line-IsOk env [] s h = finish_line-IsOk env s h
scan_line-IsOk env (c ∷ cs) s h = cond-Ensures IsSound (c == b';') _ _ (finish_line-IsOk env s h) (
    cond-Ensures IsSound (isspace c || c == b',') _ _
      (scan_line-IsOk env cs (record s { mark_token = true }) h)
      (cond-Ensures IsSound (length s.tokens == 0 && c == b':') _ _
        (scan_line-IsOk env cs
          (record s {
            parse_instn = false;
            parse = add_label env s.current (length s.parse.instns) false s.parse;
          })
          h)
        (cond-Ensures IsSound (not s.parse_instn) (some (report_error s.parse)) _ h (
          cond-Ensures IsSound s.mark_token _ _
            (cond-Ensures IsSound (leb max_tokens (length s.tokens + 1)) none _ tt (
              scan_line-IsOk env cs
                (record s {
                  tokens = s.tokens ++ s.current ∷ [];
                  current = c ∷ [];
                  mark_token = false;
                })
                h))
            (scan_line-IsOk env cs (record s { current = s.current ++ c ∷ [] }) h)))))

-- A file that is included is parsed soundly.
abbrev IsSoundFile : ParseFile → Type 0
IsSoundFile parse_file = (path : List ℕ) (r : Parse) → IsSound r → IsOk (parse_file path r)

found-IsOk :
    (parse_file : ParseFile) (r : Parse)
    → IsSoundFile parse_file
    → IsSound r
    → (found : Option (List ℕ))
    → IsOk (elim found [ none ↦ some (report_error r) | some filepath ↦ parse_file filepath r ])
found-IsOk parse_file r files s none = s
found-IsOk parse_file r files s (some filepath) = files filepath r s

parse_preproc_line-IsOk :
    (env : Env) (parse_file : ParseFile) (include_paths : List (List ℕ)) (line : List ℕ) (r : Parse)
    → IsSoundFile parse_file
    → IsSound r
    → IsOk (parse_preproc_line env parse_file include_paths line r)
unfolding parse_preproc_line parse_preproc_include
parse_preproc_line-IsOk env parse_file include_paths line r files s =
    cond-Ensures IsSound (has_prefix (codes "%data") line) _ _
      (parse_preproc_data-IsOk env include_paths line r s)
      (cond-Ensures IsSound (has_prefix (codes "%include") line) _ (some r)
        (any-Ensures IsSound (skip 9 line) _ λ file.
          cond-Ensures IsSound (at_end (next_token file).0) (some (report_error r)) _ s (
            found-IsOk parse_file (searched env (next_token file).0 include_paths r) files
              (searched-IsSound env (next_token file).0 include_paths r s)
              (find_file env (next_token file).0 include_paths)))
        s)

pub parse_line-IsOk :
    (env : Env) (parse_file : ParseFile) (include_paths : List (List ℕ)) (line : List ℕ) (r : Parse)
    → IsSoundFile parse_file
    → IsSound r
    → IsOk (parse_line env parse_file include_paths line r)
unfolding parse_line
parse_line-IsOk env parse_file include_paths line r files s =
    let p = skip_spaces line in
    cond-Ensures IsSound (at_end p || starts_with b';' p) (some r) _ s (
      cond-Ensures IsSound (starts_with b'%' p) _ _
        (parse_preproc_line-IsOk env parse_file include_paths line r files s)
        (scan_line-IsOk env p
          (record { tokens = []; current = []; mark_token = false; parse_instn = true; parse = r })
          s))

parse_lines-IsOk :
    (env : Env) (parse_file : ParseFile) (include_paths : List (List ℕ)) (ls : List (List ℕ))
    (r : Parse)
    → IsSoundFile parse_file
    → IsSound r
    → IsOk (parse_lines env parse_file include_paths ls r)
unfolding parse_lines
parse_lines-IsOk env parse_file include_paths [] r files s = s
parse_lines-IsOk env parse_file include_paths (line ∷ later) r files s =
    then-IsOk (parse_line env parse_file include_paths (c_string line) r) _
      (parse_line-IsOk env parse_file include_paths (c_string line) r files s)
      (λ r' s'. parse_lines-IsOk env parse_file include_paths later r' files s')

parse_asm_into-IsOk :
    (depth : ℕ) (env : Env) (include_paths : List (List ℕ))
    → IsSoundFile (parse_asm_into depth env include_paths)
unfolding parse_asm_into
parse_asm_into-IsOk zero env include_paths filename r s = tt
parse_asm_into-IsOk (suc depth) env include_paths filename r s =
    any-Ensures IsSound (env.contents filename) _ λ bytes.
      then-IsOk
        (parse_lines env (parse_asm_into depth env include_paths) include_paths (lines bytes) r) _
        (parse_lines-IsOk env (parse_asm_into depth env include_paths) include_paths (lines bytes) r
          (parse_asm_into-IsOk depth env include_paths) s)
        (λ r' s'. s')

visited-IsSound :
    {A : Type 0} (r : Parse)
    → IsSound r
    → (found : Option A) → IsSound (elim found [ none ↦ report_error r | some l ↦ r ])
visited-IsSound r s none = s
visited-IsSound r s (some l) = s

check_references-IsSound :
    (ls : List (List ℕ)) (r : Parse) → IsSound r → IsSound (check_references ls r)
unfolding check_references label_refs_visitor
check_references-IsSound [] r s = s
check_references-IsSound (l ∷ ls) r s =
    check_references-IsSound ls (label_refs_visitor r l) (visited-IsSound r s (r.labels l))

parse_asm-IsOk :
    (depth : ℕ) (env : Env) (filename : List ℕ) (include_paths : List (List ℕ))
    → Ensures IsOk (parse_asm depth env filename include_paths)
unfolding parse_asm
parse_asm-IsOk depth env filename include_paths =
    let paths =
      if env.exists filename
      then elim (directory filename) [ none ↦ include_paths | some d ↦ d ∷ include_paths ]
      else include_paths in
    cond-Ensures IsOk _ _ (some none)
      (bind-Ensures IsSound IsOk (parse_asm_into depth env paths filename init_parse_result) _
        (parse_asm_into-IsOk depth env paths filename init_parse_result
          ((omega arith, omega arith, omega arith), tt))
        (λ r s. check_references-IsSound r.referenced r s))
      tt

-- Whatever the files hold, a parse that `parse_asm` returns uses no more of its memory than is
-- allocated, which is less than 4 GiB, and each of its instructions is an entry of the table with as
-- many arguments as it takes. The size of an argument is one of its type; an immediate value fits in its
-- size, and the size of a reference is 4, whatever its value.
pub parse_asm-IsSound :
    (depth : ℕ) (env : Env) (filename : List ℕ) (include_paths : List (List ℕ)) (r : Parse)
    → parse_asm depth env filename include_paths ≡ some (some r)
    → IsSound r
parse_asm-IsSound depth env filename include_paths r e =
    Ensures-eq IsOk (parse_asm depth env filename include_paths) (some r)
      (parse_asm-IsOk depth env filename include_paths) e
