-- ===== src/Asm/Files/Root.antt =====
-- A root file that only the include paths of src/parser.c find.
use bvgz_vm.Common.{ℕ, zero, suc, ◌≡◌, refl, false, List, none, some}
use bvgz_vm.Codegen.{◌>>=◌}
use bvgz_vm.Asm.{Env, Parse, init_parse_result}
use bvgz_vm.Asm.Data.{find_file}
use bvgz_vm.Asm.Files.{parse_asm_into, check_references, parse_asm}

closed_file :
    (depth : ℕ) (env : Env) (include_paths : List (List ℕ)) (filename : List ℕ) (r : Parse)
    → env.contents filename ≡ none
    → parse_asm_into depth env include_paths filename r ≡ none
unfolding parse_asm_into
closed_file zero env include_paths filename r e = refl
closed_file (suc depth) env include_paths filename r e = rw e refl

closed_root :
    (depth : ℕ) (env : Env) (include_paths : List (List ℕ)) (filename : List ℕ)
    → env.contents filename ≡ none
    → (parse_asm_into depth env include_paths filename init_parse_result >>= λ r.
        some (some (check_references r.referenced r)))
      ≡ none
closed_root depth env include_paths filename e =
    rw (closed_file depth env include_paths filename init_parse_result e) refl

-- A root file that is there through an include path alone is opened by the name that was given, not by
-- the path where it was found: the file that does not open is then read.
pub parse_asm_needs_direct :
    (depth : ℕ) (env : Env) (filename path : List ℕ) (include_paths : List (List ℕ))
    → env.exists filename ≡ false
    → env.contents filename ≡ none
    → find_file env filename include_paths ≡ some path
    → parse_asm depth env filename include_paths ≡ none
unfolding parse_asm
parse_asm_needs_direct depth env filename path include_paths e f g =
    rw (e, g) (closed_root depth env include_paths filename f)
