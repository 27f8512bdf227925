-- ===== src/Asm/Text.antt =====
-- The text of an instruction, and what src/parser.c makes of a line that holds it.
pub mod Line
use Prim.Native.Nat.{bit_and}
use bvgz_vm.Common.{
  ℕ, zero, suc, ◌+◌, ◌%◌, ◌≤◌, ◌<◌, ◌≡◌, refl, ◌∙◌, ap, sym, Bool, true, false, not, ◌&&◌, ◌||◌,
  List, [], ◌∷◌, ◌++◌, map, Option, none, some, arith, leb, ◌==◌, length, if◌then◌else◌, get_elem?,
  All, All-append, Bool-cases, inl, inr,
}
use bvgz_vm.Vm.{minus_one32}
use bvgz_vm.Instn.Table.{InstnDef, instn_defs, f_allow_imm_1st_arg}
use bvgz_vm.Codegen.{PrsArg, PrsInstn}
use bvgz_vm.Codegen.Emission.{bind-some}
use bvgz_vm.Asm.{Env, Parse, report_error}
use bvgz_vm.Asm.Number.{isspace}
use bvgz_vm.Asm.Number.Text.{hex_digit, hex_digits}
use bvgz_vm.Asm.Arg.{parse_arg}
use bvgz_vm.Asm.Arg.Text.{
  Written, number, pointer, label, label_value, arg_text, arg_of, IsLabel, IsWritten, add_reference,
  parse_arg-arg_text,
}
use bvgz_vm.Asm.Instruction.{
  is_imm, types_are_set, parse_args, parse_matched, Search, matched, parse_instn, add_instn,
  find_instn,
}
use bvgz_vm.Asm.Instruction.Table.{find_instn_iff, all_entries, get_elem?-all_entries}
use bvgz_vm.Asm.Lines.{max_tokens, ParseFile, parse_line}
use bvgz_vm.Asm.Lines.Tokens.{
  IsSeparator, IsTokenChar, Item, NonEmpty, IsItem, items_text, tokens_of, IsEnding, IsName,
  parse_line-tokens,
}

-- The set of labels behind all arguments
abbrev pub add_references : Env → List Written → List (List ℕ) → List (List ℕ)
add_references env [] ls = ls
add_references env (w ∷ ws) ls = add_references env ws (add_reference env w ls)

-- The first argument is no immediate number, or the instruction allows one.
abbrev pub IsAllowed : InstnDef → (i : ℕ) → List Written → Type 0
IsAllowed d i [] = Unit
IsAllowed d i (w ∷ ws) =
    (i == 1 && is_imm (arg_of w).type && bit_and d.flags f_allow_imm_1st_arg == 0) ≡ false

not_one : (i : ℕ) → 1 ≤ i → (i + 1 == 1) ≡ false
not_one i h = ground arith

later-IsAllowed : (d : InstnDef) (i : ℕ) (ws : List Written) → 1 ≤ i → IsAllowed d (i + 1) ws
later-IsAllowed d i [] h = tt
later-IsAllowed d i (w ∷ ws) h = rw (not_one i h) refl

-- A round of the loop over the arguments
abbrev args_step :
    InstnDef
    → (i : ℕ) → Option PrsArg × Parse
    → (Parse → Option (List PrsArg) × Parse)
    → Option (List PrsArg) × Parse
args_step d i t later = elim (t.0) [
  | none ↦ (none, t.1)
  | some a ↦
      if i == 1 && is_imm a.type && bit_and d.flags f_allow_imm_1st_arg == 0
      then (none, report_error t.1)
      else let u = later t.1 in (elim (u.0) [ none ↦ none | some args ↦ some (a ∷ args) ], u.1)
]

parse_args-nil :
    (env : Env) (d : InstnDef) (i : ℕ) (r : Parse) → parse_args env d i [] r ≡ (some [], r)
unfolding parse_args
parse_args-nil env d i r = refl

parse_args-step :
    (env : Env) (d : InstnDef) (i : ℕ) (t : List ℕ) (ts : List (List ℕ)) (r : Parse)
    → parse_args env d i (t ∷ ts) r
      ≡ args_step d i (parse_arg env t r) (parse_args env d (i + 1) ts)
unfolding parse_args
parse_args-step env d i t ts r = refl

args_step-some :
    (d : InstnDef) (i : ℕ) (a : PrsArg) (args : List PrsArg) (r r' : Parse)
    (later : Parse → Option (List PrsArg) × Parse)
    → (i == 1 && is_imm a.type && bit_and d.flags f_allow_imm_1st_arg == 0) ≡ false
    → later r ≡ (some args, r')
    → args_step d i (some a, r) later ≡ (some (a ∷ args), r')
args_step-some d i a args r r' later h e = rw (h, e) refl

parse_args-texts :
    (env : Env) (d : InstnDef) (i : ℕ) (ws : List Written) (r : Parse)
    → 1 ≤ i
    → All IsWritten ws
    → IsAllowed d i ws
    → parse_args env d i (map arg_text ws) r
      ≡ (some (map arg_of ws), record r { referenced = add_references env ws r.referenced })
parse_args-texts env d i [] r pos h a = parse_args-nil env d i r
parse_args-texts env d i (w ∷ ws) r pos h a =
    let r' : Parse = record r { referenced = add_reference env w r.referenced } in
    parse_args-step env d i (arg_text w) (map arg_text ws) r
    ∙ ap (λ t. args_step d i t (parse_args env d (i + 1) (map arg_text ws)))
        (parse_arg-arg_text env w r h.0)
    ∙ args_step-some d i (arg_of w) (map arg_of ws) r'
        (record r { referenced = add_references env (w ∷ ws) r.referenced })
        (parse_args env d (i + 1) (map arg_text ws)) a
        (parse_args-texts env d (i + 1) ws r' (omega arith) h.1 (later-IsAllowed d i ws pos))

-- The instruction that a line means
abbrev pub instn_of : InstnDef → List Written → PrsInstn
instn_of d ws = record { instn = d; args = map arg_of ws; mem_offset = minus_one32 }

length-map : (ws : List Written) → length (map arg_text ws) ≡ length ws
length-map [] = refl
length-map (w ∷ ws) = ap suc (length-map ws)

abbrev pub assembled : Env → InstnDef → List Written → Parse → Parse
assembled env d ws r = record r {
  instns = r.instns ++ instn_of d ws ∷ [];
  referenced = add_references env ws r.referenced;
}

parse_instn-found :
    (env : Env) (name : List ℕ) (tokens : List (List ℕ)) (found : Option Search) (r : Parse)
    → find_instn name (length tokens) ≡ found
    → parse_instn env name tokens r
      ≡ elim found [ none ↦ some (none, report_error r) | some s ↦ parse_matched env s tokens r ]
unfolding parse_instn
parse_instn-found env name tokens found r e =
    ap (λ f. elim f [ none ↦ some (none, report_error r) | some s ↦ parse_matched env s tokens r ])
      e

parse_instn-matched :
    (env : Env) (name : List ℕ) (tokens : List (List ℕ)) (d : InstnDef) (args : List PrsArg)
    (r r' : Parse)
    → find_instn name (length tokens) ≡ some (matched d)
    → parse_args env d 1 tokens r ≡ (some args, r')
    → parse_instn env name tokens r
      ≡ some (some (record { instn = d; args = args; mem_offset = minus_one32 }), r')
unfolding parse_matched
parse_instn-matched env name tokens d args r r' found e =
    parse_instn-found env name tokens (some (matched d)) r found
    ∙ ap
        (λ (u : Option (List PrsArg) × Parse). elim (u.0) [
          | none ↦ if types_are_set env tokens r then some (none, u.1) else none
          | some as' ↦ some (some (record { instn = d; args = as'; mem_offset = minus_one32 }), u.1)
        ])
        e

add_instn-matched :
    (env : Env) (name : List ℕ) (tokens : List (List ℕ)) (d : InstnDef) (args : List PrsArg)
    (r r' : Parse)
    → find_instn name (length tokens) ≡ some (matched d)
    → parse_args env d 1 tokens r ≡ (some args, r')
    → add_instn env name tokens r
      ≡ some (record r' {
        instns = r'.instns ++ record { instn = d; args = args; mem_offset = minus_one32 } ∷ [];
      })
unfolding add_instn
add_instn-matched env name tokens d args r r' found e =
    bind-some (parse_instn env name tokens r) _
      (some (record { instn = d; args = args; mem_offset = minus_one32 }), r') _
      (parse_instn-matched env name tokens d args r r' found e) refl

pub add_instn-texts :
    (env : Env) (i : ℕ) (d : InstnDef) (ws : List Written) (r : Parse)
    → get_elem? instn_defs i ≡ some d
    → length ws ≡ d.arg_count
    → All IsWritten ws
    → IsAllowed d 1 ws
    → add_instn env d.name (map arg_text ws) r ≡ some (assembled env d ws r)
add_instn-texts env i d ws r at count h a =
    add_instn-matched env d.name (map arg_text ws) d (map arg_of ws) r
      (record r { referenced = add_references env ws r.referenced })
      (ap (find_instn d.name) (length-map ws)
        ∙ (find_instn_iff d.name (length ws) d).1 ((i, at), refl, sym count))
      (parse_args-texts env d 1 ws r (omega arith) h a)
