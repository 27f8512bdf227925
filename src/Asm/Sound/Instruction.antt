-- ===== src/Asm/Sound/Instruction.antt =====
-- `add_instn` of src/parser.c adds an instruction of the table, with the arguments that it takes.
use Prim.Native.Nat.{bit_and}
use bvgz_vm.Common.{
  ℕ, zero, suc, ◌+◌, ◌≡◌, refl, ◌∙◌, ap, sym, Bool, true, false, ◌&&◌, List, [], ◌∷◌, ◌++◌, Option,
  none, some, ◌==◌, inl, inr, arith, if◌then◌else◌, Bool-cases, ==_iff, length, get_elem?,
  All-append,
}
use bvgz_vm.Vm.{minus_one32}
use bvgz_vm.Instn.Table.{InstnDef, instn_defs, instn_defs_inc, f_allow_imm_1st_arg}
use bvgz_vm.Instn.Table.Order.{setup_instn_defs_order}
use bvgz_vm.Codegen.{PrsArg, PrsInstn}
use bvgz_vm.Codegen.Emission.{AllSized}
use bvgz_vm.Asm.{Env, Parse, report_error}
use bvgz_vm.Asm.Arg.{parse_arg}
use bvgz_vm.Asm.Instruction.{
  strcmp_eq, bsearch, first_match, Search, matched, mismatched, past_table, search_args, drop,
  is_imm, types_are_set, parse_args, parse_matched, find_instn, parse_instn, add_instn,
}
use bvgz_vm.Asm.Sound.{IsSound, IsEntry, IsAssembled, Ensures, bind-Ensures}
use bvgz_vm.Asm.Sound.Arg.{HasSize, IsArg, parse_arg-IsArg}

get_elem?-drop {ℓ} :
    {A : Type ℓ} (n i : ℕ) (xs : List A) (a : A)
    → get_elem? (drop n xs) i ≡ some a
    → (j : ℕ) × (get_elem? xs j ≡ some a)
unfolding drop
get_elem?-drop zero i xs a e = (i, e)
get_elem?-drop (suc n) i [] a e = cc
get_elem?-drop (suc n) i (x ∷ xs) a e = let (j, at) = get_elem?-drop n i xs a e in (suc j, at)

-- The search matches an entry of the list that has the number of arguments.
abbrev IsMatch : ℕ → List InstnDef → Search → Type 0
IsMatch n defs (matched d) = (i : ℕ) × (get_elem? defs i ≡ some d) × (d.arg_count ≡ n)
IsMatch n defs mismatched = Unit
IsMatch n defs past_table = Unit

IsMatch-later :
    (n : ℕ) (d : InstnDef) (defs : List InstnDef) (s : Search)
    → IsMatch n defs s
    → IsMatch n (d ∷ defs) s
IsMatch-later n d defs (matched e) (i, at, count) = (suc i, at, count)
IsMatch-later n d defs mismatched h = tt
IsMatch-later n d defs past_table h = tt

search_args-IsMatch :
    (name : List ℕ) (n : ℕ) (defs : List InstnDef) → IsMatch n defs (search_args name n defs)
unfolding search_args
search_args-IsMatch name n [] = tt
search_args-IsMatch name n (d ∷ defs) = elim (Bool-cases (strcmp_eq name d.name)) [
  | inr h ↦ rw h tt
  | inl h ↦ elim (Bool-cases (d.arg_count == n)) [
    | inl k ↦ rw (h, k) (0, refl, (==_iff d.arg_count n).0 k)
    | inr k ↦ rw (h, k) (IsMatch-later n d defs _ (search_args-IsMatch name n defs))
  ]
]

instn_defs_opcode : (i : ℕ) (d : InstnDef) → get_elem? instn_defs i ≡ some d → d.opcode ≡ i
unfolding instn_defs
instn_defs_opcode i d e = (setup_instn_defs_order instn_defs_inc (omega arith)).0 i d e

pub instn_defs-IsEntry : (i : ℕ) (d : InstnDef) → get_elem? instn_defs i ≡ some d → IsEntry d
instn_defs-IsEntry i d e = ap (get_elem? instn_defs) (instn_defs_opcode i d e) ∙ e

-- The arguments of the tokens, if all could be read
abbrev IsArgs : ℕ → Option (List PrsArg) × Parse → Type 0
IsArgs n t = Ensures (λ args. (length args ≡ n) × AllSized args) t.0 × IsSound t.1

-- Behind an argument, the rest of them
cons-IsArgs :
    (n : ℕ) (a : PrsArg) (t : Option (List PrsArg) × Parse)
    → HasSize a
    → IsArgs n t
    → IsArgs (suc n) ((elim (t.0) [ none ↦ none | some args ↦ some (a ∷ args) ]), t.1)
cons-IsArgs n a (none, r) h k = (tt, k.1)
cons-IsArgs n a (some args, r) h k = ((ap suc k.0.0, (h, k.0.1)), k.1)

cond-IsArgs :
    (n : ℕ) (b : Bool) (t u : Option (List PrsArg) × Parse)
    → IsArgs n t
    → IsArgs n u
    → IsArgs n (if b then t else u)
cond-IsArgs n true t u h k = h
cond-IsArgs n false t u h k = k

first_arg-IsArgs :
    (env : Env) (d : InstnDef) (i n : ℕ) (ts : List (List ℕ))
    → ((r : Parse) → IsSound r → IsArgs n (parse_args env d (i + 1) ts r))
    → (t : Option PrsArg × Parse) → IsArg t
    → IsArgs (suc n) (elim (t.0) [
      | none ↦ (none, t.1)
      | some a ↦
          if i == 1 && is_imm a.type && bit_and d.flags f_allow_imm_1st_arg == 0
          then (none, report_error t.1)
          else let u = parse_args env d (i + 1) ts t.1 in
            (elim (u.0) [ none ↦ none | some args ↦ some (a ∷ args) ], u.1)
    ])
first_arg-IsArgs env d i n ts rest (none, r) h = h
first_arg-IsArgs env d i n ts rest (some a, r) h =
    cond-IsArgs (suc n) (i == 1 && is_imm a.type && bit_and d.flags f_allow_imm_1st_arg == 0) _ _
      (tt, h.1) (cons-IsArgs n a (parse_args env d (i + 1) ts r) h.0 (rest r h.1))

parse_args-IsArgs :
    (env : Env) (d : InstnDef) (i : ℕ) (tokens : List (List ℕ)) (r : Parse)
    → IsSound r
    → IsArgs (length tokens) (parse_args env d i tokens r)
unfolding parse_args
parse_args-IsArgs env d i [] r s = ((refl, tt), s)
parse_args-IsArgs env d i (t ∷ ts) r s =
    first_arg-IsArgs env d i (length ts) ts (parse_args-IsArgs env d (i + 1) ts) (parse_arg env t r)
      (parse_arg-IsArg env t r s)

-- Where there is an instruction it is assembled, and the parse is sound.
abbrev IsParsed : Option PrsInstn × Parse → Type 0
IsParsed t = Ensures IsAssembled t.0 × IsSound t.1

matched-IsParsed :
    (d : InstnDef) (n : ℕ) (set : Bool) (t : Option (List PrsArg) × Parse)
    → IsEntry d
    → d.arg_count ≡ n
    → IsArgs n t
    → Ensures IsParsed (elim (t.0) [
      | none ↦ if set then some (none, t.1) else none
      | some as' ↦ some (some (record { instn = d; args = as'; mem_offset = minus_one32 }), t.1)
    ])
matched-IsParsed d n true (none, r) entry count h = (tt, h.1)
matched-IsParsed d n false (none, r) entry count h = tt
matched-IsParsed d n set (some as', r) entry count h =
    ((entry, h.0.0 ∙ sym count, h.0.1, refl), h.1)

-- What the search in the table matches
abbrev pub IsFound : ℕ → Search → Type 0
IsFound n (matched d) = IsEntry d × (d.arg_count ≡ n)
IsFound n mismatched = Unit
IsFound n past_table = Unit

IsMatch-IsFound : (k n : ℕ) (s : Search) → IsMatch n (drop k instn_defs) s → IsFound n s
IsMatch-IsFound k n (matched d) (i, at, count) =
    let (j, at') = get_elem?-drop k i instn_defs d at in (instn_defs-IsEntry j d at', count)
IsMatch-IsFound k n mismatched h = tt
IsMatch-IsFound k n past_table h = tt

pub find_instn-IsFound : (name : List ℕ) (n : ℕ) → Ensures (IsFound n) (find_instn name n)
unfolding find_instn
find_instn-IsFound name n = go (bsearch (length instn_defs) name instn_defs 0 (length instn_defs))
  where
    go :
        (at : Option ℕ)
        → Ensures (IsFound n) (elim at [
          | none ↦ none
          | some fmt ↦ some (search_args name n (drop (first_match name instn_defs fmt) instn_defs))
        ])
    go none = tt
    go (some fmt) =
        IsMatch-IsFound (first_match name instn_defs fmt) n _ (search_args-IsMatch name n _)

parse_matched-IsParsed :
    (env : Env) (s : Search) (tokens : List (List ℕ)) (r : Parse)
    → IsFound (length tokens) s
    → IsSound r
    → Ensures IsParsed (parse_matched env s tokens r)
unfolding parse_matched
parse_matched-IsParsed env past_table tokens r h s = tt
parse_matched-IsParsed env mismatched tokens r h s = (tt, s)
parse_matched-IsParsed env (matched d) tokens r h s =
    matched-IsParsed d (length tokens) (types_are_set env tokens r) (parse_args env d 1 tokens r)
      h.0 h.1 (parse_args-IsArgs env d 1 tokens r s)

found-IsParsed :
    (env : Env) (tokens : List (List ℕ)) (r : Parse)
    → IsSound r
    → (found : Option Search) → Ensures (IsFound (length tokens)) found
    → Ensures IsParsed
        (elim found [ none ↦ some (none, report_error r) | some s ↦ parse_matched env s tokens r ])
found-IsParsed env tokens r s none h = (tt, s)
found-IsParsed env tokens r s (some found) h = parse_matched-IsParsed env found tokens r h s

added-IsSound :
    (t : Option PrsInstn × Parse)
    → IsParsed t
    → IsSound
        (elim (t.0) [ none ↦ t.1 | some p ↦ record (t.1) { instns = (t.1).instns ++ p ∷ [] } ])
added-IsSound (none, r) h = h.1
added-IsSound (some p, r) h = (h.1.0, All-append IsAssembled r.instns (p ∷ []) h.1.1 (h.0, tt))

pub add_instn-IsSound :
    (env : Env) (name : List ℕ) (tokens : List (List ℕ)) (r : Parse)
    → IsSound r
    → Ensures IsSound (add_instn env name tokens r)
unfolding add_instn parse_instn
add_instn-IsSound env name tokens r s =
    bind-Ensures IsParsed IsSound (parse_instn env name tokens r) _
      (found-IsParsed env tokens r s (find_instn name (length tokens))
        (find_instn-IsFound name (length tokens)))
      added-IsSound
