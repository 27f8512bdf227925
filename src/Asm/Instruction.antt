-- ===== src/Asm/Instruction.antt =====
-- `parse_instn` and `add_instn` of src/parser.c: the search for the definition of an instruction in the
-- sorted table, by its name and its number of arguments, and its arguments.
pub mod Table
use Prim.Native.Nat.{bit_and}
use bvgz_vm.Common.{
  ℕ, zero, suc, ◌+◌, ◌-◌, ◌*◌, ◌/◌, ◌%◌, ◌^◌, Bool, true, false, not, ◌&&◌, ◌||◌, List, [], ◌∷◌,
  ◌++◌, Option, none, some, leb, ltb, ◌==◌, length, get_elem?, if◌then◌else◌,
}
use bvgz_vm.Vm.{minus_one32}
use bvgz_vm.Instn.Table.{InstnDef, strcmp_le, instn_defs, f_allow_imm_1st_arg}
use bvgz_vm.Codegen.{PrsArg, PrsInstn, ArgType, arg_imm, ◌>>=◌}
use bvgz_vm.Asm.{Env, Parse, report_error}
use bvgz_vm.Asm.Arg.{parse_arg}

-- `strcmp(a, b) == 0`
unfoldable pub strcmp_eq : List ℕ → List ℕ → Bool
strcmp_eq [] [] = true
strcmp_eq (a ∷ as') (b ∷ bs) = let rest = strcmp_eq as' bs in if a == b then rest else false
strcmp_eq _ _ = false

-- `bsearch`, as glibc halves the range from `l` to `u`; the fuel bounds the number of halvings.
unfoldable pub bsearch : (fuel : ℕ) → (name : List ℕ) → List InstnDef → (l u : ℕ) → Option ℕ
unfolding strcmp_eq strcmp_le
bsearch zero name defs l u = none
bsearch (suc fuel) name defs l u =
    let mid = (l + u) / 2 in
    let lower = bsearch fuel name defs l mid in
    let upper = bsearch fuel name defs (mid + 1) u in
    if leb u l then none else elim (get_elem? defs mid) [
      | none ↦ none
      | some d ↦
          if strcmp_eq name d.name then some mid else if strcmp_le name d.name then lower else upper
    ]

-- `while (fmt > InstnDefs && strcmp(tokens[0], (fmt - 1)->name) == 0) fmt--;`
unfoldable pub first_match : (name : List ℕ) → List InstnDef → (fmt : ℕ) → ℕ
unfolding strcmp_eq
first_match name defs zero = zero
first_match name defs (suc fmt) =
    let before = first_match name defs fmt in
    elim (get_elem? defs fmt) [
      | none ↦ suc fmt
      | some d ↦ if strcmp_eq name d.name then before else suc fmt
    ]

-- What the search for the number of arguments finds: the loop ends at an entry of another name. The name
-- of the entry that ends the table is NULL, which `strcmp` must not be given.
pub data Search : Type 0 where
  matched : InstnDef → Search
  mismatched : Search
  past_table : Search

-- `for (; strcmp(tokens[0], fmt->name) == 0; fmt++)`, with `defs` the entries from `fmt` on
unfoldable pub search_args : (name : List ℕ) → (n_args : ℕ) → (defs : List InstnDef) → Search
unfolding strcmp_eq
search_args name n_args [] = past_table
search_args name n_args (d ∷ defs) =
    let rest = search_args name n_args defs in
    if strcmp_eq name d.name
    then (if d.arg_count == n_args then matched d else rest)
    else mismatched

unfoldable pub drop {ℓ} : {A : Type ℓ} → ℕ → List A → List A
drop zero xs = xs
drop (suc n) [] = []
drop (suc n) (x ∷ xs) = drop n xs

abbrev pub is_imm : ArgType → Bool
is_imm arg_imm = true
is_imm _ = false

-- `for (int i = 1; i < n_tokens; i++)`; no list of arguments stands for the returns on an error.
unfoldable pub parse_args :
    Env → InstnDef → (i : ℕ) → (tokens : List (List ℕ)) → Parse → Option (List PrsArg) × Parse
unfolding parse_arg
parse_args env d i [] r = (some [], r)
parse_args env d i (t ∷ ts) r =
    let (result, r') = parse_arg env t r in
    elim result [
      | none ↦ (none, r')
      | some a ↦
          if i == 1 && is_imm a.type && bit_and d.flags f_allow_imm_1st_arg == 0
          then (none, report_error r')
          else let (rest, r'') = parse_args env d (i + 1) ts r' in
            (elim rest [ none ↦ none | some args ↦ some (a ∷ args) ], r'')
    ]

-- Where an argument is wrong, whether the types that `destroy_instn` reads are all set: those of the wrong
-- argument and of the ones behind it are not.
unfoldable pub types_are_set : Env → (tokens : List (List ℕ)) → Parse → Bool
types_are_set env (t ∷ []) r = elim ((parse_arg env t r).0) [ none ↦ false | some a ↦ true ]
types_are_set env tokens r = false

-- The instruction, or `none` in its place where there was an error.
unfoldable pub parse_matched :
    Env → Search → (tokens : List (List ℕ)) → Parse → Option (Option PrsInstn × Parse)
unfolding parse_args types_are_set
parse_matched env past_table tokens r = none
parse_matched env mismatched tokens r = some (none, report_error r)
parse_matched env (matched d) tokens r =
    let (args, r') = parse_args env d 1 tokens r in
    elim args [
      | none ↦ if types_are_set env tokens r then some (none, r') else none
      | some as' ↦ some (some (record { instn = d; args = as'; mem_offset = minus_one32 }), r')
    ]

-- The entry of a name and a number of arguments; `none` for a name that is not there.
unfoldable pub find_instn : (name : List ℕ) → (n_args : ℕ) → Option Search
unfolding bsearch first_match search_args drop
find_instn name n_args = elim (bsearch (length instn_defs) name instn_defs 0 (length instn_defs)) [
  | none ↦ none
  | some fmt ↦ some (search_args name n_args (drop (first_match name instn_defs fmt) instn_defs))
]

-- The tokens are the name and those of the arguments.
unfoldable pub parse_instn :
    Env → (name : List ℕ) → (tokens : List (List ℕ)) → Parse → Option (Option PrsInstn × Parse)
unfolding find_instn parse_matched
parse_instn env name tokens r = elim (find_instn name (length tokens)) [
  | none ↦ some (none, report_error r)
  | some found ↦ parse_matched env found tokens r
]

unfoldable pub add_instn : Env → (name : List ℕ) → (tokens : List (List ℕ)) → Parse → Option Parse
unfolding parse_instn
add_instn env name tokens r = parse_instn env name tokens r >>= λ (instn, r').
    some (elim instn [ none ↦ r' | some p ↦ record r' { instns = r'.instns ++ p ∷ [] } ])
