-- ===== src/Asm/Instruction/Table.antt =====
-- The search of `parse_instn` of src/parser.c finds the entries of the table.
use bvgz_vm.Common.{
  ℕ, zero, suc, ◌≡◌, refl, ◌∙◌, ap, sym, Bool, true, false, ◌&&◌, List, [], ◌∷◌, Option, none, some,
  ◌==◌, ◌↔◌, inl, inr, arith, Bool-cases, ==_iff, length, get_elem?, eq_of_some, ◌≢◌,
}
use bvgz_vm.Instn.Table.{InstnDef, instn_defs, codes}
use bvgz_vm.Asm.{Env, Parse}
use bvgz_vm.Asm.Sound.{IsEntry, Ensures, Ensures-eq}
use bvgz_vm.Asm.Sound.Instruction.{IsFound, instn_defs-IsEntry, find_instn-IsFound}
use bvgz_vm.Asm.Instruction.{
  strcmp_eq, bsearch, first_match, Search, matched, mismatched, past_table, search_args, drop,
  find_instn, parse_matched, parse_instn, add_instn,
}

strcmp_eq→≡ : (xs ys : List ℕ) → strcmp_eq xs ys ≡ true → xs ≡ ys
unfolding strcmp_eq
strcmp_eq→≡ [] [] e = refl
strcmp_eq→≡ [] (y ∷ ys) e = cc
strcmp_eq→≡ (x ∷ xs) [] e = cc
strcmp_eq→≡ (x ∷ xs) (y ∷ ys) e = ground (arith, strcmp_eq→≡ xs ys)

-- Does the search for an entry find one with its opcode?
abbrev finds : InstnDef → Option Search → Bool
finds d none = false
finds d (some mismatched) = false
finds d (some past_table) = false
finds d (some (matched e)) = e.opcode == d.opcode

abbrev pub all_entries : (InstnDef → Bool) → List InstnDef → Bool
all_entries q [] = true
all_entries q (d ∷ ds) = q d && all_entries q ds

finds_all : all_entries (λ d. finds d (find_instn d.name d.arg_count)) instn_defs ≡ true
unfolding find_instn instn_defs
finds_all = refl

pub get_elem?-all_entries :
    (q : InstnDef → Bool) (ds : List InstnDef) (i : ℕ) (d : InstnDef)
    → all_entries q ds ≡ true
    → get_elem? ds i ≡ some d
    → q d ≡ true
get_elem?-all_entries q [] i d h e = cc
get_elem?-all_entries q (x ∷ ds) zero d h e = ap q (sym (eq_of_some e)) ∙ ground arith
get_elem?-all_entries q (x ∷ ds) (suc i) d h e = get_elem?-all_entries q ds i d (ground arith) e

-- An entry of the same opcode is the same.
finds-matched :
    (d : InstnDef) (n : ℕ) (found : Option Search)
    → IsEntry d
    → Ensures (IsFound n) found
    → finds d found ≡ true
    → found ≡ some (matched d)
finds-matched d n none entry h e = cc
finds-matched d n (some mismatched) entry h e = cc
finds-matched d n (some past_table) entry h e = cc
finds-matched d n (some (matched e')) entry h e =
    let same = ap (get_elem? instn_defs) ((==_iff e'.opcode d.opcode).0 e) in
    ap (λ x. some (matched x)) (eq_of_some (sym h.0 ∙ same ∙ entry))

abbrev HasName : List ℕ → Search → Type 0
HasName name (matched d) = name ≡ d.name
HasName name mismatched = Unit
HasName name past_table = Unit

search_args-HasName :
    (name : List ℕ) (n : ℕ) (defs : List InstnDef) → HasName name (search_args name n defs)
unfolding search_args
search_args-HasName name n [] = tt
search_args-HasName name n (d ∷ defs) = elim (Bool-cases (strcmp_eq name d.name)) [
  | inr h ↦ rw h tt
  | inl h ↦ elim (Bool-cases (d.arg_count == n)) [
    | inl k ↦ rw (h, k) (strcmp_eq→≡ name d.name h)
    | inr k ↦ rw (h, k) (search_args-HasName name n defs)
  ]
]

find_instn-HasName : (name : List ℕ) (n : ℕ) → Ensures (HasName name) (find_instn name n)
unfolding find_instn
find_instn-HasName name n = go (bsearch (length instn_defs) name instn_defs 0 (length instn_defs))
  where
    go :
        (at : Option ℕ)
        → Ensures (HasName name) (elim at [
          | none ↦ none
          | some fmt ↦ some (search_args name n (drop (first_match name instn_defs fmt) instn_defs))
        ])
    go none = tt
    go (some fmt) = search_args-HasName name n _

-- The search of `parse_instn` finds an entry exactly for its name and its number of arguments: every
-- entry of the table is found so, whichever others have its name.
pub find_instn_iff :
    (name : List ℕ) (n : ℕ) (d : InstnDef)
    → (find_instn name n ≡ some (matched d))
      ↔ (((i : ℕ) × (get_elem? instn_defs i ≡ some d)) × (name ≡ d.name) × (d.arg_count ≡ n))
find_instn_iff name n d = (found, there)
  where
    found :
        find_instn name n ≡ some (matched d)
        → ((i : ℕ) × (get_elem? instn_defs i ≡ some d)) × (name ≡ d.name) × (d.arg_count ≡ n)
    found e =
        let (entry, count) =
          Ensures-eq (IsFound n) (find_instn name n) (matched d) (find_instn-IsFound name n) e in
        let named =
          Ensures-eq (HasName name) (find_instn name n) (matched d) (find_instn-HasName name n) e in
        ((d.opcode, entry), named, count)

    there :
        ((i : ℕ) × (get_elem? instn_defs i ≡ some d)) × (name ≡ d.name) × (d.arg_count ≡ n)
        → find_instn name n ≡ some (matched d)
    there ((i, at), same, count) =
        let hit =
          get_elem?-all_entries (λ e. finds e (find_instn e.name e.arg_count)) instn_defs i d
            finds_all at in
        let own =
          finds-matched d d.arg_count (find_instn d.name d.arg_count) (instn_defs-IsEntry i d at)
            (find_instn-IsFound d.name d.arg_count) hit in
        rw (same, sym count) own

xor_count : (n : ℕ) → n ≢ 2 → n ≢ 3 → find_instn (codes "xor") n ≡ some past_table
unfolding find_instn instn_defs
xor_count n two three = ground arith

-- A line of `xor` with any number of arguments but two and three makes the assembler read the name of
-- the entry that ends the table, which is NULL.
pub xor_count_crashes :
    (env : Env) (tokens : List (List ℕ)) (r : Parse)
    → length tokens ≢ 2
    → length tokens ≢ 3
    → add_instn env (codes "xor") tokens r ≡ none
unfolding add_instn parse_instn parse_matched
xor_count_crashes env tokens r two three =
    rw (add_instn, parse_instn, xor_count (length tokens) two three) refl
