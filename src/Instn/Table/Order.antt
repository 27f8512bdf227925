-- ===== src/Instn/Table/Order.antt =====
-- What `setup_instn_defs` of src/instns/instn.c leaves in the table: the opcodes are the positions, the
-- names are in order, and no instruction is lost.
use bvgz_vm.Common.{
  ℕ, zero, suc, ◌+◌, ◌%◌, ◌≤◌, ◌≡◌, refl, ◌∙◌, ap, sym, Bool, true, false, Bool-cases, inl, inr,
  some, List, [], ◌∷◌, arith, length, get_elem?, if◌then◌else◌, eq_of_some,
}
use bvgz_vm.Instn.Table.{
  InstnDef, strcmp_le, insert_def, sort_defs, assign_opcodes, setup_instn_defs,
}

strcmp_le_total : (xs ys : List ℕ) → strcmp_le xs ys ≡ false → strcmp_le ys xs ≡ true
unfolding strcmp_le
strcmp_le_total [] ys e = cc
strcmp_le_total (x ∷ xs) [] e = refl
strcmp_le_total (x ∷ xs) (y ∷ ys) e = ground (arith, strcmp_le_total xs ys)

-- Each name is at most the next one.
abbrev pub IsSorted : List InstnDef → Type 0
IsSorted [] = Unit
IsSorted (d ∷ []) = Unit
IsSorted (d ∷ e ∷ es) = (strcmp_le d.name e.name ≡ true) × IsSorted (e ∷ es)

-- The number of entries that an observation of entries accepts.
abbrev pub count_defs : (InstnDef → Bool) → List InstnDef → ℕ
count_defs q [] = 0
count_defs q (d ∷ ds) = (if q d then 1 else 0) + count_defs q ds

length-insert_def : (d : InstnDef) (es : List InstnDef) → length (insert_def d es) ≡ suc (length es)
unfolding insert_def
length-insert_def d [] = refl
length-insert_def d (e ∷ es) = ground (arith, length-insert_def d es)

length-sort_defs : (ds : List InstnDef) → length (sort_defs ds) ≡ length ds
unfolding sort_defs
length-sort_defs [] = refl
length-sort_defs (d ∷ ds) = omega (arith, length-insert_def d (sort_defs ds), length-sort_defs ds)

count-insert_def :
    (q : InstnDef → Bool) (d : InstnDef) (es : List InstnDef)
    → count_defs q (insert_def d es) ≡ count_defs q (d ∷ es)
unfolding insert_def
count-insert_def q d [] = refl
count-insert_def q d (e ∷ es) = elim (Bool-cases (strcmp_le d.name e.name)) [
  | inl h ↦ rw h refl
  | inr h ↦ rw h (omega (arith, count-insert_def q d es))
]

count-sort_defs :
    (q : InstnDef → Bool) (ds : List InstnDef) → count_defs q (sort_defs ds) ≡ count_defs q ds
unfolding sort_defs
count-sort_defs q [] = refl
count-sort_defs q (d ∷ ds) =
    omega (arith, count-insert_def q d (sort_defs ds), count-sort_defs q ds)

insert_def-IsSorted : (d : InstnDef) (es : List InstnDef) → IsSorted es → IsSorted (insert_def d es)
unfolding insert_def
insert_def-IsSorted d [] s = tt
insert_def-IsSorted d (e ∷ []) s = elim (Bool-cases (strcmp_le d.name e.name)) [
  | inl h ↦ rw h (h, tt)
  | inr h ↦ rw h (strcmp_le_total d.name e.name h, tt)
]
insert_def-IsSorted d (e ∷ f ∷ es) s = elim (Bool-cases (strcmp_le d.name e.name)) [
  | inl h ↦ rw h (h, s)
  | inr h ↦
      let rest : IsSorted (insert_def d (f ∷ es)) = insert_def-IsSorted d (f ∷ es) s.1 in
      elim (Bool-cases (strcmp_le d.name f.name)) [
        | inl k ↦ rw (h, k) (strcmp_le_total d.name e.name h, (k, s.1))
        | inr k ↦ rw (h, k) (s.0, rw k at rest)
      ]
]

sort_defs-IsSorted : (ds : List InstnDef) → IsSorted (sort_defs ds)
unfolding sort_defs
sort_defs-IsSorted [] = tt
sort_defs-IsSorted (d ∷ ds) = insert_def-IsSorted d (sort_defs ds) (sort_defs-IsSorted ds)

assign_opcodes-IsSorted :
    (n : ℕ) (ds : List InstnDef) → IsSorted ds → IsSorted (assign_opcodes n ds)
unfolding assign_opcodes
assign_opcodes-IsSorted n [] s = tt
assign_opcodes-IsSorted n (d ∷ []) s = tt
assign_opcodes-IsSorted n (d ∷ e ∷ es) s =
    (s.0, assign_opcodes-IsSorted ((n + 1) % 256) (e ∷ es) s.1)

-- The opcodes count on from the first one, as long as they fit a byte.
assign_opcodes_index :
    (n : ℕ) (ds : List InstnDef) (i : ℕ) (d : InstnDef)
    → n + length ds ≤ 256
    → get_elem? (assign_opcodes n ds) i ≡ some d
    → d.opcode ≡ n + i
unfolding assign_opcodes
assign_opcodes_index n [] i d le e = cc
assign_opcodes_index n (c ∷ ds) zero d le e = ap (λ x. x.opcode) (sym (eq_of_some e)) ∙ omega arith
assign_opcodes_index n (c ∷ []) (suc i) d le e = cc
assign_opcodes_index n (c ∷ b ∷ ds) (suc i) d le e =
    let wrap : (n + 1) % 256 ≡ n + 1 = omega arith in
    omega (arith, wrap, assign_opcodes_index ((n + 1) % 256) (b ∷ ds) i d (omega (arith, wrap)) e)

count-assign_opcodes :
    (q : InstnDef → Bool)
    → ((d : InstnDef) (n : ℕ) → q (record d { opcode = n }) ≡ q d)
    → (n : ℕ) (ds : List InstnDef) → count_defs q (assign_opcodes n ds) ≡ count_defs q ds
unfolding assign_opcodes
count-assign_opcodes q blind n [] = refl
count-assign_opcodes q blind n (d ∷ ds) =
    rw (blind d n, count-assign_opcodes q blind ((n + 1) % 256) ds)

-- The table that the engine sets up from at most 256 entries: each instruction's opcode is its place
-- in the table, the names are in order, and every observation that does not look at the opcode finds
-- as many entries as before.
pub setup_instn_defs_order :
    (defs : List InstnDef)
    → length defs ≤ 256
    → ((i : ℕ) (d : InstnDef) → get_elem? (setup_instn_defs defs) i ≡ some d → d.opcode ≡ i)
      × IsSorted (setup_instn_defs defs)
      × ((q : InstnDef → Bool)
          → ((d : InstnDef) (n : ℕ) → q (record d { opcode = n }) ≡ q d)
          → count_defs q (setup_instn_defs defs) ≡ count_defs q defs)
unfolding setup_instn_defs
setup_instn_defs_order defs le = (
  λ i d e.
      assign_opcodes_index 0 (sort_defs defs) i d (omega (arith, length-sort_defs defs)) e
      ∙ omega arith,
  assign_opcodes-IsSorted 0 (sort_defs defs) (sort_defs-IsSorted defs),
  λ q blind. count-assign_opcodes q blind 0 (sort_defs defs) ∙ count-sort_defs q defs,
)
