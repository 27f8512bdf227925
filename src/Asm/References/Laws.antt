-- ===== src/Asm/References/Laws.antt =====
-- What `resolve_data_label_refs` of src/parser.c writes into the memory.
use bvgz_vm.Common.{
  ℕ, ◌+◌, ◌%◌, ◌^◌, ◌≤◌, ◌≡◌, refl, ◌∙◌, ap, ◌⊎◌, inl, inr, true, List, [], ◌∷◌, Option, none, some,
  arith, ◌==◌, get_elem?, if◌then◌else◌, All, le→leb, Bool-cases, eq_of_some,
}
use bvgz_vm.Vm.{minus_one32}
use bvgz_vm.Memory.{Block, read_le, write_le, store}
use bvgz_vm.Memory.Access.{read_le-write_le, read_le_congr, write_le-below, write_le-above}
use bvgz_vm.Codegen.{◌>>=◌, Label, Labels, PrsInstn}
use bvgz_vm.Codegen.Emission.{bind-eq_some}
use bvgz_vm.Asm.{Parse, LabelRef}
use bvgz_vm.Asm.References.{address, resolve_label, resolve_refs, resolve_data_label_refs}

-- The address that a label means: that of its data, or that of the code of its instruction
abbrev pub placed : List PrsInstn → Label → Option ℕ
placed instns l =
    if l.is_mem_ref
    then some l.offset
    else (get_elem? instns l.offset >>= λ p.
        if p.mem_offset == minus_one32 then none else some p.mem_offset)

abbrev pub address_of : Labels → List PrsInstn → LabelRef → Option ℕ
address_of labels instns ref = labels ref.label >>= placed instns

-- A reference of four or eight bytes inside the memory, to a label that has an address
abbrev pub IsResolvable : Labels → List PrsInstn → (size : ℕ) → LabelRef → Type 0
IsResolvable labels instns size ref =
    ((v : ℕ) × (address_of labels instns ref ≡ some v))
    × ((ref.size ≡ 4) ⊎ (ref.size ≡ 8))
    × (ref.write_offset + ref.size ≤ size)

abbrev pub IsApart : LabelRef → LabelRef → Type 0
IsApart a b =
    (a.write_offset + a.size ≤ b.write_offset) ⊎ (b.write_offset + b.size ≤ a.write_offset)

-- No two references share a byte.
abbrev pub AllApart : List LabelRef → Type 0
AllApart [] = Unit
AllApart (a ∷ refs) = All (IsApart a) refs × AllApart refs

-- The bytes of the reference hold the address of its label.
abbrev pub HoldsAddress : Labels → List PrsInstn → (ℕ → ℕ) → LabelRef → Type 0
HoldsAddress labels instns c ref =
    some (read_le ref.size c ref.write_offset)
    ≡ (address_of labels instns ref >>= λ v. some (v % 256 ^ ref.size))

none-some : (v : ℕ) → none ≡ some v → ⊥
none-some v e = cc

resolve_label-address :
    (instns : List PrsInstn) (l : Label) (v : ℕ)
    → placed instns l ≡ some v
    → resolve_label instns l ≡ some (address v)
unfolding resolve_label
resolve_label-address instns l v e = elim (Bool-cases l.is_mem_ref) [
  | inl h ↦ rw h (ap (λ k. some (address k)) (eq_of_some (rw h at e)))
  | inr h ↦
      let (p, at, e') =
        bind-eq_some (get_elem? instns l.offset)
          (λ p. if p.mem_offset == minus_one32 then none else some p.mem_offset) v (rw h at e) in
      elim (Bool-cases (p.mem_offset == minus_one32)) [
        | inl k ↦ absurd (none-some v (rw k at e'))
        | inr k ↦ rw (h, at, k) (ap (λ a. some (address a)) (eq_of_some (rw k at e')))
      ]
]

stored :
    (ref : LabelRef) (v : ℕ) (b : Block)
    → (ref.size ≡ 4) ⊎ (ref.size ≡ 8)
    → ref.write_offset + ref.size ≤ b.size
    → store (if ref.size == 4 then 4 else 8) v b ref.write_offset
      ≡ some (record b { cell = write_le ref.size v b.cell ref.write_offset })
unfolding store
stored ref v b size h =
    ap (λ k. store k v b ref.write_offset) (width ref size)
    ∙ rw (le→leb (ref.write_offset + ref.size) b.size h) refl
  where
    width :
        (ref : LabelRef)
        → (ref.size ≡ 4) ⊎ (ref.size ≡ 8)
        → (if ref.size == 4 then 4 else 8) ≡ ref.size
    width ref h = ground arith

-- A store apart from a reference leaves it as it is.
kept :
    (a b : LabelRef) (v : ℕ) (c : ℕ → ℕ)
    → IsApart a b
    → read_le b.size (write_le a.size v c a.write_offset) b.write_offset
      ≡ read_le b.size c b.write_offset
kept a b v c (inl h) =
    read_le_congr b.size _ c b.write_offset
      λ q p r. write_le-above a.size v c a.write_offset q (omega arith)
kept a b v c (inr h) =
    read_le_congr b.size _ c b.write_offset
      λ q p r. write_le-below a.size v c a.write_offset q (omega arith)

-- The bytes of a reference apart from all others are the same behind the loop.
abbrev IsKept : (c d : ℕ → ℕ) → LabelRef → Type 0
IsKept c d a = read_le a.size d a.write_offset ≡ read_le a.size c a.write_offset

no_refs : (r : Parse) → resolve_refs [] r ≡ some (true, r)
unfolding resolve_refs
no_refs r = refl

step :
    (ref : LabelRef) (refs : List LabelRef) (r : Parse) (label : Label) (v : ℕ) (b : Block)
    → r.labels ref.label ≡ some label
    → resolve_label r.instns label ≡ some (address v)
    → store (if ref.size == 4 then 4 else 8) v r.memory ref.write_offset ≡ some b
    → resolve_refs (ref ∷ refs) r ≡ resolve_refs refs (record r { memory = b })
unfolding resolve_refs
step ref refs r label v b e f g = rw (resolve_refs, e, f, g) refl

abbrev with_cells : Parse → (ℕ → ℕ) → Parse
with_cells r c = record r { memory = record (r.memory) { cell = c } }

-- What the loop over the references leaves in the memory
record Written (refs : List LabelRef) (r : Parse) : Type 0 where
  cells : ℕ → ℕ
  done : resolve_refs refs r ≡ some (true, with_cells r cells)
  holds : All (HoldsAddress r.labels r.instns cells) refs
  keeps : (a : LabelRef) → All (IsApart a) refs → IsKept r.memory.cell cells a

resolve_refs-Written :
    (refs : List LabelRef) (r : Parse)
    → All (IsResolvable r.labels r.instns r.memory.size) refs
    → AllApart refs
    → Written refs r
resolve_refs-Written [] r h apart = record {
  cells = r.memory.cell;
  done = no_refs r;
  holds = tt;
  keeps = λ a k. refl;
}
resolve_refs-Written (ref ∷ refs) r h apart =
    let ((v, known), size, within) = h.0 in
    let (label, named, at) = bind-eq_some (r.labels ref.label) (placed r.instns) v known in
    let c = write_le ref.size v r.memory.cell ref.write_offset in
    let rest = resolve_refs-Written refs (with_cells r c) h.1 apart.1 in
    record {
      cells = rest.cells;
      done =
          step ref refs r label v (record (r.memory) { cell = c }) named
            (resolve_label-address r.instns label v at) (stored ref v r.memory size within)
          ∙ rest.done;
      holds = (
        rw known (
            ap some (
              rest.keeps ref apart.0 ∙ read_le-write_le ref.size v r.memory.cell ref.write_offset)),
        rest.holds,
      );
      keeps = λ a k. rest.keeps a k.1 ∙ kept ref a v r.memory.cell (swap a ref k.0);
    }
  where
    swap : (a b : LabelRef) → IsApart a b → IsApart b a
    swap a b (inl k) = inr k
    swap a b (inr k) = inl k

-- Where every reference of the data section stands inside the memory and names a label that has an
-- address, and no two share a byte, `resolve_data_label_refs` succeeds, changes the memory alone, and leaves
-- in the bytes of each reference the address of its label.
pub resolve_data_label_refs_lem :
    (r : Parse)
    → All (IsResolvable r.labels r.instns r.memory.size) r.label_refs
    → AllApart r.label_refs
    → (c : ℕ → ℕ) × (resolve_data_label_refs r
        ≡ some (true, record r { memory = record (r.memory) { cell = c } }))
      × All (HoldsAddress r.labels r.instns c) r.label_refs
unfolding resolve_data_label_refs
resolve_data_label_refs_lem r h apart =
    let w = resolve_refs-Written r.label_refs r h apart in (w.cells, w.done, w.holds)
