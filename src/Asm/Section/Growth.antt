-- ===== src/Asm/Section/Growth.antt =====
-- The block of the memory that src/parser.c fills: how far it grows, and that what is written stays in it.
use bvgz_vm.Common.{
  ℕ, zero, suc, ◌+◌, ◌-◌, ◌%◌, ◌^◌, ◌≤◌, ◌<◌, ◌≡◌, refl, ◌∙◌, List, [], ◌∷◌, none, some, leb, ltb,
  length, arith, inl, inr, le→leb, lt→leb_false, ap, sym, ◌++◌, length-append, Bool-cases,
}
use bvgz_vm.Memory.{Block, update}
use bvgz_vm.Format.{BytesAt}
use bvgz_vm.Codegen.Buffer.{append-BytesAt, BytesAt_congr}
use bvgz_vm.Codegen.Emission.{bind-some}
use bvgz_vm.Asm.{Parse}
use bvgz_vm.Asm.Section.{
  mem_alloc_block_sz, grow_size, grown, ensure_memory_alloc, write_bytes, copy_in, write_to_memory,
}

-- Enough fuel: below the last whole step before the wrap, the loop ends with room for the request.
pub grow_size-some :
    (fuel alloc n : ℕ)
    → alloc + mem_alloc_block_sz ≤ 2 ^ 32
    → alloc ≤ n + fuel
    → n < 2 ^ 32
    → (m : ℕ) × (grow_size fuel alloc n ≡ some m) × (alloc ≤ m) × (n ≤ m) × (m < 2 ^ 32)
unfolding grow_size
grow_size-some zero alloc n h k w = (n, ground arith, omega arith, omega arith, omega arith)
grow_size-some (suc fuel) alloc n h k w = elim (Bool-cases (leb alloc n)) [
  | inl e ↦ (n, rw e refl, ground arith, omega arith, omega arith)
  | inr e ↦
      let below : n < alloc = ground arith in
      let (m, done, room, more, fits) =
        grow_size-some fuel alloc ((n + mem_alloc_block_sz) % 2 ^ 32) h (omega arith)
          (omega arith) in
      (m, rw e done, room, omega arith, fits)
]

-- What the loop gives is room for the request.
grow_size-le : (fuel alloc n m : ℕ) → grow_size fuel alloc n ≡ some m → alloc ≤ m
unfolding grow_size
grow_size-le zero alloc n m e = ground arith
grow_size-le (suc fuel) alloc n m e = elim (Bool-cases (leb alloc n)) [
  | inl h ↦ ground arith
  | inr h ↦ grow_size-le fuel alloc ((n + mem_alloc_block_sz) % 2 ^ 32) m (rw h at e)
]

write_bytes-below :
    (bs : List ℕ) (at : ℕ) (c : ℕ → ℕ) (q : ℕ) → q < at → write_bytes bs at c q ≡ c q
unfolding write_bytes
write_bytes-below [] at c q h = refl
write_bytes-below (b ∷ bs) at c q h =
    ground (arith, write_bytes-below bs (at + 1) (update c at b) q)

BytesAt-write_bytes : (bs : List ℕ) (at : ℕ) (c : ℕ → ℕ) → BytesAt (write_bytes bs at c) at bs
unfolding write_bytes
BytesAt-write_bytes [] at c = tt
BytesAt-write_bytes (b ∷ bs) at c = (
  write_bytes-below bs (at + 1) (update c at b) at (omega arith) ∙ ground arith,
  BytesAt-write_bytes bs (at + 1) (update c at b),
)

-- The bytes stand behind the memory in use, which they extend; what was there is kept, and nothing but
-- the memory changes.
pub record Extends (bs : List ℕ) (r r' : Parse) : Type 0 where
  pub memsz : r'.memsz ≡ r.memsz + length bs
  pub bytes : BytesAt r'.memory.cell r.memsz bs
  pub below : (q : ℕ) → q < r.memsz → r'.memory.cell q ≡ r.memory.cell q
  pub fits : r'.memsz ≤ r'.memory.size
  pub small : r'.memory.size < 2 ^ 32
  pub rest : r' ≡ record r { memory = r'.memory; memsz = r'.memsz }

-- Room for a request behind the memory in use
ensure_memory_alloc-some :
    (alloc : ℕ) (r : Parse)
    → alloc + mem_alloc_block_sz ≤ 2 ^ 32
    → r.memsz ≤ alloc
    → r.memsz ≤ r.memory.size
    → r.memory.size < 2 ^ 32
    → (b : Block) × (ensure_memory_alloc alloc r ≡ some (record r { memory = b }))
      × (alloc ≤ b.size)
      × (b.size < 2 ^ 32)
      × ((q : ℕ) → q < r.memsz → b.cell q ≡ r.memory.cell q)
unfolding ensure_memory_alloc
ensure_memory_alloc-some alloc r h k fits small = elim (Bool-cases (ltb r.memsz alloc)) [
  | inr e ↦ (r.memory, rw e refl, ground arith, small, λ q p. refl)
  | inl e ↦
      let (m, done, room, more, less) =
        grow_size-some alloc alloc r.memory.size h (omega arith) small in
      (
        grown r.memory m,
        rw (e, done) refl,
        grown_room r.memory m alloc room more,
        grown_small r.memory m less small,
        λ q p. grown_cell r.memory m q (omega arith),
      )
]
  where
    grown_room : (b : Block) (m a : ℕ) → a ≤ m → b.size ≤ m → a ≤ (grown b m).size
    grown_room b m a p l = ground arith

    grown_small : (b : Block) (m : ℕ) → m < 2 ^ 32 → b.size < 2 ^ 32 → (grown b m).size < 2 ^ 32
    grown_small b m p l = ground arith

    grown_cell : (b : Block) (m q : ℕ) → q < b.size → (grown b m).cell q ≡ b.cell q
    grown_cell b m q l = ground arith

copy_in-some :
    (src : List ℕ) (at : ℕ) (b : Block)
    → at + length src ≤ b.size
    → copy_in src at b ≡ some (record b { cell = write_bytes src at b.cell })
unfolding copy_in
copy_in-some src at b h = rw (le→leb (at + length src) b.size h) refl

pub write_to_memory-Extends :
    (src : List ℕ) (r : Parse)
    → r.memsz + length src + mem_alloc_block_sz ≤ 2 ^ 32
    → r.memsz ≤ r.memory.size
    → r.memory.size < 2 ^ 32
    → (r' : Parse) × (write_to_memory src r.memsz r ≡ some r') × Extends src r r'
unfolding write_to_memory
write_to_memory-Extends src r h fits small =
    let wrap : (r.memsz + length src) % 2 ^ 32 ≡ r.memsz + length src = omega arith in
    let (b, done, room, less, kept) =
      ensure_memory_alloc-some (r.memsz + length src) r (omega arith) (omega arith) fits small in
    let b' : Block = record b { cell = write_bytes src r.memsz b.cell } in
    let r' : Parse = record r { memory = b'; memsz = r.memsz + length src } in
    (
      r',
      bind-some (ensure_memory_alloc ((r.memsz + length src) % 2 ^ 32) r) _
          (record r { memory = b }) _ (ap (λ k. ensure_memory_alloc k r) wrap ∙ done)
          (bind-some (copy_in src r.memsz b) _ b' _ (copy_in-some src r.memsz b room)
            (ap (λ k. some (record r { memory = b'; memsz = k })) wrap)),
      record {
        memsz = refl;
        bytes = BytesAt-write_bytes src r.memsz b.cell;
        below = λ q p. write_bytes-below src r.memsz b.cell q p ∙ kept q p;
        fits = room;
        small = less;
        rest = refl;
      },
    )

pub Extends-trans :
    (xs ys : List ℕ) (r r' r'' : Parse)
    → Extends xs r r'
    → Extends ys r' r''
    → Extends (xs ++ ys) r r''
Extends-trans xs ys r r' r'' h k = record {
  memsz = omega (arith, h.memsz, k.memsz, length-append xs ys);
  bytes =
      append-BytesAt r''.memory.cell r.memsz r'.memsz xs ys (sym h.memsz)
        (BytesAt_congr r'.memory.cell r''.memory.cell r.memsz xs
          (λ q p. k.below q (omega (arith, h.memsz))) h.bytes)
        k.bytes;
  below = λ q p. k.below q (omega (arith, h.memsz)) ∙ h.below q p;
  fits = k.fits;
  small = k.small;
  rest = k.rest ∙ ap (λ (p : Parse). record p { memory = r''.memory; memsz = r''.memsz }) h.rest;
}

-- From an even size no whole step reaches the largest number of 32 bits.
pub grow_size-never : (fuel n : ℕ) → n < 2 ^ 32 → n % 2 ≡ 0 → grow_size fuel (2 ^ 32 - 1) n ≡ none
unfolding grow_size
grow_size-never zero n h even = rw (lt→leb_false (2 ^ 32 - 1) n (omega arith)) refl
grow_size-never (suc fuel) n h even =
    rw (lt→leb_false (2 ^ 32 - 1) n (omega arith))
      (grow_size-never fuel ((n + mem_alloc_block_sz) % 2 ^ 32) (omega arith) (omega arith))
