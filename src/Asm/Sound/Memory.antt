-- ===== src/Asm/Sound/Memory.antt =====
-- The memory of the data section stays in its block: `ensure_memory_alloc`, `write_to_memory` and
-- `set_memory_size` of src/parser.c.
use bvgz_vm.Common.{
  ℕ, zero, suc, ◌+◌, ◌%◌, ◌^◌, ◌≤◌, ◌<◌, ◌≡◌, refl, Bool, true, false, List, some, leb, ltb, ◌==◌,
  length, arith, if◌then◌else◌, inl, inr, Bool-cases,
}
use bvgz_vm.Vm.{minus_one32}
use bvgz_vm.Memory.{Block}
use bvgz_vm.Asm.{Parse, report_warning}
use bvgz_vm.Asm.Section.{
  mem_alloc_block_sz, grow_size, grown, ensure_memory_alloc, ensure_memory_at_offset, copy_in,
  write_to_memory, set_memory_size,
}
use bvgz_vm.Asm.Sound.{IsFitting, IsSound, Ensures, weaken-Ensures, bind-Ensures, cond-Ensures}

abbrev IsGrown : (alloc m : ℕ) → Type 0
IsGrown alloc m = (alloc ≤ m) × (m < 2 ^ 32) × (m % 2 ≡ 0)

grow_size-IsGrown :
    (fuel alloc n : ℕ) → n < 2 ^ 32 → n % 2 ≡ 0 → Ensures (IsGrown alloc) (grow_size fuel alloc n)
unfolding grow_size
grow_size-IsGrown zero alloc n w even = ground arith
grow_size-IsGrown (suc fuel) alloc n w even =
    let rest =
      grow_size-IsGrown fuel alloc ((n + mem_alloc_block_sz) % 2 ^ 32) (omega arith)
        (omega arith) in
    elim (Bool-cases (leb alloc n)) [ inl h ↦ rw h (ground arith, w, even) | inr h ↦ rw h rest ]

grown-IsFitting :
    (b : Block) (memsz alloc m : ℕ)
    → IsFitting b memsz
    → IsGrown alloc m
    → IsFitting (grown b m) memsz × (alloc ≤ (grown b m).size)
grown-IsFitting b memsz alloc m s g = elim (Bool-cases (ltb b.size m)) [
  | inl h ↦ rw h (ground arith)
  | inr h ↦ rw h (ground arith)
]

-- The block has room for the request, and the rest is kept.
abbrev pub HasRoom : (alloc : ℕ) → Parse → Parse → Type 0
HasRoom alloc r r' = IsSound r' × (alloc ≤ r'.memory.size) × (r'.memsz ≡ r.memsz)

pub ensure_memory_alloc-HasRoom :
    (alloc : ℕ) (r : Parse) → IsSound r → Ensures (HasRoom alloc r) (ensure_memory_alloc alloc r)
unfolding ensure_memory_alloc
ensure_memory_alloc-HasRoom alloc r s = elim (Bool-cases (ltb r.memsz alloc)) [
  | inl h ↦ rw h (
      bind-Ensures (IsGrown alloc) (HasRoom alloc r) (grow_size alloc alloc r.memory.size) _
        (grow_size-IsGrown alloc alloc r.memory.size s.0.1 s.0.2)
        (λ m g.
          let (fit, room) = grown-IsFitting r.memory r.memsz alloc m s.0 g in
          ((fit, s.1), room, refl)))
  | inr h ↦ rw h ((s, ground arith, refl))
]

pub ensure_memory_at_offset-IsSound :
    (size offset : ℕ) (r : Parse)
    → IsSound r
    → Ensures IsSound (ensure_memory_at_offset size offset r)
unfolding ensure_memory_at_offset
ensure_memory_at_offset-IsSound size offset r s =
    let alloc = (offset + (if size == 0 then 1 else size)) % 2 ^ 32 in
    cond-Ensures IsSound (offset == minus_one32) (some r) (ensure_memory_alloc alloc r) s (
      weaken-Ensures (HasRoom alloc r) IsSound (ensure_memory_alloc alloc r)
        (ensure_memory_alloc-HasRoom alloc r s) (λ r' h. h.0))

-- What is written stands inside the block, whose size stays.
abbrev IsCopied : (to : ℕ) → Block → Block → Type 0
IsCopied to b b' = (to ≤ b.size) × (b'.size ≡ b.size)

copy_in-IsCopied :
    (src : List ℕ) (at : ℕ) (b : Block) → Ensures (IsCopied (at + length src) b) (copy_in src at b)
unfolding copy_in
copy_in-IsCopied src at b = ground arith

pub write_to_memory-IsSound :
    (src : List ℕ) (mem_offset : ℕ) (r : Parse)
    → IsSound r
    → Ensures IsSound (write_to_memory src mem_offset r)
unfolding write_to_memory
write_to_memory-IsSound src mem_offset r s =
    let alloc = (mem_offset + length src) % 2 ^ 32 in
    bind-Ensures (HasRoom alloc r) IsSound (ensure_memory_alloc alloc r) _
      (ensure_memory_alloc-HasRoom alloc r s)
      (λ r' h.
        bind-Ensures (IsCopied (mem_offset + length src) r'.memory) IsSound
          (copy_in src mem_offset r'.memory) _ (copy_in-IsCopied src mem_offset r'.memory)
          (λ b c. (omega (arith, h, c), h.0.1)))

-- The memory as it is, or with room for a larger size.
abbrev HasTotal : (total : ℕ) → Parse → Type 0
HasTotal total r = IsSound r × (total ≤ r.memory.size)

pub set_memory_size-IsSound :
    (original_offset size : ℕ) (r : Parse)
    → IsSound r
    → Ensures IsSound (set_memory_size original_offset size r)
unfolding set_memory_size
set_memory_size-IsSound original_offset size r s =
    let total = (size + original_offset) % 2 ^ 32 in
    cond-Ensures IsSound (size == minus_one32) (some r) _ s (
      bind-Ensures (HasTotal total) IsSound _ _
        (sized total (ltb total r.memsz) (ltb r.memsz total) refl refl)
        (λ r' h. (omega (arith, h), h.0.1)))
  where
    sized :
        (total : ℕ) (less more : Bool)
        → ltb total r.memsz ≡ less
        → ltb r.memsz total ≡ more
        → Ensures (HasTotal total) (
            if less
            then some (report_warning r)
            else if more
            then ensure_memory_alloc total r
            else some r)
    sized total true more e f = (s, ground arith)
    sized total false true e f =
        weaken-Ensures (HasRoom total r) (HasTotal total) (ensure_memory_alloc total r)
          (ensure_memory_alloc-HasRoom total r s) (λ r' h. (h.0, h.1))
    sized total false false e f = (s, ground arith)
