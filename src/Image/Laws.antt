-- ===== src/Image/Laws.antt =====
-- Writing an image and reading it back.
use mathlib.Core.List.{append-nil}
use bvgz_vm.Common.{
  ℕ, ◌+◌, ◌-◌, ◌%◌, ◌^◌, ◌≤◌, ◌<◌, ◌≡◌, refl, ◌∙◌, Option, none, some, List, [], ◌∷◌, ◌++◌, length,
  ltb, if◌then◌else◌, arith, ap, sym, Bool-cases, inl, inr,
}
use bvgz_vm.Vm.{Vm}
use bvgz_vm.Vm.Procedures.{make_vm, make_procedure}
use bvgz_vm.Format.{le_bytes}
use bvgz_vm.Format.Decoding.{length-le_bytes}
use bvgz_vm.Image.{
  Output, fwrite, fread, number, block_bytes, filled, write_bvgz_image_direct, read_bvgz_image,
  bvgz_img_magic,
}
use bvgz_vm.Image.Bytes.{
  length-block_bytes, filled-block_bytes, number-le_bytes, appended, fwrite-appended, fread-append,
  no_bytes, header_assoc, fread_all,
}

make_vm-blocks :
    (junk : ℕ → ℕ) (codesz memsz entry : ℕ)
    → ((make_vm junk codesz memsz entry).code.size ≡ codesz)
      × ((make_vm junk codesz memsz entry).memory.size ≡ memsz)
      × ((make_vm junk codesz memsz entry).memsz ≡ memsz)
unfolding make_vm make_procedure
make_vm-blocks junk codesz memsz entry = ground arith

-- The machine with the code that was read, and the last step of the reading.
abbrev with_code : List ℕ → Vm → Vm
with_code c v = record v { code = record (v.code) { cell = filled c v.code.cell } }

abbrev with_memory : List ℕ → Vm → Option Vm
with_memory fp v =
    if ltb 0 v.memsz
    then elim (fread v.memsz fp) [
      | none ↦ none
      | some (mem, rest) ↦
          some (record v { memory = record (v.memory) { cell = filled mem v.memory.cell } })
    ]
    else some v

-- Reading, once each field is read.
read_steps :
    (junk : ℕ → ℕ) (f₁ f₂ f₃ f₄ f₅ f₆ f₇ magic fl entry cs ms c : List ℕ)
    (codesz memsz entry_label : ℕ)
    → fread 2 f₁ ≡ some (magic, f₂)
    → fread 2 f₂ ≡ some (fl, f₃)
    → fread 4 f₃ ≡ some (entry, f₄)
    → fread 4 f₄ ≡ some (cs, f₅)
    → fread 4 f₅ ≡ some (ms, f₆)
    → number magic ≡ bvgz_img_magic
    → number fl % 2 ≡ 1
    → number entry ≡ entry_label
    → number cs ≡ codesz
    → number ms ≡ memsz
    → 0 < codesz
    → fread (make_vm junk codesz memsz entry_label).code.size f₆ ≡ some (c, f₇)
    → read_bvgz_image junk f₁ ≡ with_memory f₇ (with_code c (make_vm junk codesz memsz entry_label))
unfolding read_bvgz_image
read_steps junk f₁ f₂ f₃ f₄ f₅ f₆ f₇ magic fl entry cs ms c codesz memsz entry_label r₁ r₂ r₃ r₄ r₅
      n₁ n₂ n₃ n₄ n₅ pos r₆ =
    ground (arith, r₁, r₂, r₃, r₄, r₅, n₁, n₂, n₃, n₄, n₅, r₆)

with_memory-filled :
    (m : List ℕ) (v : Vm)
    → length m ≡ v.memsz
    → with_memory m v
      ≡ some (record v { memory = record (v.memory) { cell = filled m v.memory.cell } })
with_memory-filled [] v e = ground arith
with_memory-filled (b ∷ m) v e = ground (arith, fread_all (b ∷ m) v.memsz e)

-- The bytes of an image file in their order.
abbrev pub image : (code : ℕ → ℕ) (codesz : ℕ) (mem : ℕ → ℕ) (memsz entry_label flags : ℕ) → List ℕ
image code codesz mem memsz entry_label flags =
    le_bytes 2 bvgz_img_magic
    ++ (le_bytes 2 flags
        ++ (le_bytes 4 entry_label
            ++ (le_bytes 4 codesz
                ++ (le_bytes 4 memsz ++ (block_bytes codesz 0 code ++ block_bytes memsz 0 mem)))))

module _ (code mem : ℕ → ℕ) (codesz memsz entry_label flags : ℕ) where
  write_memory :
      (left : ℕ) (fp : Output)
      → fp.room ≡ left
      → memsz ≤ left
      → (if ltb 0 memsz then fwrite (block_bytes memsz 0 mem) fp else some fp)
        ≡ some (record { bytes = fp.bytes ++ block_bytes memsz 0 mem; room = left - memsz })
  write_memory left fp e fits = elim (Bool-cases (ltb 0 memsz)) [
    | inl pos ↦
        let len = length-block_bytes memsz 0 mem in
        ground (
          arith,
          pos,
          e,
          len,
          fwrite-appended (block_bytes memsz 0 mem) fp memsz len (ground arith) (omega (arith, e)),
        )
    | inr empty ↦
        let zero_size : memsz ≡ 0 = ground arith in
        let nothing = ap (λ n. block_bytes n 0 mem) zero_size ∙ no_bytes mem in
        ground (arith, empty, e, nothing, append-nil fp.bytes)
  ]

  the_room :
      (room : ℕ)
      → 16 + codesz + memsz ≤ room
      → room - 16 - codesz - memsz ≡ room - (16 + codesz + memsz)
  the_room room fits = omega arith

  -- An executable image of at least one byte of code, written to a device that has room for it, is
  -- the sixteen bytes of its header, its code and its memory.
  pub write_bvgz_image_direct-image :
      (room : ℕ)
      → 0 < codesz
      → 16 + codesz + memsz ≤ room
      → write_bvgz_image_direct
          (record { bytes = []; room = room })
          code
          codesz
          mem
          memsz
          entry_label
          flags
        ≡ some (record {
          bytes = image code codesz mem memsz entry_label flags;
          room = room - (16 + codesz + memsz);
        })
  unfolding write_bvgz_image_direct
  write_bvgz_image_direct-image room pos fits =
      let fp : Output = record { bytes = []; room = room } in
      let l₁ = length-le_bytes 2 bvgz_img_magic in
      let l₂ = length-le_bytes 2 flags in
      let l₃ = length-le_bytes 4 entry_label in
      let l₄ = length-le_bytes 4 codesz in
      let l₅ = length-le_bytes 4 memsz in
      let l₆ = length-block_bytes codesz 0 code in
      let l₇ = length-block_bytes memsz 0 mem in
      let s₁ = fwrite-appended (le_bytes 2 bvgz_img_magic) fp 2 l₁ (omega arith) (omega arith) in
      let fp₁ = appended fp (le_bytes 2 bvgz_img_magic) in
      let s₂ = fwrite-appended (le_bytes 2 flags) fp₁ 2 l₂ (omega arith) (omega (arith, l₁)) in
      let fp₂ = appended fp₁ (le_bytes 2 flags) in
      let s₃ =
        fwrite-appended (le_bytes 4 entry_label) fp₂ 4 l₃ (omega arith) (omega (arith, l₁, l₂)) in
      let fp₃ = appended fp₂ (le_bytes 4 entry_label) in
      let s₄ =
        fwrite-appended (le_bytes 4 codesz) fp₃ 4 l₄ (omega arith) (omega (arith, l₁, l₂, l₃)) in
      let fp₄ = appended fp₃ (le_bytes 4 codesz) in
      let s₅ =
        fwrite-appended (le_bytes 4 memsz) fp₄ 4 l₅ (omega arith) (omega (arith, l₁, l₂, l₃, l₄)) in
      let fp₅ = appended fp₄ (le_bytes 4 memsz) in
      let s₆ =
        fwrite-appended (block_bytes codesz 0 code) fp₅ codesz l₆ pos
          (omega (arith, l₁, l₂, l₃, l₄, l₅)) in
      let fp₆ = appended fp₅ (block_bytes codesz 0 code) in
      let left : ℕ = room - 16 - codesz in
      let rest : fp₆.room ≡ left = omega (arith, l₁, l₂, l₃, l₄, l₅, l₆) in
      rw (s₁, s₂, s₃, s₄, s₅, s₆)
        (write_memory left fp₆ rest (omega arith)
          ∙ cc (
            header_assoc (le_bytes 2 bvgz_img_magic) (le_bytes 2 flags) (le_bytes 4 entry_label)
                (le_bytes 4 codesz) (le_bytes 4 memsz) (block_bytes codesz 0 code)
                (block_bytes memsz 0 mem),
            the_room room fits,
          ))

  -- The machine that is read from an image has its code, its memory, and one procedure at its entry;
  -- everything else is as `make_vm` leaves it.
  pub read_bvgz_image-image :
      (junk : ℕ → ℕ)
      → 0 < codesz
      → codesz < 2 ^ 32
      → memsz < 2 ^ 32
      → entry_label < 2 ^ 32
      → flags < 2 ^ 16
      → flags % 2 ≡ 1
      → (vm : Vm) × (read_bvgz_image junk (image code codesz mem memsz entry_label flags) ≡ some vm)
        × (vm
            ≡ record (make_vm junk codesz memsz entry_label) { code = vm.code; memory = vm.memory })
        × ((vm.code.size ≡ codesz) × (vm.memory.size ≡ memsz))
        × ((q : ℕ) → q < codesz → vm.code.cell q ≡ code q)
        × ((q : ℕ) → q < memsz → vm.memory.cell q ≡ mem q)
  unfolding read_bvgz_image
  read_bvgz_image-image junk pos small small_mem small_entry small_flags exec =
      let v = make_vm junk codesz memsz entry_label in
      let c = block_bytes codesz 0 code in
      let m = block_bytes memsz 0 mem in
      let sizes = make_vm-blocks junk codesz memsz entry_label in
      let n₁ = number-le_bytes 2 bvgz_img_magic (omega arith) in
      let n₂ = number-le_bytes 2 flags (omega arith) in
      let n₃ = number-le_bytes 4 entry_label (omega arith) in
      let n₄ = number-le_bytes 4 codesz (omega arith) in
      let n₅ = number-le_bytes 4 memsz (omega arith) in
      let f₅ = le_bytes 4 memsz ++ (c ++ m) in
      let f₄ = le_bytes 4 codesz ++ f₅ in
      let f₃ = le_bytes 4 entry_label ++ f₄ in
      let f₂ = le_bytes 2 flags ++ f₃ in
      let r₁ =
        fread-append (le_bytes 2 bvgz_img_magic) f₂ 2 (length-le_bytes 2 bvgz_img_magic)
          (omega arith) in
      let r₂ = fread-append (le_bytes 2 flags) f₃ 2 (length-le_bytes 2 flags) (omega arith) in
      let r₃ =
        fread-append (le_bytes 4 entry_label) f₄ 4 (length-le_bytes 4 entry_label) (omega arith) in
      let r₄ = fread-append (le_bytes 4 codesz) f₅ 4 (length-le_bytes 4 codesz) (omega arith) in
      let r₅ = fread-append (le_bytes 4 memsz) (c ++ m) 4 (length-le_bytes 4 memsz) (omega arith) in
      let r₆ =
        fread-append c m v.code.size (length-block_bytes codesz 0 code ∙ sym sizes.0)
          (omega (arith, sizes.0)) in
      let vm : Vm = record v {
        code = record (v.code) { cell = filled c v.code.cell };
        memory = record (v.memory) { cell = filled m v.memory.cell };
      } in
      (
        vm,
        read_steps junk (image code codesz mem memsz entry_label flags) f₂ f₃ f₄ f₅ (c ++ m) m
              (le_bytes 2 bvgz_img_magic) (le_bytes 2 flags) (le_bytes 4 entry_label)
              (le_bytes 4 codesz) (le_bytes 4 memsz) c codesz memsz entry_label r₁ r₂ r₃ r₄ r₅ n₁
              (ap (λ k. k % 2) n₂ ∙ exec) n₃ n₄ n₅ pos r₆
            ∙ with_memory-filled m (with_code c v) (length-block_bytes memsz 0 mem ∙ sym sizes.2),
        refl,
        (sizes.0, sizes.1),
        λ q h. filled-block_bytes codesz q code v.code.cell h,
        λ q h. filled-block_bytes memsz q mem v.memory.cell h,
      )

-- An executable image that was written to a device with room for it is read back: the machine has
-- the code and the memory that were written, one procedure at the entry if that is an address of the
-- code, and is otherwise as `make_vm` leaves it.
pub read_bvgz_image-write_bvgz_image_direct :
    (code mem : ℕ → ℕ) (codesz memsz entry_label flags room : ℕ) (junk : ℕ → ℕ)
    → 0 < codesz
    → codesz < 2 ^ 32
    → memsz < 2 ^ 32
    → entry_label < 2 ^ 32
    → flags < 2 ^ 16
    → flags % 2 ≡ 1
    → 16 + codesz + memsz ≤ room
    → (fp : Output) × (vm : Vm) × (write_bvgz_image_direct
          (record { bytes = []; room = room })
          code
          codesz
          mem
          memsz
          entry_label
          flags
        ≡ some fp)
      × (read_bvgz_image junk fp.bytes ≡ some vm)
      × (vm ≡ record (make_vm junk codesz memsz entry_label) { code = vm.code; memory = vm.memory })
      × ((vm.code.size ≡ codesz) × (vm.memory.size ≡ memsz))
      × ((q : ℕ) → q < codesz → vm.code.cell q ≡ code q)
      × ((q : ℕ) → q < memsz → vm.memory.cell q ≡ mem q)
read_bvgz_image-write_bvgz_image_direct code mem codesz memsz entry_label flags room junk pos small
      small_mem small_entry small_flags exec fits =
    let (vm, back, fields, sizes, code_back, mem_back) =
      read_bvgz_image-image code mem codesz memsz entry_label flags junk pos small small_mem
        small_entry small_flags exec in
    (
      _,
      vm,
      write_bvgz_image_direct-image code mem codesz memsz entry_label flags room pos fits,
      back,
      fields,
      sizes,
      code_back,
      mem_back,
    )
