-- ===== src/Image.antt =====
-- Image files: `write_bvgz_image_direct` and `read_bvgz_image` of src/bytecode.c, over byte lists. A
-- file that is read is the bytes that are left of it; a file that is written takes a number of bytes.
pub mod Bytes
pub mod Laws
use bvgz_vm.Common.{
  ℕ, zero, suc, ◌+◌, ◌-◌, ◌*◌, ◌%◌, Option, none, some, List, [], ◌∷◌, ◌++◌, length, get_elem?, leb,
  ltb, ◌==◌, if◌then◌else◌,
}
use bvgz_vm.Memory.{Block}
use bvgz_vm.Vm.{Vm}
use bvgz_vm.Vm.Procedures.{make_vm}
use bvgz_vm.Format.{le_bytes}

abbrev pub bvgz_img_magic : ℕ
bvgz_img_magic = 0xB0C5

abbrev pub bvgz_img_f_exec : ℕ
bvgz_img_f_exec = 0x1

abbrev pub bvgz_img_f_debug : ℕ
bvgz_img_f_debug = 0x2

infixl 5 ◌>>=◌
abbrev ◌>>=◌ {ℓ κ} : {A : Type ℓ} {B : Type κ} → Option A → (A → Option B) → Option B
o >>= f = elim o [ none ↦ none | some a ↦ f a ]

-- What was written, and how many bytes the device takes still.
pub record Output : Type 0 where
  pub bytes : List ℕ
  pub room : ℕ

-- `fwrite(…, n, 1, fp) != 1` is `none`; of no bytes none is written, and the result is 0.
unfoldable pub fwrite : List ℕ → Output → Option Output
fwrite [] fp = none
fwrite (b ∷ bs) fp =
    if leb (length (b ∷ bs)) fp.room
    then some (record { bytes = fp.bytes ++ b ∷ bs; room = fp.room - length (b ∷ bs) })
    else none

-- `fread(…, n, 1, fp) != 1` is `none`.
unfoldable pub take_bytes : ℕ → List ℕ → Option (List ℕ × List ℕ)
take_bytes zero fp = some ([], fp)
take_bytes (suc n) [] = none
take_bytes (suc n) (b ∷ fp) = take_bytes n fp >>= λ r. some (b ∷ r.0, r.1)

unfoldable pub fread : ℕ → List ℕ → Option (List ℕ × List ℕ)
fread n fp = if n == 0 then none else take_bytes n fp

-- The bytes as a number, least significant first.
abbrev pub number : List ℕ → ℕ
number [] = 0
number (b ∷ bs) = b + 256 * number bs

-- The `n` bytes of a block.
unfoldable pub block_bytes : (n at : ℕ) → (ℕ → ℕ) → List ℕ
block_bytes zero at cell = []
block_bytes (suc n) at cell = cell at ∷ block_bytes n (at + 1) cell

-- The block with the bytes that were read into it.
abbrev pub filled : List ℕ → (ℕ → ℕ) → ℕ → ℕ
filled bs cell q = elim (get_elem? bs q) [ none ↦ cell q | some b ↦ b ]

unfoldable pub write_bvgz_image_direct :
    Output → (code : ℕ → ℕ) (codesz : ℕ) (mem : ℕ → ℕ) (memsz entry_label flags : ℕ) → Option Output
write_bvgz_image_direct fp code codesz mem memsz entry_label flags = do
  fp ← fwrite (le_bytes 2 bvgz_img_magic) fp
  fp ← fwrite (le_bytes 2 flags) fp
  fp ← fwrite (le_bytes 4 entry_label) fp
  fp ← fwrite (le_bytes 4 codesz) fp
  fp ← fwrite (le_bytes 4 memsz) fp
  fp ← fwrite (block_bytes codesz 0 code) fp
  if ltb 0 memsz then fwrite (block_bytes memsz 0 mem) fp else some fp

-- `none` is NULL. `malloc` leaves `junk` in the code block until it is read.
unfoldable pub read_bvgz_image : (junk : ℕ → ℕ) → List ℕ → Option Vm
read_bvgz_image junk fp = do
  (magic, fp) ← fread 2 fp
  if number magic == bvgz_img_magic
      then (do
        (flags, fp) ← fread 2 fp
        if number flags % 2 == 0 then none else (do
          (entry, fp) ← fread 4 fp
          (codesz, fp) ← fread 4 fp
          if number codesz == 0 then none else (do
            (memsz, fp) ← fread 4 fp
            let vm = make_vm junk (number codesz) (number memsz) (number entry)
            (code, fp) ← fread vm.code.size fp
            let loaded = record vm { code = record (vm.code) { cell = filled code vm.code.cell } }
            if ltb 0 loaded.memsz
                then (do
                  (mem, fp) ← fread loaded.memsz fp
                  some (record loaded {
                    memory = record (loaded.memory) { cell = filled mem loaded.memory.cell };
                  }))
                else some loaded)))
      else none
