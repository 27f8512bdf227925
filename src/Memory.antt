-- ===== src/Memory.antt =====
-- Blocks of bytes and the little-endian accesses that the code makes through cast pointers:
-- the macros `lref8` to `lref64` of src/instns/instn_impl.h and the casts of the other files.
-- An access that leaves its block is undefined behaviour in C, and is `none` here.
pub mod Access
use bvgz_vm.Common.{
  ℕ, zero, suc, ◌+◌, ◌-◌, ◌*◌, ◌/◌, ◌%◌, ◌≤◌, ◌<◌, Option, none, some, leb, ltb, ◌==◌,
  if◌then◌else◌,
}

-- A heap block: `cell` is read below `size` alone.
pub record Block : Type 0 where
  pub size : ℕ
  pub cell : ℕ → ℕ

abbrev pub update : (ℕ → ℕ) → ℕ → ℕ → ℕ → ℕ
update c a v q = if q == a then v else c q

-- The `n` bytes from `a` on as a number, least significant byte first.
unfoldable pub read_le : ℕ → (ℕ → ℕ) → ℕ → ℕ
read_le zero c a = 0
read_le (suc n) c a = c a + 256 * read_le n c (a + 1)

-- The same bytes overwritten by those of `v`.
unfoldable pub write_le : ℕ → ℕ → (ℕ → ℕ) → ℕ → ℕ → ℕ
write_le zero v c a = c
write_le (suc n) v c a = write_le n (v / 256) (update c a (v % 256)) (a + 1)

unfoldable pub load : ℕ → Block → ℕ → Option ℕ
load n b a = if leb (a + n) b.size then some (read_le n b.cell a) else none

unfoldable pub store : ℕ → ℕ → Block → ℕ → Option Block
store n v b a =
    if leb (a + n) b.size then some (record b { cell = write_le n v b.cell a }) else none

-- `memcpy(dst + d, src + s, n)` between blocks.
abbrev pub copied : ℕ → (ℕ → ℕ) → ℕ → (ℕ → ℕ) → ℕ → ℕ → ℕ
copied n src s dst d q =
    if leb d q then (if ltb q (d + n) then src (s + (q - d)) else dst q) else dst q

unfoldable pub copy : ℕ → Block → ℕ → Block → ℕ → Option Block
copy n src s dst d =
    if leb (s + n) src.size
    then (if leb (d + n) dst.size
        then some (record dst { cell = copied n src.cell s dst.cell d })
        else none)
    else none

-- Every cell holds a byte.
abbrev pub IsBytes : (ℕ → ℕ) → Type 0
IsBytes c = (q : ℕ) → c q < 256
