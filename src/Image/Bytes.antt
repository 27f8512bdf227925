-- ===== src/Image/Bytes.antt =====
-- Lists of bytes: what `fwrite` appends, `fread` gives back, and what a block holds that was read.
use mathlib.Core.List.{append_assoc, append-nil}
use bvgz_vm.Common.{
  ℕ, zero, suc, ◌+◌, ◌-◌, ◌/◌, ◌^◌, ◌≤◌, ◌<◌, ◌≡◌, refl, ◌∙◌, some, List, [], ◌∷◌, ◌++◌, length,
  get_elem?, arith, ap, sym,
}
use bvgz_vm.Format.{le_bytes}
use bvgz_vm.Memory.Access.{pow_suc_256}
use bvgz_vm.Image.{Output, fwrite, fread, take_bytes, number, block_bytes, filled}

pub take_bytes-append : (xs ys : List ℕ) → take_bytes (length xs) (xs ++ ys) ≡ some (xs, ys)
unfolding take_bytes
take_bytes-append [] ys = refl
take_bytes-append (x ∷ xs) ys = rw (take_bytes-append xs ys)

pub length-block_bytes : (n at : ℕ) (c : ℕ → ℕ) → length (block_bytes n at c) ≡ n
unfolding block_bytes
length-block_bytes zero at c = refl
length-block_bytes (suc n) at c = omega (arith, length-block_bytes n (at + 1) c)

pub get_elem?-block_bytes :
    (n at q : ℕ) (c : ℕ → ℕ) → q < n → get_elem? (block_bytes n at c) q ≡ some (c (at + q))
unfolding block_bytes
get_elem?-block_bytes zero at q c h = absurd (omega arith)
get_elem?-block_bytes (suc n) at zero c h = ap (λ k. some (c k)) (omega arith)
get_elem?-block_bytes (suc n) at (suc q) c h =
    get_elem?-block_bytes n (at + 1) q c (omega arith) ∙ ap (λ k. some (c k)) (omega arith)

-- What was read is the block that was written.
pub filled-block_bytes : (n q : ℕ) (c d : ℕ → ℕ) → q < n → filled (block_bytes n 0 c) d q ≡ c q
filled-block_bytes n q c d h = rw (filled, get_elem?-block_bytes n 0 q c h) (ap c (omega arith))

pub number-le_bytes : (n v : ℕ) → v < 256 ^ n → number (le_bytes n v) ≡ v
unfolding le_bytes
number-le_bytes zero v h = omega arith
number-le_bytes (suc n) v h =
    omega (arith, number-le_bytes n (v / 256) (omega (arith, pow_suc_256 n)))

-- A file after a write.
abbrev pub appended : Output → List ℕ → Output
appended fp bs = record { bytes = fp.bytes ++ bs; room = fp.room - length bs }

pub fwrite-appended :
    (bs : List ℕ) (fp : Output) (n : ℕ)
    → length bs ≡ n
    → 0 < n
    → n ≤ fp.room
    → fwrite bs fp ≡ some (appended fp bs)
unfolding fwrite
fwrite-appended [] fp n e pos h = absurd (omega arith)
fwrite-appended (b ∷ bs) fp n e pos h = ground arith

pub fread-append :
    (xs ys : List ℕ) (n : ℕ) → length xs ≡ n → 0 < n → fread n (xs ++ ys) ≡ some (xs, ys)
unfolding fread
fread-append xs ys n e pos =
    ground (arith, ap (λ k. take_bytes k (xs ++ ys)) e, take_bytes-append xs ys)

pub no_bytes : (c : ℕ → ℕ) → block_bytes 0 0 c ≡ []
unfolding block_bytes
no_bytes c = refl

pub header_assoc :
    (a b c d e f g : List ℕ)
    → ((((((([] ++ a) ++ b) ++ c) ++ d) ++ e) ++ f) ++ g)
      ≡ a ++ (b ++ (c ++ (d ++ (e ++ (f ++ g)))))
header_assoc a b c d e f g = simp append_assoc

pub fread_all : (xs : List ℕ) (n : ℕ) → length xs ≡ n → 0 < n → fread n xs ≡ some (xs, [])
fread_all xs n e pos = ap (fread n) (sym (append-nil xs)) ∙ fread-append xs [] n e pos
