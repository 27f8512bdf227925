-- ===== src/Memory/Access.antt =====
-- Laws of the little-endian accesses: a word that was written is read back modulo its width, and
-- nothing outside its bytes changes.

use native.Mathlib.Nat.{pow-suc}
use bvgz_vm.Common.{◌∙◌, ℕ, zero, suc, ◌+◌, ◌*◌, ◌/◌, ◌%◌, ◌^◌, ◌≤◌, ◌<◌, ◌≡◌, refl, arith}
use bvgz_vm.Memory.{update, read_le, write_le, IsBytes}

pub write_le-below : (n v : ℕ) (c : ℕ → ℕ) (a q : ℕ) → q < a → write_le n v c a q ≡ c q
unfolding write_le
write_le-below zero v c a q h = refl
write_le-below (suc n) v c a q h =
    ground (arith, write_le-below n (v / 256) (update c a (v % 256)) (a + 1) q)

pub write_le-above : (n v : ℕ) (c : ℕ → ℕ) (a q : ℕ) → a + n ≤ q → write_le n v c a q ≡ c q
unfolding write_le
write_le-above zero v c a q h = refl
write_le-above (suc n) v c a q h =
    ground (arith, write_le-above n (v / 256) (update c a (v % 256)) (a + 1) q)

mod-256-mul : (v m : ℕ) → 0 < m → v % (256 * m) ≡ v % 256 + 256 * (v / 256 % m)
mod-256-mul v m h = grind arith

pub pow-256-pos : (n : ℕ) → 0 < 256 ^ n
pow-256-pos zero = omega arith
pow-256-pos (suc n) = rw pow-suc (omega (arith, pow-256-pos n))

pub pow_suc_256 : (n : ℕ) → 256 ^ suc n ≡ 256 * 256 ^ n
pow_suc_256 n = rw pow-suc (omega arith)

pub mod_suc : (n v : ℕ) → v % 256 ^ suc n ≡ v % 256 + 256 * (v / 256 % 256 ^ n)
mod_suc n v = rw (pow_suc_256 n) (mod-256-mul v (256 ^ n) (pow-256-pos n))

update_self : (c : ℕ → ℕ) (a v : ℕ) → update c a v a ≡ v
update_self c a v = ground arith

pub read_le-write_le : (n v : ℕ) (c : ℕ → ℕ) (a : ℕ) → read_le n (write_le n v c a) a ≡ v % 256 ^ n
unfolding read_le write_le
read_le-write_le zero v c a = omega arith
read_le-write_le (suc n) v c a = omega (
  arith,
  mod_suc n v,
  write_le-below n (v / 256) (update c a (v % 256)) (a + 1) a (omega arith)
      ∙ update_self c a (v % 256),
  read_le-write_le n (v / 256) (update c a (v % 256)) (a + 1),
)

pub write_le-IsBytes : (n v : ℕ) (c : ℕ → ℕ) (a : ℕ) → IsBytes c → IsBytes (write_le n v c a)
unfolding write_le
write_le-IsBytes zero v c a h = h
write_le-IsBytes (suc n) v c a h =
    write_le-IsBytes n (v / 256) (update c a (v % 256)) (a + 1) λ q. ground (arith, h q)

-- Two words that share no byte do not disturb one another.
pub read_le_congr :
    (n : ℕ) (c d : ℕ → ℕ) (a : ℕ)
    → ((q : ℕ) → a ≤ q → q < a + n → c q ≡ d q)
    → read_le n c a ≡ read_le n d a
unfolding read_le
read_le_congr zero c d a h = refl
read_le_congr (suc n) c d a h = omega (
  arith,
  h a (omega arith) (omega arith),
  read_le_congr n c d (a + 1) (λ q p r. h q (omega arith) (omega arith)),
)

pub read_le-lt : (n : ℕ) (c : ℕ → ℕ) (a : ℕ) → IsBytes c → read_le n c a < 256 ^ n
unfolding read_le
read_le-lt zero c a h = omega arith
read_le-lt (suc n) c a h = omega (arith, pow_suc_256 n, h a, read_le-lt n c (a + 1) h)
