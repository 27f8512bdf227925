-- ===== src/Common/Bits.antt =====
-- `bit_and` with a mask of high bits, read by its digits.
use Prim.Native.Nat.{
  ℕ, zero, suc, ◌+◌, ◌*◌, ◌/◌, ◌%◌, ◌≤◌, ◌<◌, min, bit_and, digits, bit_and-bitwise,
}
use mathlib.Core.Path.{◌≡◌, refl}
use native.Mathlib.Omega.{arith}

abbrev conj : ℕ → ℕ → ℕ → ℕ
conj fuel x m = digits (λ y. zero) min fuel x m

-- Fuel beyond the number itself changes nothing.
conj_settled : (fuel fuel' x m : ℕ) → x ≤ fuel → x ≤ fuel' → conj fuel x m ≡ conj fuel' x m
conj_settled zero zero x m h k = refl
conj_settled zero (suc fuel') zero m h k = refl
conj_settled (suc fuel) zero zero m h k = refl
conj_settled (suc fuel) (suc fuel') zero m h k = refl
conj_settled zero (suc fuel') (suc x) m h k = absurd (omega arith)
conj_settled (suc fuel) zero (suc x) m h k = absurd (omega arith)
conj_settled (suc fuel) (suc fuel') (suc x) m h k =
    omega (arith, conj_settled fuel fuel' (suc x / 2) (m / 2) (omega arith) (omega arith))

none-bit_and : (m : ℕ) → bit_and 0 m ≡ 0
none-bit_and m = bit_and-bitwise 0 m

lowest_digit : (x m : ℕ) → bit_and x m ≡ 2 * bit_and (x / 2) (m / 2) + min (x % 2) (m % 2)
lowest_digit zero m = omega (arith, none-bit_and m, none-bit_and (m / 2))
lowest_digit (suc x) m = omega (
  arith,
  bit_and-bitwise (suc x) m,
  bit_and-bitwise (suc x / 2) (m / 2),
  conj_settled x (suc x / 2) (suc x / 2) (m / 2) (omega arith) (omega arith),
)

-- So many bits that are set
abbrev pub ones : ℕ → ℕ
ones zero = 0
ones (suc n) = 1 + 2 * ones n

abbrev pub power : ℕ → ℕ
power zero = 1
power (suc n) = 2 * power n

-- A mask moved up by so many bits
abbrev pub above : ℕ → ℕ → ℕ
above zero m = m
above (suc k) m = 2 * above k m

ones-bit_and : (n x : ℕ) → x < power n → bit_and x (ones n) ≡ 0 → x ≡ 0
ones-bit_and zero x h e = omega arith
ones-bit_and (suc n) x h e =
    let step = lowest_digit x (ones (suc n)) in
    let half : (1 + 2 * ones n) / 2 ≡ ones n = omega arith in
    let rest = rw half at step in
    omega (arith, e, rest, ones-bit_and n (x / 2) (omega arith) (omega (arith, e, rest)))

-- A number without the bits of the mask is below them.
pub above-bit_and :
    (k n x : ℕ) → x < above k (power n) → bit_and x (above k (ones n)) ≡ 0 → x < power k
above-bit_and zero n x h e = omega (arith, ones-bit_and n x h e)
above-bit_and (suc k) n x h e =
    let step = lowest_digit x (above (suc k) (ones n)) in
    let half : (2 * above k (ones n)) / 2 ≡ above k (ones n) = omega arith in
    let rest = rw half at step in
    omega (arith, above-bit_and k n (x / 2) (omega arith) (omega (arith, e, rest)))

-- And a number below the mask has none of its bits.
pub bit_and-above : (k m x : ℕ) → x < power k → bit_and x (above k m) ≡ 0
bit_and-above zero m zero h = none-bit_and m
bit_and-above zero m (suc x) h = absurd (omega arith)
bit_and-above (suc k) m x h =
    let step = lowest_digit x (above (suc k) m) in
    let half : (2 * above k m) / 2 ≡ above k m = omega arith in
    omega (arith, rw half at step, bit_and-above k m (x / 2) (omega arith))
