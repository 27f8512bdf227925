-- ===== src/Asm/Number/Text.antt =====
-- Hexadecimal texts of numbers, and that `strtoull`, as src/parser.c calls it, reads them back.
use native.Mathlib.Nat.{pow-suc}
use bvgz_vm.Common.{
  ℕ, zero, suc, ◌+◌, ◌-◌, ◌*◌, ◌/◌, ◌%◌, ◌^◌, ◌<◌, ◌≡◌, refl, ap, true, false, ◌||◌, List, [], ◌∷◌,
  ◌++◌, arith, ltb, ◌==◌, length, if◌then◌else◌, All, All-append, length-append, lt→leb_false,
}
use bvgz_vm.Asm.Number.{
  digit_value, read_digits, Magnitude, magnitude, hex_magnitude, based_magnitude, converted,
  convert, strtoull,
}

abbrev pub hex_digit : ℕ → ℕ
hex_digit d = if ltb d 10 then b'0' + d else b'a' + (d - 10)

-- The lowest digits of a number, in the order in which they are written
unfoldable pub hex_digits : (n v : ℕ) → List ℕ
hex_digits zero v = []
hex_digits (suc n) v = hex_digits n (v / 16) ++ hex_digit (v % 16) ∷ []

-- `0x`, and so many digits
abbrev pub hex_text : (n v : ℕ) → List ℕ
hex_text n v = b'0' ∷ b'x' ∷ hex_digits n v

abbrev IsHexDigit : ℕ → Type 0
IsHexDigit c = ltb (digit_value c) 16 ≡ true

digit_value-hex_digit : (d : ℕ) → d < 16 → digit_value (hex_digit d) ≡ d
digit_value-hex_digit d h = ground arith

hex_digits-IsHexDigit : (n v : ℕ) → All IsHexDigit (hex_digits n v)
unfolding hex_digits
hex_digits-IsHexDigit zero v = tt
hex_digits-IsHexDigit (suc n) v =
    All-append IsHexDigit (hex_digits n (v / 16)) (hex_digit (v % 16) ∷ [])
      (hex_digits-IsHexDigit n (v / 16))
      ((rw (digit_value-hex_digit (v % 16) (omega arith)) (ground arith)), tt)

-- The value of digits, on top of that of those before them
abbrev digits_value : (acc : ℕ) → List ℕ → ℕ
digits_value acc [] = acc
digits_value acc (c ∷ cs) = digits_value (acc * 16 + digit_value c) cs

digits_value-snoc :
    (cs : List ℕ) (acc c : ℕ)
    → digits_value acc (cs ++ c ∷ []) ≡ digits_value acc cs * 16 + digit_value c
digits_value-snoc [] acc c = refl
digits_value-snoc (d ∷ cs) acc c = digits_value-snoc cs (acc * 16 + digit_value d) c

read_every_digit :
    (cs : List ℕ) (acc : ℕ) → All IsHexDigit cs → read_digits 16 acc cs ≡ (digits_value acc cs, [])
unfolding read_digits
read_every_digit [] acc h = refl
read_every_digit (c ∷ cs) acc h = rw h.0 (read_every_digit cs (acc * 16 + digit_value c) h.1)

pow_suc_16 : (n : ℕ) → 16 ^ suc n ≡ 16 * 16 ^ n
pow_suc_16 n = rw pow-suc (omega arith)

digits_value-hex_digits : (n v : ℕ) → v < 16 ^ n → digits_value 0 (hex_digits n v) ≡ v
unfolding hex_digits
digits_value-hex_digits zero v h = omega arith
digits_value-hex_digits (suc n) v h = omega (
  arith,
  digits_value-snoc (hex_digits n (v / 16)) 0 (hex_digit (v % 16)),
  digits_value-hex_digits n (v / 16) (omega (arith, pow_suc_16 n)),
  digit_value-hex_digit (v % 16) (omega arith),
)

abbrev whole : ℕ → Magnitude
whole v = record { found = true; value = v; rest = [] }

magnitude_of_digits :
    (cs : List ℕ) (v n : ℕ)
    → All IsHexDigit cs
    → length cs ≡ suc n
    → digits_value 0 cs ≡ v
    → magnitude 16 cs ≡ whole v
unfolding magnitude
magnitude_of_digits [] v n h len e = absurd (omega arith)
magnitude_of_digits (c ∷ cs) v n h len e = rw (read_every_digit (c ∷ cs) 0 h, h.0) (ap whole e)

length-hex_digits : (n v : ℕ) → length (hex_digits n v) ≡ n
unfolding hex_digits
length-hex_digits zero v = refl
length-hex_digits (suc n) v = omega (
  arith,
  length-append (hex_digits n (v / 16)) (hex_digit (v % 16) ∷ []),
  length-hex_digits n (v / 16),
)

magnitude-hex_digits : (n v : ℕ) → v < 16 ^ suc n → magnitude 16 (hex_digits (suc n) v) ≡ whole v
magnitude-hex_digits n v h =
    magnitude_of_digits (hex_digits (suc n) v) v n (hex_digits-IsHexDigit (suc n) v)
      (length-hex_digits (suc n) v) (digits_value-hex_digits (suc n) v h)

hex_magnitude-hex_digits :
    (after_0 : List ℕ) (n v : ℕ)
    → v < 16 ^ suc n
    → hex_magnitude after_0 (hex_digits (suc n) v) ≡ whole v
unfolding hex_magnitude
hex_magnitude-hex_digits after_0 n v h = rw (magnitude-hex_digits n v h) refl

converted-whole :
    (s : List ℕ) (v : ℕ)
    → v < 2 ^ 64
    → converted 64 false s (whole v)
      ≡ record { value = v; endp = []; erange = false; is_number = true }
unfolding converted
converted-whole s v small = rw (lt→leb_false (2 ^ 64) v small) refl

-- A number of up to 64 bits in hexadecimal digits is read back, to its end.
pub strtoull-hex_text :
    (base n v : ℕ)
    → (base == 0 || base == 16) ≡ true
    → v < 16 ^ suc n
    → v < 2 ^ 64
    → strtoull base (hex_text (suc n) v)
      ≡ record { value = v; endp = []; erange = false; is_number = true }
unfolding strtoull convert based_magnitude hex_magnitude
strtoull-hex_text base n v hb h small =
    rw (hb, hex_magnitude-hex_digits (b'x' ∷ hex_digits (suc n) v) n v h)
      (converted-whole (hex_text (suc n) v) v small)
