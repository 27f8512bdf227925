-- ===== src/Asm/Number.antt =====
-- `strtoull` and `strtoul` of the C library, as src/parser.c calls them, on the characters of a string
-- without the NUL that ends it.
pub mod Text
use bvgz_vm.Common.{
  ℕ, zero, suc, ◌+◌, ◌-◌, ◌*◌, ◌%◌, ◌^◌, ◌≤◌, ◌<◌, ◌≡◌, refl, Bool, true, false, ◌&&◌, ◌||◌, List,
  [], ◌∷◌, ◌++◌, Option, none, some, arith, leb, ltb, ◌==◌, length, if◌then◌else◌,
}

-- `isspace`
abbrev pub isspace : ℕ → Bool
isspace c = c == b' ' || leb 9 c && leb c 13

-- The value of a character as a digit; 36 for a character that is none.
abbrev pub digit_value : ℕ → ℕ
digit_value c =
    if leb b'0' c && leb c b'9'
    then c - b'0'
    else if leb b'a' c && leb c b'z'
    then c - b'a' + 10
    else if leb b'A' c && leb c b'Z'
    then c - b'A' + 10
    else 36

-- The digits of a base at the start of a string, on top of the value of those before them, and
-- what stands behind them.
unfoldable pub read_digits : (base acc : ℕ) → List ℕ → ℕ × List ℕ
read_digits base acc [] = (acc, [])
read_digits base acc (c ∷ cs) =
    let rest = read_digits base (acc * base + digit_value c) cs in
    if ltb (digit_value c) base then rest else (acc, c ∷ cs)

-- A number without its sign: whether there is one, its value, and what stands behind it.
pub record Magnitude : Type 0 where
  pub found : Bool
  pub value : ℕ
  pub rest : List ℕ

unfoldable pub magnitude : (base : ℕ) → List ℕ → Magnitude
magnitude base [] = record { found = false; value = 0; rest = [] }
magnitude base (c ∷ cs) =
    let (v, rest) = read_digits base 0 (c ∷ cs) in
    if ltb (digit_value c) base
    then record { found = true; value = v; rest = rest }
    else record { found = false; value = 0; rest = c ∷ cs }

-- The digits behind `0x`, which counts as the number 0 where none follow.
unfoldable pub hex_magnitude : (after_0 after_0x : List ℕ) → Magnitude
unfolding magnitude
hex_magnitude after_0 after_0x =
    let m = magnitude 16 after_0x in
    if m.found then m else record { found = true; value = 0; rest = after_0 }

abbrev pub is_x : ℕ → Bool
is_x c = c == b'x' || c == b'X'

-- Base 0 is base 16 for `0x`, base 8 for another `0`, and base 10 otherwise.
unfoldable pub based_magnitude : (base : ℕ) → List ℕ → Magnitude
unfolding magnitude hex_magnitude
based_magnitude base (z ∷ x ∷ cs) =
    if z == b'0' && is_x x && (base == 0 || base == 16)
    then hex_magnitude (x ∷ cs) cs
    else magnitude (if base == 0 then (if z == b'0' then 8 else 10) else base) (z ∷ x ∷ cs)
based_magnitude base (z ∷ []) =
    magnitude (if base == 0 then (if z == b'0' then 8 else 10) else base) (z ∷ [])
based_magnitude base [] = magnitude base []

-- The value, what stands behind the number, and whether it set `errno` to `ERANGE`. `endp` is the start
-- of the string where there is no number.
pub record Converted : Type 0 where
  pub value : ℕ
  pub endp : List ℕ
  pub erange : Bool
  pub is_number : Bool

-- A value that is too large is the largest one; a minus sign negates in the unsigned type.
unfoldable pub converted : (bits : ℕ) → (negate : Bool) → List ℕ → Magnitude → Converted
converted bits negate s m =
    if m.found
    then (if leb (2 ^ bits) m.value
        then record { value = 2 ^ bits - 1; endp = m.rest; erange = true; is_number = true }
        else record {
          value = if negate then (2 ^ bits - m.value) % 2 ^ bits else m.value;
          endp = m.rest;
          erange = false;
          is_number = true;
        })
    else record { value = 0; endp = s; erange = false; is_number = false }

unfoldable pub skip_spaces : List ℕ → List ℕ
skip_spaces [] = []
skip_spaces (c ∷ cs) = let rest = skip_spaces cs in if isspace c then rest else c ∷ cs

unfoldable pub convert : (bits base : ℕ) → (s trimmed : List ℕ) → Converted
unfolding converted based_magnitude
convert bits base s [] = converted bits false s (based_magnitude base [])
convert bits base s (c ∷ cs) =
    if c == b'-'
    then converted bits true s (based_magnitude base cs)
    else if c == b'+'
    then converted bits false s (based_magnitude base cs)
    else converted bits false s (based_magnitude base (c ∷ cs))

-- `strtoull(s, &endp, base)`
unfoldable pub strtoull : (base : ℕ) → List ℕ → Converted
unfolding convert skip_spaces
strtoull base s = convert 64 base s (skip_spaces s)

-- The low 32 bits that are kept of `strtoul(s, &endp, base)`, where `unsigned long` has 64 bits.
unfoldable pub strtoul32 : (base : ℕ) → List ℕ → Converted
unfolding strtoull
strtoul32 base s = let n = strtoull base s in record n { value = n.value % 2 ^ 32 }
