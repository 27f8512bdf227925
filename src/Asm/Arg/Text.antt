-- ===== src/Asm/Arg/Text.antt =====
-- Arguments as they are written, and what `parse_arg` of src/parser.c makes of them.
use Prim.Native.Nat.{bit_and}
use bvgz_vm.Common.{
  ℕ, suc, ◌-◌, ◌^◌, ◌≤◌, ◌<◌, ◌≡◌, refl, ◌∙◌, ap, sym, Bool, true, false, List, [], ◌∷◌, some,
  arith, ltb, ◌==◌, if◌then◌else◌, ==_iff, le→ltb_false,
}
use bvgz_vm.Common.Bits.{above-bit_and, bit_and-above, power, above, ones}
use bvgz_vm.Codegen.{PrsArg, arg_imm, arg_ref_num, arg_ref_lbl, arg_imm_lbl}
use bvgz_vm.Asm.{Env, Parse}
use bvgz_vm.Asm.Number.{
  isspace, digit_value, Converted, magnitude, based_magnitude, converted, convert, skip_spaces,
  strtoull,
}
use bvgz_vm.Asm.Number.Text.{hex_text, strtoull-hex_text}
use bvgz_vm.Asm.Arg.{
  starts_with, skip_flag, is_bits_long, imm_bytes, label_arg, number_arg, convert_arg, arg_base,
  parse_arg,
}

-- An argument: a number, or one behind the star of an address, of `suc n` hexadecimal digits; a label,
-- or one behind the ampersand of an immediate value.
pub data Written : Type 0 where
  number pointer : (n v : ℕ) → Written
  label label_value : List ℕ → Written

abbrev pub arg_text : Written → List ℕ
arg_text (number n v) = hex_text (suc n) v
arg_text (pointer n v) = b'*' ∷ hex_text (suc n) v
arg_text (label l) = l
arg_text (label_value l) = b'&' ∷ l

-- The fewest of 1, 2, 4 and 8 bytes that hold the value
abbrev pub fewest_bytes : ℕ → ℕ
fewest_bytes v =
    if ltb v (2 ^ 8) then 1 else if ltb v (2 ^ 16) then 2 else if ltb v (2 ^ 32) then 4 else 8

abbrev pub arg_of : Written → PrsArg
arg_of (number n v) = record { type = arg_imm; n_bytes = fewest_bytes v; value = v; label = [] }
arg_of (pointer n v) = record { type = arg_ref_num; n_bytes = 4; value = v; label = [] }
arg_of (label l) = record { type = arg_ref_lbl; n_bytes = 4; value = 0; label = l }
arg_of (label_value l) = record { type = arg_imm_lbl; n_bytes = 4; value = 0; label = l }

-- The labels that are referred to, behind the argument
abbrev pub add_reference : Env → Written → List (List ℕ) → List (List ℕ)
add_reference env (label l) ls = env.hset_add l ls
add_reference env (label_value l) ls = env.hset_add l ls
add_reference env _ ls = ls

-- A label starts with no sign, no star or ampersand, no space and no digit.
abbrev pub IsLabel : List ℕ → Type 0
IsLabel [] = ⊥
IsLabel (c ∷ cs) =
    ((c == b'-') ≡ false)
    × ((c == b'*') ≡ false)
    × ((c == b'&') ≡ false)
    × ((c == b'+') ≡ false)
    × (isspace c ≡ false)
    × (10 ≤ digit_value c)

-- A number fits its digits, and does not look negative as a signed number of 64 bits.
abbrev pub IsWritten : Written → Type 0
IsWritten (number n v) = (v < 16 ^ suc n) × (v < 2 ^ 63 - 1)
IsWritten (pointer n v) = (v < 16 ^ suc n) × (v < 2 ^ 63 - 1)
IsWritten (label l) = IsLabel l
IsWritten (label_value l) = IsLabel l

same_truth : (b c : Bool) → (b ≡ true → c ≡ true) → (c ≡ true → b ≡ true) → b ≡ c
same_truth true c f g = sym (f refl)
same_truth false true f g = g refl
same_truth false false f g = refl

-- `IS_1_BYTES_LONG` and its likes hold of the numbers below a power of two.
is_bits_long-ltb :
    (k n x : ℕ)
    → power k ≡ 2 ^ k
    → 2 ^ 64 - 2 ^ k ≡ above k (ones n)
    → above k (power n) ≡ 2 ^ 64
    → x < 2 ^ 64
    → is_bits_long k x ≡ ltb x (2 ^ k)
is_bits_long-ltb k n x p m w h = same_truth (is_bits_long k x) (ltb x (2 ^ k)) below inside
  where
    below : is_bits_long k x ≡ true → ltb x (2 ^ k) ≡ true
    below e =
        let clear = (==_iff (bit_and x (2 ^ 64 - 2 ^ k)) 0).0 e in
        let fits = above-bit_and k n x (rw w h) (rw m at clear) in ground (arith, rw p at fits)

    inside : ltb x (2 ^ k) ≡ true → is_bits_long k x ≡ true
    inside e =
        let small : x < 2 ^ k = ground arith in
        (==_iff (bit_and x (2 ^ 64 - 2 ^ k)) 0).1
          (ap (bit_and x) m ∙ bit_and-above k (ones n) x (rw p small))

imm_bytes-fewest_bytes : (v : ℕ) → v < 2 ^ 64 → imm_bytes false v ≡ fewest_bytes v
imm_bytes-fewest_bytes v h =
    rw
      (
        is_bits_long-ltb 8 56 v refl refl refl h,
        is_bits_long-ltb 16 48 v refl refl refl h,
        is_bits_long-ltb 32 32 v refl refl refl h,
      )
      refl

not_zero : (c : ℕ) → 10 ≤ digit_value c → (c == b'0') ≡ false
not_zero c h = ground arith

magnitude-label :
    (c : ℕ) (cs : List ℕ)
    → 10 ≤ digit_value c
    → magnitude 10 (c ∷ cs) ≡ record { found = false; value = 0; rest = c ∷ cs }
unfolding magnitude
magnitude-label c cs h = rw (le→ltb_false (digit_value c) 10 h) refl

based_magnitude-label :
    (c : ℕ) (cs : List ℕ)
    → 10 ≤ digit_value c
    → based_magnitude 0 (c ∷ cs) ≡ record { found = false; value = 0; rest = c ∷ cs }
unfolding based_magnitude
based_magnitude-label c [] h = rw (not_zero c h) (magnitude-label c [] h)
based_magnitude-label c (x ∷ cs) h = rw (not_zero c h) (magnitude-label c (x ∷ cs) h)

-- A string that starts with no digit holds no number.
strtoull-label :
    (c : ℕ) (cs : List ℕ)
    → IsLabel (c ∷ cs)
    → strtoull 0 (c ∷ cs) ≡ record { value = 0; endp = c ∷ cs; erange = false; is_number = false }
unfolding strtoull skip_spaces convert converted
strtoull-label c cs h = rw (h.4, h.0, h.3, based_magnitude-label c cs h.5) refl

-- The flags of a text, one behind the other
parse_arg_flags :
    (env : Env) (token unsigned pointed p : List ℕ) (negative reference imm_ref : Bool) (base : ℕ)
    (n : Converted) (r : Parse)
    → starts_with b'-' token ≡ negative
    → skip_flag b'-' token ≡ unsigned
    → starts_with b'*' unsigned ≡ reference
    → skip_flag b'*' unsigned ≡ pointed
    → starts_with b'&' pointed ≡ imm_ref
    → skip_flag b'&' pointed ≡ p
    → arg_base p ≡ base
    → strtoull base p ≡ n
    → parse_arg env token r ≡ convert_arg env negative reference imm_ref p n r
unfolding parse_arg
parse_arg_flags env token unsigned pointed p negative reference imm_ref base n r e0 e1 e2 e3 e4 e5
      e6 e7 =
    cc

convert_arg-number :
    (env : Env) (reference : Bool) (p : List ℕ) (v : ℕ) (r : Parse)
    → v < 2 ^ 63 - 1
    → convert_arg env false reference false p
        (record { value = v; endp = []; erange = false; is_number = true })
        r
      ≡ (some (number_arg false reference v), r)
unfolding convert_arg
convert_arg-number env reference p v r h = ground arith

no_flag : (c : ℕ) (p : List ℕ) → starts_with c p ≡ false → skip_flag c p ≡ p
no_flag c p h = rw h refl

convert_arg-label :
    (env : Env) (imm_ref : Bool) (p : List ℕ) (r : Parse)
    → convert_arg env false false imm_ref p
        (record { value = 0; endp = p; erange = false; is_number = false })
        r
      ≡ (
        some (record {
          type = if imm_ref then arg_imm_lbl else arg_ref_lbl;
          n_bytes = 4;
          value = 0;
          label = p;
        }),
        record r { referenced = env.hset_add p r.referenced },
      )
unfolding convert_arg label_arg
convert_arg-label env imm_ref p r = refl

label_base : (c : ℕ) (cs : List ℕ) → 10 ≤ digit_value c → arg_base (c ∷ cs) ≡ 0
label_base c cs h = rw (not_zero c h) refl

-- A written argument is read as the argument that it means: of a number, the fewest bytes that hold it.
-- The labels that it names are noted, and nothing else changes.
pub parse_arg-arg_text :
    (env : Env) (w : Written) (r : Parse)
    → IsWritten w
    → parse_arg env (arg_text w) r
      ≡ (some (arg_of w), record r { referenced = add_reference env w r.referenced })
unfolding number_arg
parse_arg-arg_text env (number n v) r h =
    let t = hex_text (suc n) v in
    parse_arg_flags env t t t t false false false 16 _ r refl refl refl refl refl refl refl
      (strtoull-hex_text 16 n v refl h.0 (omega (arith, h.1)))
    ∙ convert_arg-number env false t v r h.1
    ∙ ap (λ k. (some (record { type = arg_imm; n_bytes = k; value = v; label = [] }), r))
        (imm_bytes-fewest_bytes v (omega (arith, h.1)))
parse_arg-arg_text env (pointer n v) r h =
    let t = hex_text (suc n) v in
    parse_arg_flags env (b'*' ∷ t) (b'*' ∷ t) t t false true false 16 _ r refl refl refl refl refl
      refl refl (strtoull-hex_text 16 n v refl h.0 (omega (arith, h.1)))
    ∙ convert_arg-number env true t v r h.1
parse_arg-arg_text env (label []) r h = absurd h
parse_arg-arg_text env (label (c ∷ cs)) r h =
    let l = c ∷ cs in
    parse_arg_flags env l l l l false false false 0 _ r h.0 (no_flag b'-' l h.0) h.1
      (no_flag b'*' l h.1) h.2 (no_flag b'&' l h.2) (label_base c cs h.5) (strtoull-label c cs h)
    ∙ convert_arg-label env false l r
parse_arg-arg_text env (label_value []) r h = absurd h
parse_arg-arg_text env (label_value (c ∷ cs)) r h =
    let l = c ∷ cs in
    parse_arg_flags env (b'&' ∷ l) (b'&' ∷ l) (b'&' ∷ l) l false false true 0 _ r refl refl refl
      refl refl refl (label_base c cs h.5) (strtoull-label c cs h)
    ∙ convert_arg-label env true l r
