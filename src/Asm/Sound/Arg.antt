-- ===== src/Asm/Sound/Arg.antt =====
-- `parse_arg` of src/parser.c gives each argument a size of its type, in which its value fits.

use bvgz_vm.Common.{
  ℕ, ◌-◌, ◌%◌, ◌^◌, ◌<◌, ◌≡◌, refl, Bool, true, false, not, ◌&&◌, ◌||◌, List, [], ◌∷◌, Option, none,
  ltb, ◌==◌, ◌⊎◌, inl, inr, arith, if◌then◌else◌, Bool-cases, ==_iff,
}
use bvgz_vm.Common.Bits.{above-bit_and}
use bvgz_vm.Codegen.{PrsArg}
use bvgz_vm.Codegen.Emission.{IsSized}
use bvgz_vm.Asm.{Env, Parse, report_error, report_warning}
use bvgz_vm.Asm.Number.{
  strtoull, Converted, Magnitude, converted, convert, skip_spaces, based_magnitude,
}
use bvgz_vm.Asm.Arg.{
  starts_with, skip_flag, is_bits_long, imm_bytes, int64_max_1, label_arg, number_arg, convert_arg,
  at_end, arg_base, parse_arg,
}
use bvgz_vm.Asm.Sound.{IsSound, Ensures}
use bvgz_vm.Asm.Sound.Data.{cond-IsSound}

converted-lt :
    (negate : Bool) (s : List ℕ) (m : Magnitude) → (converted 64 negate s m).value < 2 ^ 64
unfolding converted
converted-lt negate s m = ground arith

convert-lt : (base : ℕ) (s trimmed : List ℕ) → (convert 64 base s trimmed).value < 2 ^ 64
unfolding convert
convert-lt base s [] = converted-lt false s (based_magnitude base [])
convert-lt base s (c ∷ cs) = elim (Bool-cases (c == b'-')) [
  | inl h ↦ rw h (converted-lt true s (based_magnitude base cs))
  | inr h ↦ elim (Bool-cases (c == b'+')) [
    | inl k ↦ rw (h, k) (converted-lt false s (based_magnitude base cs))
    | inr k ↦ rw (h, k) (converted-lt false s (based_magnitude base (c ∷ cs)))
  ]
]

strtoull-lt : (base : ℕ) (s : List ℕ) → (strtoull base s).value < 2 ^ 64
unfolding strtoull
strtoull-lt base s = convert-lt base s (skip_spaces s)

is_8_bits : (imm : ℕ) → imm < 2 ^ 64 → is_bits_long 8 imm ≡ true → imm < 2 ^ 8
is_8_bits imm h e = above-bit_and 8 56 imm h ((==_iff _ 0).0 e)

is_16_bits : (imm : ℕ) → imm < 2 ^ 64 → is_bits_long 16 imm ≡ true → imm < 2 ^ 16
is_16_bits imm h e = above-bit_and 16 48 imm h ((==_iff _ 0).0 e)

is_32_bits : (imm : ℕ) → imm < 2 ^ 64 → is_bits_long 32 imm ≡ true → imm < 2 ^ 32
is_32_bits imm h e = above-bit_and 32 32 imm h ((==_iff _ 0).0 e)

-- A size in which the value fits
abbrev FitsIn : (imm n : ℕ) → Type 0
FitsIn imm n = ((n ≡ 1) ⊎ ((n ≡ 2) ⊎ ((n ≡ 4) ⊎ (n ≡ 8)))) × (imm < 256 ^ n)

imm_bytes-FitsIn : (negative : Bool) (imm : ℕ) → imm < 2 ^ 64 → FitsIn imm (imm_bytes negative imm)
imm_bytes-FitsIn true imm h = (inr (inr (inr refl)), h)
imm_bytes-FitsIn false imm h =
    by_size (is_bits_long 8 imm) (is_bits_long 16 imm) (is_bits_long 32 imm) refl refl refl
  where
    by_size :
        (b1 b2 b4 : Bool)
        → is_bits_long 8 imm ≡ b1
        → is_bits_long 16 imm ≡ b2
        → is_bits_long 32 imm ≡ b4
        → FitsIn imm (if b1 then 1 else if b2 then 2 else if b4 then 4 else 8)
    by_size true b2 b4 e f g = (inl refl, is_8_bits imm h e)
    by_size false true b4 e f g = (inr (inl refl), is_16_bits imm h f)
    by_size false false true e f g = (inr (inr (inl refl)), is_32_bits imm h g)
    by_size false false false e f g = (inr (inr (inr refl)), h)

abbrev pub HasSize : PrsArg → Type 0
HasSize a = IsSized a.type a

number_arg-HasSize :
    (negative reference : Bool) (imm : ℕ)
    → imm < 2 ^ 64
    → HasSize (number_arg negative reference imm)
unfolding number_arg
number_arg-HasSize negative true imm h = refl
number_arg-HasSize true false imm h = imm_bytes-FitsIn true ((2 ^ 64 - imm) % 2 ^ 64) (omega arith)
number_arg-HasSize false false imm h = imm_bytes-FitsIn false imm h

-- Where there is an argument it is sized, and the parse is sound.
abbrev pub IsArg : Option PrsArg × Parse → Type 0
IsArg t = Ensures HasSize t.0 × IsSound t.1

cond-IsArg :
    (b : Bool) (t u : Option PrsArg × Parse) → IsArg t → IsArg u → IsArg (if b then t else u)
cond-IsArg true t u h k = h
cond-IsArg false t u h k = k

label_arg-IsArg :
    (env : Env) (negative reference imm_ref : Bool) (p : List ℕ) (r : Parse)
    → IsSound r
    → IsArg (label_arg env negative reference imm_ref p r)
unfolding label_arg
label_arg-IsArg env true reference imm_ref p r s = (tt, s)
label_arg-IsArg env false true imm_ref p r s = (tt, s)
label_arg-IsArg env false false true p r s = (refl, s)
label_arg-IsArg env false false false p r s = (refl, s)

convert_arg-IsArg :
    (env : Env) (negative reference imm_ref : Bool) (p : List ℕ) (n : Converted) (r : Parse)
    → n.value < 2 ^ 64
    → IsSound r
    → IsArg (convert_arg env negative reference imm_ref p n r)
unfolding convert_arg
convert_arg-IsArg env negative reference imm_ref p n r h s =
    let r' : Parse = record r { erange = n.erange || r.erange } in
    let warn = not negative && ltb int64_max_1 n.value in
    let r'' = if warn then report_warning r' else r' in
    let s'' = cond-IsSound warn (report_warning r') r' s s in
    cond-IsArg (n.value == 2 ^ 64 - 1 && r'.erange || ltb int64_max_1 n.value && negative)
      (none, report_error r') _ (tt, s)
      (cond-IsArg (not n.is_number) _ _ (label_arg-IsArg env negative reference imm_ref p r'' s'') (
        cond-IsArg (not (at_end n.endp)) (none, report_error r'') _ (tt, s'')
          (number_arg-HasSize negative reference n.value h, s'')))

pub parse_arg-IsArg :
    (env : Env) (token : List ℕ) (r : Parse) → IsSound r → IsArg (parse_arg env token r)
unfolding parse_arg
parse_arg-IsArg env token r s =
    let unsigned = skip_flag b'-' token in
    let pointed = skip_flag b'*' unsigned in
    let p = skip_flag b'&' pointed in
    convert_arg-IsArg env (starts_with b'-' token) (starts_with b'*' unsigned)
      (starts_with b'&' pointed) p (strtoull (arg_base p) p) r (strtoull-lt (arg_base p) p) s
