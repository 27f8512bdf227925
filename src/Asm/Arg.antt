-- ===== src/Asm/Arg.antt =====
-- `parse_arg` of src/parser.c: the text of an argument, and the smallest size of an immediate one.
pub mod Text
use Prim.Native.Nat.{bit_and}
use bvgz_vm.Common.{
  ℕ, ◌+◌, ◌-◌, ◌%◌, ◌^◌, Bool, true, false, not, ◌&&◌, ◌||◌, List, [], ◌∷◌, Option, none, some, leb,
  ltb, ◌==◌, if◌then◌else◌,
}
use bvgz_vm.Codegen.{PrsArg, ArgType, arg_imm, arg_ref_num, arg_ref_lbl, arg_imm_lbl}
use bvgz_vm.Asm.{Env, Parse, report_error, report_warning}
use bvgz_vm.Asm.Number.{strtoull, Converted}

-- `*p == c`
abbrev pub starts_with : ℕ → List ℕ → Bool
starts_with c [] = false
starts_with c (d ∷ ds) = d == c

abbrev pub tail : List ℕ → List ℕ
tail [] = []
tail (c ∷ cs) = cs

-- `*p == 0`
abbrev pub at_end : List ℕ → Bool
at_end [] = true
at_end (c ∷ cs) = false

-- `if (*p == c) { flag = 1; p++; }`
abbrev pub skip_flag : ℕ → List ℕ → List ℕ
skip_flag c p = if starts_with c p then tail p else p

-- `IS_1_BYTES_LONG`, `IS_2_BYTES_LONG` and `IS_4_BYTES_LONG`, for the mask of so many bits
abbrev pub is_bits_long : (bits imm : ℕ) → Bool
is_bits_long bits imm = bit_and imm (2 ^ 64 - 2 ^ bits) == 0

abbrev pub imm_bytes : (negative : Bool) → (imm : ℕ) → ℕ
imm_bytes negative imm =
    if negative
    then 8
    else if is_bits_long 8 imm
    then 1
    else if is_bits_long 16 imm
    then 2
    else if is_bits_long 32 imm
    then 4
    else 8

-- `INT64_MAX - 1`
abbrev pub int64_max_1 : ℕ
int64_max_1 = 2 ^ 63 - 2

unfoldable pub label_arg :
    Env → (negative reference imm_ref : Bool) → (p : List ℕ) → Parse → Option PrsArg × Parse
label_arg env negative reference imm_ref p r =
    if negative || reference then (none, report_error r) else (
      some (record {
        type = if imm_ref then arg_imm_lbl else arg_ref_lbl;
        n_bytes = 4;
        value = 0;
        label = p;
      }),
      record r { referenced = env.hset_add p r.referenced },
    )

-- `p` stands at the number, and `imm` is what `strtoull` gave.
unfoldable pub number_arg : (negative reference : Bool) → (imm : ℕ) → PrsArg
number_arg negative reference imm =
    let value = if negative then (2 ^ 64 - imm) % 2 ^ 64 else imm in
    if reference
    then record { type = arg_ref_num; n_bytes = 4; value = value; label = [] }
    else record { type = arg_imm; n_bytes = imm_bytes negative value; value = value; label = [] }

-- From the overflow checks on. The result `none` stands for -1.
unfoldable pub convert_arg :
    Env
    → (negative reference imm_ref : Bool) → (p : List ℕ) → Converted
    → Parse
    → Option PrsArg × Parse
unfolding label_arg number_arg
convert_arg env negative reference imm_ref p n r =
    let r' : Parse = record r { erange = n.erange || r.erange } in
    if n.value == 2 ^ 64 - 1 && r'.erange || ltb int64_max_1 n.value && negative
    then (none, report_error r')
    else let r'' = if not negative && ltb int64_max_1 n.value then report_warning r' else r' in
      if not n.is_number
      then label_arg env negative reference imm_ref p r''
      else if not (at_end n.endp)
      then (none, report_error r'')
      else (some (number_arg negative reference n.value), r'')

-- `if (p[0] == '0' && p[1] == 'x') base = 16;`
abbrev pub arg_base : List ℕ → ℕ
arg_base p = if starts_with b'0' p && starts_with b'x' (tail p) then 16 else 0

unfoldable pub parse_arg : Env → (token : List ℕ) → Parse → Option PrsArg × Parse
unfolding strtoull convert_arg
parse_arg env token r =
    let negative = starts_with b'-' token in
    let unsigned = skip_flag b'-' token in
    let reference = starts_with b'*' unsigned in
    let pointed = skip_flag b'*' unsigned in
    let imm_ref = starts_with b'&' pointed in
    let p = skip_flag b'&' pointed in
    convert_arg env negative reference imm_ref p (strtoull (arg_base p) p) r
