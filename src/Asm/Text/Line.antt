-- ===== src/Asm/Text/Line.antt =====
-- A whole line of assembly text, and the instruction that src/parser.c appends for it.
use bvgz_vm.Common.{
  ℕ, zero, suc, ◌/◌, ◌%◌, ◌≤◌, ◌<◌, ◌≡◌, refl, ◌∙◌, ap, Bool, true, false, not, ◌&&◌, ◌||◌, List,
  [], ◌∷◌, ◌++◌, map, some, arith, leb, ◌==◌, length, get_elem?, All, All-append, leb→le,
}
use bvgz_vm.Instn.Table.{InstnDef, instn_defs}
use bvgz_vm.Asm.{Env, Parse}
use bvgz_vm.Asm.Number.{isspace}
use bvgz_vm.Asm.Number.Text.{hex_text, hex_digit, hex_digits}
use bvgz_vm.Asm.Arg.Text.{Written, number, pointer, label, label_value, arg_text, IsWritten}
use bvgz_vm.Asm.Instruction.Table.{all_entries, get_elem?-all_entries}
use bvgz_vm.Asm.Lines.{ParseFile, parse_line}
use bvgz_vm.Asm.Lines.Tokens.{
  IsSeparator, IsTokenChar, Item, NonEmpty, IsItem, items_text, tokens_of, IsEnding, IsName,
  parse_line-tokens,
}
use bvgz_vm.Asm.Instruction.{add_instn}
use bvgz_vm.Asm.Text.{IsAllowed, assembled, add_instn-texts}

-- An operand with the separators in front of it
pub record Operand : Type 0 where
  pub before : List ℕ
  pub written : Written

-- The characters of a label are those of a token.
abbrev pub IsPlain : Written → Type 0
IsPlain (label l) = All IsTokenChar l
IsPlain (label_value l) = All IsTokenChar l
IsPlain _ = Unit

abbrev pub IsOperand : Operand → Type 0
IsOperand o = NonEmpty o.before × All IsSeparator o.before × IsWritten o.written × IsPlain o.written

abbrev pub item_of : Operand → Item
item_of o = record { before = o.before; token = arg_text o.written }

abbrev pub written_of : List Operand → List Written
written_of [] = []
written_of (o ∷ os) = o.written ∷ written_of os

hex_digit-IsTokenChar : (d : ℕ) → d < 16 → IsTokenChar (hex_digit d)
hex_digit-IsTokenChar d h = ground arith

hex_digits-IsTokenChar : (n v : ℕ) → All IsTokenChar (hex_digits n v)
unfolding hex_digits
hex_digits-IsTokenChar zero v = tt
hex_digits-IsTokenChar (suc n) v =
    All-append IsTokenChar (hex_digits n (v / 16)) (hex_digit (v % 16) ∷ [])
      (hex_digits-IsTokenChar n (v / 16)) (hex_digit-IsTokenChar (v % 16) (omega arith), tt)

hex_text-IsTokenChar : (n v : ℕ) → All IsTokenChar (hex_text n v)
hex_text-IsTokenChar n v = ((refl, refl, refl), ((refl, refl, refl), hex_digits-IsTokenChar n v))

arg_text-IsToken :
    (w : Written) → IsWritten w → IsPlain w → NonEmpty (arg_text w) × All IsTokenChar (arg_text w)
arg_text-IsToken (number n v) h p = (tt, hex_text-IsTokenChar (suc n) v)
arg_text-IsToken (pointer n v) h p = (tt, ((refl, refl, refl), hex_text-IsTokenChar (suc n) v))
arg_text-IsToken (label []) h p = absurd h
arg_text-IsToken (label (c ∷ cs)) h p = (tt, p)
arg_text-IsToken (label_value l) h p = (tt, ((refl, refl, refl), p))

item_of-IsItem : (os : List Operand) → All IsOperand os → All IsItem (map item_of os)
item_of-IsItem [] h = tt
item_of-IsItem (o ∷ os) h =
    let token = arg_text-IsToken o.written h.0.2 h.0.3 in
    ((h.0.0, h.0.1, token.0, token.1), item_of-IsItem os h.1)

tokens_of-item_of : (os : List Operand) → tokens_of (map item_of os) ≡ map arg_text (written_of os)
tokens_of-item_of [] = refl
tokens_of-item_of (o ∷ os) = ap (◌∷◌ (arg_text o.written)) (tokens_of-item_of os)

written_of-IsWritten : (os : List Operand) → All IsOperand os → All IsWritten (written_of os)
written_of-IsWritten [] h = tt
written_of-IsWritten (o ∷ os) h = (h.0.2, written_of-IsWritten os h.1)

length-item_of : (os : List Operand) → length (map item_of os) ≡ length (written_of os)
length-item_of [] = refl
length-item_of (o ∷ os) = ap suc (length-item_of os)

-- The names of the table are tokens, and no instruction takes more than three arguments.
abbrev is_char : ℕ → Bool
is_char c = not (c == b';') && not (isspace c || c == b',') && not (c == b':')

abbrev all_chars : List ℕ → Bool
all_chars [] = true
all_chars (c ∷ cs) = is_char c && all_chars cs

abbrev is_name : List ℕ → Bool
is_name [] = false
is_name (c ∷ cs) = not (c == b'%') && all_chars (c ∷ cs)

names : all_entries (λ d. is_name d.name && leb d.arg_count 3) instn_defs ≡ true
unfolding instn_defs
names = refl

all_chars-IsTokenChar : (cs : List ℕ) → all_chars cs ≡ true → All IsTokenChar cs
all_chars-IsTokenChar [] h = tt
all_chars-IsTokenChar (c ∷ cs) h = (ground arith, all_chars-IsTokenChar cs (ground arith))

is_name-IsName : (name : List ℕ) → is_name name ≡ true → IsName name
is_name-IsName [] h = cc
is_name-IsName (c ∷ cs) h = (ground arith, all_chars-IsTokenChar (c ∷ cs) (ground arith))

both : (b c : Bool) → (b && c) ≡ true → (b ≡ true) × (c ≡ true)
both true c h = (refl, h)
both false c h = absurd (ground arith)

entry_name :
    (d : InstnDef)
    → (is_name d.name && leb d.arg_count 3) ≡ true
    → IsName d.name × (d.arg_count ≤ 3)
entry_name d h =
    let (named, few) = both (is_name d.name) (leb d.arg_count 3) h in
    (is_name-IsName d.name named, leb→le d.arg_count 3 few)

-- A line of an entry's name and as many operands as it takes, each behind separators, is read as exactly
-- this instruction: it is added with its definition and its arguments, the labels that they name
-- are noted, and nothing else changes. The operands are hexadecimal numbers, addresses and labels;
-- the first is an immediate number only where the entry allows one. Spaces may stand in front, and
-- separators and a comment behind.
pub parse_line-instruction :
    (env : Env) (parse_file : ParseFile) (include_paths : List (List ℕ)) (lead : List ℕ) (i : ℕ)
    (d : InstnDef) (os : List Operand) (rest : List ℕ) (r : Parse)
    → All (λ c. isspace c ≡ true) lead
    → get_elem? instn_defs i ≡ some d
    → All IsOperand os
    → length (written_of os) ≡ d.arg_count
    → IsAllowed d 1 (written_of os)
    → IsEnding rest
    → parse_line env parse_file include_paths
        (lead ++ (d.name ++ (items_text (map item_of os) ++ rest)))
        r
      ≡ some (assembled env d (written_of os) r)
parse_line-instruction env parse_file include_paths lead i d os rest r hl at ho count allowed e =
    let (name, few) =
      entry_name d (
        get_elem?-all_entries (λ x. is_name x.name && leb x.arg_count 3) instn_defs i d names at) in
    parse_line-tokens env parse_file include_paths lead d.name (map item_of os) rest r hl name
      (item_of-IsItem os ho) (omega (arith, length-item_of os, count, few)) e
    ∙ ap (λ ts. add_instn env d.name ts r) (tokens_of-item_of os)
    ∙ add_instn-texts env i d (written_of os) r at count (written_of-IsWritten os ho) allowed
