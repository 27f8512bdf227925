-- ===== src/Asm/Data/Text.antt =====
-- String literals of data directives, and the bytes that src/parser.c writes for them.
use mathlib.Core.List.{append_assoc}
use bvgz_vm.Common.{
  ℕ, ◌+◌, ◌%◌, ◌^◌, ◌≤◌, ◌<◌, ◌≡◌, refl, ◌∙◌, ap, true, false, ◌||◌, List, [], ◌∷◌, ◌++◌, Option,
  some, arith, ◌==◌, length, if◌then◌else◌,
}
use bvgz_vm.Vm.{minus_one32}
use bvgz_vm.Codegen.{◌>>=◌}
use bvgz_vm.Codegen.Emission.{bind-some}
use bvgz_vm.Asm.{Env, Parse}
use bvgz_vm.Asm.Instruction.{drop}
use bvgz_vm.Asm.Section.{write_to_memory, mem_alloc_block_sz}
use bvgz_vm.Asm.Section.Growth.{Extends, write_to_memory-Extends, Extends-trans}
use bvgz_vm.Asm.Data.{str_step, write_str, add_data_label, add_str_to_memory}

-- A byte as it is written in a literal: by its letter behind a backslash, behind a backslash, or as it is.
abbrev pub quoted_byte : ℕ → List ℕ
quoted_byte b =
    if b == b'\\' || b == b'"'
    then b'\\' ∷ b ∷ []
    else if b == 0x07
    then b'\\' ∷ b'a' ∷ []
    else if b == 0x08
    then b'\\' ∷ b'b' ∷ []
    else if b == 0x0C
    then b'\\' ∷ b'f' ∷ []
    else if b == 0x0A
    then b'\\' ∷ b'n' ∷ []
    else if b == 0x0D
    then b'\\' ∷ b'r' ∷ []
    else if b == 0x09
    then b'\\' ∷ b't' ∷ []
    else if b == 0x0B
    then b'\\' ∷ b'v' ∷ []
    else b ∷ []

abbrev pub quoted : List ℕ → List ℕ
quoted [] = []
quoted (b ∷ bs) = quoted_byte b ++ quoted bs

-- The text of a byte writes the byte.
write_str-byte :
    (b : ℕ) (cs : List ℕ) (at : ℕ) (r : Parse)
    → write_str (quoted_byte b ++ cs) false at r
      ≡ (write_to_memory (b ∷ []) at r >>= λ r'. write_str cs false ((at + 1) % 2 ^ 32) r')
unfolding write_str str_step
write_str-byte b cs at r = ground arith

Extends-nil : (r : Parse) → r.memsz ≤ r.memory.size → r.memory.size < 2 ^ 32 → Extends [] r r
Extends-nil r fits small = record {
  memsz = omega arith;
  bytes = tt;
  below = λ q p. refl;
  fits = fits;
  small = small;
  rest = refl;
}

quote_ends :
    (rest : List ℕ) (at : ℕ) (r : Parse) → write_str (b'"' ∷ rest) false at r ≡ some (at, true, r)
unfolding write_str str_step
quote_ends rest at r = refl

write_str-quoted :
    (bs rest : List ℕ) (r : Parse)
    → r.memsz + length bs + mem_alloc_block_sz ≤ 2 ^ 32
    → r.memsz ≤ r.memory.size
    → r.memory.size < 2 ^ 32
    → (r' : Parse) × (write_str (quoted bs ++ b'"' ∷ rest) false r.memsz r
        ≡ some (r'.memsz, true, r'))
      × Extends bs r r'
write_str-quoted [] rest r h fits small = (r, quote_ends rest r.memsz r, Extends-nil r fits small)
write_str-quoted (b ∷ bs) rest r h fits small =
    let (r1, done, ext) = write_to_memory-Extends (b ∷ []) r (omega arith) fits small in
    let len = ext.memsz in
    let (r2, done', ext') = write_str-quoted bs rest r1 (omega (arith, len)) ext.fits ext.small in
    let at : (r.memsz + 1) % 2 ^ 32 ≡ r1.memsz = omega (arith, len) in
    (
      r2,
      ap (λ t. write_str t false r.memsz r) (append_assoc (quoted_byte b) (quoted bs) (b'"' ∷ rest))
          ∙ write_str-byte b (quoted bs ++ b'"' ∷ rest) r.memsz r
          ∙ bind-some (write_to_memory (b ∷ []) r.memsz r) _ r1 _ done
              (ap (λ k. write_str (quoted bs ++ b'"' ∷ rest) false k r1) at ∙ done'),
      Extends-trans (b ∷ []) bs r r1 r2 ext ext',
    )

add_str_to_memory-steps :
    (env : Env) (label : Option (List ℕ)) (q : ℕ) (text : List ℕ) (at : ℕ) (r r1 r2 : Parse)
    → write_str text false r.memsz r ≡ some (at, true, r1)
    → write_to_memory (0 ∷ []) at r1 ≡ some r2
    → add_str_to_memory env label (q ∷ text) minus_one32 minus_one32 r
      ≡ some (add_data_label env label r.memsz r2)
unfolding add_str_to_memory drop
add_str_to_memory-steps env label q text at r r1 r2 e f = rw (e, f) refl

-- A literal with neither size nor offset appends to the memory in use exactly the bytes that it quotes
-- and a zero behind them. The label is set to their place, and nothing else changes.
pub add_str_to_memory-quoted :
    (env : Env) (label : Option (List ℕ)) (bs rest : List ℕ) (r : Parse)
    → r.memsz + length bs + 1 + mem_alloc_block_sz ≤ 2 ^ 32
    → r.memsz ≤ r.memory.size
    → r.memory.size < 2 ^ 32
    → (r' : Parse) × (add_str_to_memory env label
          (b'"' ∷ (quoted bs ++ b'"' ∷ rest))
          minus_one32
          minus_one32
          r
        ≡ some (add_data_label env label r.memsz r'))
      × Extends (bs ++ 0 ∷ []) r r'
add_str_to_memory-quoted env label bs rest r h fits small =
    let (r1, done, ext) = write_str-quoted bs rest r (omega arith) fits small in
    let (r2, done', ext') =
      write_to_memory-Extends (0 ∷ []) r1 (omega (arith, ext.memsz)) ext.fits ext.small in
    (
      r2,
      add_str_to_memory-steps env label b'"' (quoted bs ++ b'"' ∷ rest) r1.memsz r r1 r2 done done',
      Extends-trans bs (0 ∷ []) r r1 r2 ext ext',
    )
