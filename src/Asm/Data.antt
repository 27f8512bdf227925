-- ===== src/Asm/Data.antt =====
-- The data directives of src/parser.c: `add_str_to_memory`, `add_hex_to_memory`, `add_label_to_memory`
-- and `add_file_to_memory`, behind `find_file`.
pub mod Text
pub mod Zero
use bvgz_vm.Common.{
  ℕ, zero, suc, ◌+◌, ◌-◌, ◌*◌, ◌/◌, ◌%◌, ◌^◌, Bool, true, false, not, ◌&&◌, ◌||◌, List, [], ◌∷◌,
  ◌++◌, Option, none, some, leb, ltb, ◌==◌, length, if◌then◌else◌,
}
use bvgz_vm.Vm.{minus_one32}
use bvgz_vm.Format.{le_bytes}
use bvgz_vm.Codegen.{◌>>=◌}
use bvgz_vm.Instn.Table.{codes}
use bvgz_vm.Asm.{Env, Parse, LabelRef, report_error, report_warning, add_label}
use bvgz_vm.Asm.Number.{strtoull}
use bvgz_vm.Asm.Arg.{at_end}
use bvgz_vm.Asm.Instruction.{drop}
use bvgz_vm.Asm.Section.{
  ensure_memory_at_offset, write_to_memory, set_memory_size, write_offset_of, mem_alloc_block_sz,
}

-- `if (label) add_label(…, label + 1, result, offset, 1);`, where `label` starts with `@`
abbrev pub add_data_label : Env → (label : Option (List ℕ)) → (offset : ℕ) → Parse → Parse
add_data_label env none offset r = r
add_data_label env (some label) offset r = add_label env (drop 1 label) offset true r

-- The byte that stands for a letter behind a backslash.
abbrev pub escaped : ℕ → Option ℕ
escaped c =
    if c == b'a'
    then some 0x07
    else if c == b'b'
    then some 0x08
    else if c == b'f'
    then some 0x0C
    else if c == b'n'
    then some 0x0A
    else if c == b'r'
    then some 0x0D
    else if c == b't'
    then some 0x09
    else if c == b'v'
    then some 0x0B
    else none

-- What one character of the literal does: nothing but to note the backslash, the end of the text, or a byte
-- that is written, with `escape_chr` behind it.
pub data Step : Type 0 where
  begin_escape : Step
  end_text : Step
  put_byte : (byte : ℕ) → (escape_chr : Bool) → Step

-- `switch (*p)`
unfoldable pub str_step : (escape_chr : Bool) → ℕ → Step
str_step escape_chr c =
    if c == b'\\'
    then (if escape_chr then put_byte c false else begin_escape)
    else if c == b'"'
    then (if escape_chr then put_byte c false else end_text)
    else elim (escaped c) [
      | none ↦ put_byte c escape_chr
      | some e ↦ if escape_chr then put_byte e false else put_byte c false
    ]

-- `for (p = str + 1; *p && !stop; p++)`: the offset behind the text, and whether it ended.
unfoldable pub write_str :
    List ℕ → (escape_chr : Bool) → (w_offset : ℕ) → Parse → Option (ℕ × Bool × Parse)
unfolding str_step write_to_memory
write_str [] escape_chr w_offset r = some (w_offset, false, r)
write_str (c ∷ cs) escape_chr w_offset r = elim (str_step escape_chr c) [
  | begin_escape ↦ write_str cs true w_offset r
  | end_text ↦ some (w_offset, true, r)
  | put_byte byte escape ↦ write_to_memory (byte ∷ []) w_offset r >>= λ r'.
      write_str cs escape ((w_offset + 1) % 2 ^ 32) r'
]

-- `str` starts with its quotation mark.
unfoldable pub add_str_to_memory :
    Env → (label : Option (List ℕ)) → (str : List ℕ) → (size offset : ℕ) → Parse → Option Parse
unfolding ensure_memory_at_offset write_str write_to_memory set_memory_size
add_str_to_memory env label str size offset r = do
  r1 ← ensure_memory_at_offset size offset r
  let original_offset = write_offset_of offset r1
  (w_offset, stop, r2) ← write_str (drop 1 str) false original_offset r1
  r3 ← write_to_memory (0 ∷ []) w_offset r2
  r4 ← set_memory_size original_offset size (if stop then r3 else report_error r3)
  some (add_data_label env label original_offset r4)

-- The number of bytes of a number with so many digits.
abbrev pub hex_bytes : (len : ℕ) → ℕ
hex_bytes len = if leb len 2 then 1 else if leb len 4 then 2 else if leb len 8 then 4 else 8

unfoldable pub add_hex_to_memory :
    Env → (label : Option (List ℕ)) → (hex : List ℕ) → (size offset : ℕ) → Parse → Option Parse
unfolding ensure_memory_at_offset strtoull write_to_memory set_memory_size
add_hex_to_memory env label hex size offset r = do
  r1 ← ensure_memory_at_offset size offset r
  let n = strtoull 16 (drop 2 hex)
  let len = length (drop 2 hex)
  let r2 : Parse = record r1 { erange = n.erange || r1.erange }
  let r3 = if at_end n.endp then r2 else report_warning r2
  let w_offset = write_offset_of offset r3
  let r4 = if leb len 16 then r3 else report_warning r3
  r5 ← write_to_memory (le_bytes (hex_bytes len) n.value) w_offset r4
  r6 ← set_memory_size w_offset size r5
  some (add_data_label env label w_offset r6)

unfoldable pub add_label_to_memory :
    Env
    → (label : Option (List ℕ)) → (label_value : List ℕ) → (size offset : ℕ) → Parse
    → Option Parse
unfolding ensure_memory_at_offset write_to_memory set_memory_size
add_label_to_memory env label label_value size0 offset r =
    let size = if size0 == minus_one32 then 4 else size0 in
    if not (size == 4) && not (size == 8) then some (report_error r) else do
      r1 ← ensure_memory_at_offset size offset r
      let w_offset = write_offset_of offset r1
      let ref : LabelRef = record { size = size; write_offset = w_offset; label = label_value }
      let r2 : Parse = record r1 { label_refs = ref ∷ r1.label_refs }
      r3 ← write_to_memory (le_bytes size 0) w_offset r2
      r4 ← set_memory_size w_offset size r3
      some (add_data_label env label w_offset r4)

abbrev pub filepath_buf_sz : ℕ
filepath_buf_sz = 256

unfoldable pub take : ℕ → List ℕ → List ℕ
take zero xs = []
take (suc n) [] = []
take (suc n) (x ∷ xs) = x ∷ take n xs

-- `snprintf(filepath, filepath_sz, "%s/%s", …)` leaves room for the NUL.
unfoldable pub find_file :
    Env → (filename : List ℕ) → (include_paths : List (List ℕ)) → Option (List ℕ)
unfolding take
find_file env filename [] = none
find_file env filename (path ∷ paths) =
    let rest = find_file env filename paths in
    let filepath = take (filepath_buf_sz - 1) (path ++ b'/' ∷ filename) in
    if env.exists filepath then some filepath else rest

-- `errno` behind the search: a `stat` that fails sets another error than `ERANGE`.
unfoldable pub searched :
    Env → (filename : List ℕ) → (include_paths : List (List ℕ)) → Parse → Parse
unfolding take
searched env filename [] r = r
searched env filename (path ∷ paths) r = record r {
  erange = r.erange && env.exists (take (filepath_buf_sz - 1) (path ++ b'/' ∷ filename));
}

-- `while ((sz = fread(buffer, 1, MEM_ALLOC_BLOCK_SZ, fp)) > 0)`; each round takes a byte at least, so that
-- the length of the file is fuel enough.
unfoldable pub write_file : (fuel : ℕ) → (bytes : List ℕ) → (w_offset : ℕ) → Parse → Option Parse
unfolding take drop write_to_memory
write_file zero bytes w_offset r = some r
write_file (suc fuel) [] w_offset r = some r
write_file (suc fuel) (b ∷ bytes) w_offset r =
    let buffer = take mem_alloc_block_sz (b ∷ bytes) in
    write_to_memory buffer w_offset r >>= λ r'.
    write_file fuel (drop mem_alloc_block_sz (b ∷ bytes)) ((w_offset + length buffer) % 2 ^ 32) r'

-- The result of `fopen` is not tested.
unfoldable pub add_file_to_memory :
    Env
    → (label : Option (List ℕ)) → (incl_file : List ℕ) → (size offset : ℕ)
    → (include_paths : List (List ℕ)) → Parse
    → Option Parse
unfolding find_file searched ensure_memory_at_offset write_file set_memory_size
add_file_to_memory env label incl_file size offset include_paths r =
    let r0 = searched env incl_file include_paths r in
    elim (find_file env incl_file include_paths) [
      | none ↦ some (report_error r0)
      | some filepath ↦ (do
        r1 ← ensure_memory_at_offset size offset r0
        bytes ← env.contents filepath
        let original_offset = write_offset_of offset r1
        r2 ← write_file (length bytes) bytes original_offset r1
        r3 ← set_memory_size original_offset size r2
        some (add_data_label env label original_offset r3))
    ]
