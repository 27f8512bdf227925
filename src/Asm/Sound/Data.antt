-- ===== src/Asm/Sound/Data.antt =====
-- The data directives of src/parser.c keep what the parser keeps.
use bvgz_vm.Common.{
  ℕ, zero, suc, ◌+◌, ◌%◌, ◌^◌, Bool, true, false, not, ◌&&◌, ◌||◌, List, [], ◌∷◌, Option, none,
  some, leb, ◌==◌, length, if◌then◌else◌,
}
use bvgz_vm.Vm.{minus_one32}
use bvgz_vm.Format.{le_bytes}
use bvgz_vm.Codegen.{◌>>=◌}
use bvgz_vm.Asm.{Env, Parse, LabelRef, report_error, report_warning}
use bvgz_vm.Asm.Number.{strtoull}
use bvgz_vm.Asm.Arg.{at_end}
use bvgz_vm.Asm.Instruction.{drop}
use bvgz_vm.Asm.Section.{
  ensure_memory_at_offset, write_to_memory, set_memory_size, write_offset_of, mem_alloc_block_sz,
}
use bvgz_vm.Asm.Data.{
  Step, begin_escape, end_text, put_byte, str_step, write_str, add_data_label, add_str_to_memory,
  add_hex_to_memory, add_label_to_memory, find_file, searched, write_file, add_file_to_memory,
  hex_bytes, take,
}
use bvgz_vm.Asm.Sound.{IsSound, Ensures, any-Ensures, bind-Ensures, cond-Ensures}
use bvgz_vm.Asm.Sound.Memory.{
  ensure_memory_at_offset-IsSound, write_to_memory-IsSound, set_memory_size-IsSound,
}

abbrev pub IsOk : Option Parse → Type 0
IsOk = Ensures IsSound

-- A step that is sound, and one behind it.
pub then-IsOk :
    (m : Option Parse) (f : Parse → Option Parse)
    → IsOk m
    → ((r : Parse) → IsSound r → IsOk (f r))
    → IsOk (m >>= f)
then-IsOk m f h k = bind-Ensures IsSound IsSound m f h k

add_data_label-IsSound :
    (env : Env) (label : Option (List ℕ)) (offset : ℕ) (r : Parse)
    → IsSound r
    → IsSound (add_data_label env label offset r)
add_data_label-IsSound env none offset r s = s
add_data_label-IsSound env (some label) offset r s = s

pub cond-IsSound :
    (b : Bool) (r r' : Parse) → IsSound r → IsSound r' → IsSound (if b then r else r')
cond-IsSound true r r' s s' = s
cond-IsSound false r r' s s' = s'

-- What ends every directive
ended-IsOk :
    (env : Env) (label : Option (List ℕ)) (offset size : ℕ) (r : Parse)
    → IsSound r
    → IsOk (set_memory_size offset size r >>= (λ r'. some (add_data_label env label offset r')))
ended-IsOk env label offset size r s =
    then-IsOk (set_memory_size offset size r) _ (set_memory_size-IsSound offset size r s)
      (add_data_label-IsSound env label offset)

abbrev IsWritten : ℕ × Bool × Parse → Type 0
IsWritten t = IsSound t.2

step-IsWritten :
    (cs : List ℕ) (w_offset : ℕ) (r : Parse)
    → IsSound r
    → ((escape : Bool) (at : ℕ) (r' : Parse)
        → IsSound r'
        → Ensures IsWritten (write_str cs escape at r'))
    → (step : Step)
    → Ensures IsWritten (elim step [
      | begin_escape ↦ write_str cs true w_offset r
      | end_text ↦ some (w_offset, true, r)
      | put_byte byte escape ↦ write_to_memory (byte ∷ []) w_offset r >>= λ r'.
          write_str cs escape ((w_offset + 1) % 2 ^ 32) r'
    ])
step-IsWritten cs w_offset r s more begin_escape = more true w_offset r s
step-IsWritten cs w_offset r s more end_text = s
step-IsWritten cs w_offset r s more (put_byte byte escape) =
    bind-Ensures IsSound IsWritten (write_to_memory (byte ∷ []) w_offset r) _
      (write_to_memory-IsSound (byte ∷ []) w_offset r s) (more escape ((w_offset + 1) % 2 ^ 32))

write_str-IsWritten :
    (cs : List ℕ) (escape_chr : Bool) (w_offset : ℕ) (r : Parse)
    → IsSound r
    → Ensures IsWritten (write_str cs escape_chr w_offset r)
unfolding write_str
write_str-IsWritten [] escape_chr w_offset r s = s
write_str-IsWritten (c ∷ cs) escape_chr w_offset r s =
    step-IsWritten cs w_offset r s (write_str-IsWritten cs) (str_step escape_chr c)

pub add_str_to_memory-IsOk :
    (env : Env) (label : Option (List ℕ)) (str : List ℕ) (size offset : ℕ) (r : Parse)
    → IsSound r
    → IsOk (add_str_to_memory env label str size offset r)
unfolding add_str_to_memory
add_str_to_memory-IsOk env label str size offset r s =
    then-IsOk (ensure_memory_at_offset size offset r) _
      (ensure_memory_at_offset-IsSound size offset r s)
      λ r1 s1.
        bind-Ensures IsWritten IsSound (write_str (drop 1 str) false (write_offset_of offset r1) r1)
          _ (write_str-IsWritten (drop 1 str) false (write_offset_of offset r1) r1 s1)
          λ t s2.
            then-IsOk (write_to_memory (0 ∷ []) t.0 t.2) _
              (write_to_memory-IsSound (0 ∷ []) t.0 t.2 s2)
              λ r3 s3.
                ended-IsOk env label (write_offset_of offset r1) size
                  (if t.1 then r3 else report_error r3)
                  (cond-IsSound t.1 r3 (report_error r3) s3 s3)

-- What is written behind the offset of a directive
written-IsOk :
    (env : Env) (label : Option (List ℕ)) (src : List ℕ) (offset size : ℕ) (r : Parse)
    → IsSound r
    → IsOk (
        write_to_memory src offset r >>= λ r'.
        set_memory_size offset size r' >>= λ r''. some (add_data_label env label offset r''))
written-IsOk env label src offset size r s =
    then-IsOk (write_to_memory src offset r) _ (write_to_memory-IsSound src offset r s)
      (ended-IsOk env label offset size)

pub add_hex_to_memory-IsOk :
    (env : Env) (label : Option (List ℕ)) (hex : List ℕ) (size offset : ℕ) (r : Parse)
    → IsSound r
    → IsOk (add_hex_to_memory env label hex size offset r)
unfolding add_hex_to_memory
add_hex_to_memory-IsOk env label hex size offset r s =
    then-IsOk (ensure_memory_at_offset size offset r) _
      (ensure_memory_at_offset-IsSound size offset r s)
      λ r1 s1.
        let n = strtoull 16 (drop 2 hex) in
        let len = length (drop 2 hex) in
        let r2 : Parse = record r1 { erange = n.erange || r1.erange } in
        let r3 = if at_end n.endp then r2 else report_warning r2 in
        let s3 = cond-IsSound (at_end n.endp) r2 (report_warning r2) s1 s1 in
        written-IsOk env label (le_bytes (hex_bytes len) n.value) (write_offset_of offset r3) size
          (if leb len 16 then r3 else report_warning r3)
          (cond-IsSound (leb len 16) r3 (report_warning r3) s3 s3)

pub add_label_to_memory-IsOk :
    (env : Env) (label : Option (List ℕ)) (label_value : List ℕ) (size0 offset : ℕ) (r : Parse)
    → IsSound r
    → IsOk (add_label_to_memory env label label_value size0 offset r)
unfolding add_label_to_memory
add_label_to_memory-IsOk env label label_value size0 offset r s =
    let size = if size0 == minus_one32 then 4 else size0 in
    cond-Ensures IsSound (not (size == 4) && not (size == 8)) (some (report_error r)) _ s (
      then-IsOk (ensure_memory_at_offset size offset r) _
        (ensure_memory_at_offset-IsSound size offset r s)
        λ r1 s1.
          let at = write_offset_of offset r1 in
          let ref : LabelRef = record { size = size; write_offset = at; label = label_value } in
          written-IsOk env label (le_bytes size 0) at size
            (record r1 { label_refs = ref ∷ r1.label_refs }) s1)

write_file-IsOk :
    (fuel : ℕ) (bytes : List ℕ) (w_offset : ℕ) (r : Parse)
    → IsSound r
    → IsOk (write_file fuel bytes w_offset r)
unfolding write_file
write_file-IsOk zero bytes w_offset r s = s
write_file-IsOk (suc fuel) [] w_offset r s = s
write_file-IsOk (suc fuel) (b ∷ bytes) w_offset r s =
    let buffer = take mem_alloc_block_sz (b ∷ bytes) in
    then-IsOk (write_to_memory buffer w_offset r) _ (write_to_memory-IsSound buffer w_offset r s) (
      write_file-IsOk fuel (drop mem_alloc_block_sz (b ∷ bytes))
        ((w_offset + length buffer) % 2 ^ 32))

pub searched-IsSound :
    (env : Env) (filename : List ℕ) (include_paths : List (List ℕ)) (r : Parse)
    → IsSound r
    → IsSound (searched env filename include_paths r)
unfolding searched
searched-IsSound env filename [] r s = s
searched-IsSound env filename (path ∷ paths) r s = s

pub add_file_to_memory-IsOk :
    (env : Env) (label : Option (List ℕ)) (incl_file : List ℕ) (size offset : ℕ)
    (include_paths : List (List ℕ)) (r : Parse)
    → IsSound r
    → IsOk (add_file_to_memory env label incl_file size offset include_paths r)
unfolding add_file_to_memory
add_file_to_memory-IsOk env label incl_file size offset include_paths r s =
    go (searched env incl_file include_paths r) (searched-IsSound env incl_file include_paths r s)
      (find_file env incl_file include_paths)
  where
    go :
        (r : Parse)
        → IsSound r
        → (found : Option (List ℕ))
        → IsOk (elim found [
          | none ↦ some (report_error r)
          | some filepath ↦ (do
            r1 ← ensure_memory_at_offset size offset r
            bytes ← env.contents filepath
            let original_offset = write_offset_of offset r1
            r2 ← write_file (length bytes) bytes original_offset r1
            r3 ← set_memory_size original_offset size r2
            some (add_data_label env label original_offset r3))
        ])
    go r s none = s
    go r s (some filepath) =
        then-IsOk (ensure_memory_at_offset size offset r) _
          (ensure_memory_at_offset-IsSound size offset r s)
          λ r1 s1. any-Ensures IsSound (env.contents filepath) _ λ bytes.
            then-IsOk (write_file (length bytes) bytes (write_offset_of offset r1) r1) _
              (write_file-IsOk (length bytes) bytes (write_offset_of offset r1) r1 s1)
              (ended-IsOk env label (write_offset_of offset r1) size)
