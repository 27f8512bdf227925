-- ===== src/Codegen/Program.antt =====
-- The loop of `parse_to_bytecode` of src/bytecode_gen.c over the instructions of a program.
use Prim.Native.Nat.{bit_and}
use bvgz_vm.Common.{
  ℕ, zero, suc, ◌+◌, ◌^◌, ◌<◌, ◌≡◌, refl, ◌∙◌, sym, ap, set, ◌≤◌, Bool, true, false, not, ◌&&◌,
  some, List, [], ◌∷◌, ◌++◌, length, length-append, get_elem?, arith, ◌==◌,
}
use bvgz_vm.Memory.{Block}
use bvgz_vm.Instn.Table.{f_debug_only_instn}
use bvgz_vm.Format.{Operand, encode, BytesAt}
use bvgz_vm.Codegen.{
  PrsInstn, Labels, Gen, emit_instn, emit_instns, write_delayed, gen_start, parse_to_bytecode,
  fix_skipped,
}
use bvgz_vm.Codegen.Emission.{bind-some, resolve_all, AllSized}
use bvgz_vm.Codegen.Buffer.{BytesAt_congr, append-BytesAt}
use bvgz_vm.Codegen.Roundtrip.{IsWellSized, IsReady, placed, Appended, emit_instn-encode}

-- The format of a program: its opcodes with their operands, in order.
abbrev pub program_bytes : List (ℕ × List Operand) → List ℕ
program_bytes [] = []
program_bytes ((opcode, os) ∷ prog) = encode opcode os ++ program_bytes prog

-- The instructions once `i` has its offset, as `placed` has them
abbrev pub placed_at : List PrsInstn → (offset i : ℕ) → PrsInstn → List PrsInstn
placed_at instns offset i p = fix_skipped i offset (set instns i (record p { mem_offset = offset }))

-- What the parser gives of one instruction, all of whose labels stand before it or in the memory: its
-- arguments resolve to the operands, in the sizes that they have.
pub record Resolves (labels : Labels) (debug_mode : Bool) (instns : List PrsInstn) (offset i : ℕ)
    (p : PrsInstn) (os : List Operand) : Type 0 where
  pub kept : (not (bit_and p.instn.flags f_debug_only_instn == 0) && not debug_mode) ≡ false
  pub count : p.instn.arg_count ≡ length p.args
  pub few : length p.args ≤ 3
  pub opcode : p.instn.opcode < 256
  pub known : resolve_all labels (placed_at instns offset i p) i p.args ≡ some os
  pub sized : AllSized p.args

-- The program that the instructions from `i` on are, at an offset of the code. It is a condition on the
-- instructions and the lengths of their formats alone: an instruction for the debugger alone is
-- passed over, and each of the others resolves and takes its place.
pub data Program (labels : Labels) (debug_mode : Bool)
    : ℕ → ℕ → ℕ → List PrsInstn → List (ℕ × List Operand) → Type 0 where
  end : {i offset : ℕ} {instns : List PrsInstn} → Program labels debug_mode zero i offset instns []
  skip :
      {k i offset : ℕ} {instns : List PrsInstn} {prog : List (ℕ × List Operand)} (p : PrsInstn)
      → get_elem? instns i ≡ some p
      → (not (bit_and p.instn.flags f_debug_only_instn == 0) && not debug_mode) ≡ true
      → Program labels debug_mode k (i + 1) offset instns prog
      → Program labels debug_mode (suc k) i offset instns prog
  emit :
      {k i offset : ℕ} {instns : List PrsInstn} {prog : List (ℕ × List Operand)} (p : PrsInstn)
      (os : List Operand)
      → get_elem? instns i ≡ some p
      → Resolves labels debug_mode instns offset i p os
      → Program labels debug_mode k
          (i + 1)
          (offset + length (encode p.instn.opcode os))
          (placed_at instns offset i p)
          prog
      → Program labels debug_mode (suc k) i offset instns ((p.instn.opcode, os) ∷ prog)

-- The bytes were appended by the loop; what stood before them is kept, and no reference is left to be
-- written later.
pub record Written (bs : List ℕ) (g g' : Gen) : Type 0 where
  pub offset : g'.offset ≡ g.offset + length bs
  pub bytes : BytesAt g'.buffer.cell g.offset bs
  pub below : (q : ℕ) → q < g.offset → g'.buffer.cell q ≡ g.buffer.cell q
  pub delayed : g'.delayed_refs ≡ g.delayed_refs

Written-append :
    (xs ys : List ℕ) (g g' g'' : Gen)
    → Appended xs g g'
    → Written ys g' g''
    → Written (xs ++ ys) g g''
Written-append xs ys g g' g'' h k = record {
  offset = omega (arith, h.offset, k.offset, length-append xs ys);
  bytes =
      append-BytesAt g''.buffer.cell g.offset g'.offset xs ys (sym h.offset)
        (BytesAt_congr g'.buffer.cell g''.buffer.cell g.offset xs
          (λ q p. k.below q (omega (arith, h.offset))) h.bytes)
        k.bytes;
  below = λ q p. k.below q (omega (arith, h.offset)) ∙ h.below q p;
  delayed = k.delayed ∙ h.delayed;
}

emit_instn-skipped :
    (labels : Labels) (debug_mode : Bool) (i : ℕ) (g : Gen) (p : PrsInstn)
    → get_elem? g.instns i ≡ some p
    → (not (bit_and p.instn.flags f_debug_only_instn == 0) && not debug_mode) ≡ true
    → emit_instn labels debug_mode i g ≡ some g
unfolding emit_instn
emit_instn-skipped labels debug_mode i g p at out =
    bind-some (get_elem? g.instns i) _ p (some g) at (rw out)

-- One round of the loop, and the rest of it.
emit_instns_step :
    (labels : Labels) (debug_mode : Bool) (k i : ℕ) (g g' g'' : Gen)
    → emit_instn labels debug_mode i g ≡ some g'
    → emit_instns labels debug_mode k (i + 1) g' ≡ some g''
    → emit_instns labels debug_mode (suc k) i g ≡ some g''
unfolding emit_instns
emit_instns_step labels debug_mode k i g g' g'' e f =
    bind-some (emit_instn labels debug_mode i g) _ g' (some g'') e f

emit_instns-Written :
    (labels : Labels) (debug_mode : Bool) {k i offset : ℕ} {instns : List PrsInstn}
    {prog : List (ℕ × List Operand)} (g : Gen)
    → Program labels debug_mode k i offset instns prog
    → g.offset ≡ offset
    → g.instns ≡ instns
    → IsWellSized g
    → offset + length (program_bytes prog) + 283 < 2 ^ 31
    → (g' : Gen) × (emit_instns labels debug_mode k i g ≡ some g')
      × Written (program_bytes prog) g g'
unfolding emit_instns
emit_instns-Written labels debug_mode g end here same sized limit =
    (g, refl, record { offset = omega arith; bytes = tt; below = λ q h. refl; delayed = refl })
emit_instns-Written labels debug_mode g (skip {k} {i} p at out rest) here same sized limit =
    let (g', done, written) = emit_instns-Written labels debug_mode g rest here same sized limit in
    (
      g',
      emit_instns_step labels debug_mode k i g g g'
          (emit_instn-skipped labels debug_mode i g p (ap (λ is. get_elem? is i) same ∙ at) out)
          done,
      written,
    )
emit_instns-Written labels debug_mode g (emit {k} {i} {offset} {instns} {prog} p os at r rest) here
      same sized limit =
    let bytes = length-append (encode p.instn.opcode os) (program_bytes prog) in
    let there : placed g i p ≡ placed_at instns offset i p = λ j. placed_at (same j) (here j) i p in
    let ready : IsReady labels debug_mode g i p os = record {
      listed = ap (λ is. get_elem? is i) same ∙ at;
      kept = r.kept;
      count = r.count;
      few = r.few;
      opcode = r.opcode;
      known = ap (λ is. resolve_all labels is i p.args) there ∙ r.known;
      sized = r.sized;
    } in
    let (g', e, appended, moved) =
      emit_instn-encode labels debug_mode g i p os ready sized (omega arith) in
    let (g'', done, written) =
      emit_instns-Written labels debug_mode g' rest (omega (arith, appended.offset, here))
        (moved ∙ there)
        (record { blocks = appended.blocks; used = appended.used; small = appended.small })
        (omega (arith, bytes)) in
    (
      g'',
      emit_instns_step labels debug_mode k i g g' g'' e done,
      Written-append (encode p.instn.opcode os) (program_bytes prog) g g' g'' appended written,
    )

-- The code generator succeeds on a parse without errors whose instructions are a program, in which every
-- label that an instruction names stands before it or in the memory, and whose code ends at least 283
-- bytes below 2 ^ 31: the code is the instruction format of the instructions in their order, without
-- those for the debugger alone unless they are asked for.
pub parse_to_bytecode-program_bytes :
    (junk : ℕ → ℕ) (labels : Labels) (debug_mode : Bool) (instns : List PrsInstn)
    (prog : List (ℕ × List Operand))
    → Program labels debug_mode (length instns) 0 0 instns prog
    → length (program_bytes prog) + 283 < 2 ^ 31
    → (code : Block) × (instns' : List PrsInstn) × (parse_to_bytecode junk labels debug_mode 0
          instns
        ≡ some (code, length (program_bytes prog), instns'))
      × BytesAt code.cell 0 (program_bytes prog)
unfolding parse_to_bytecode write_delayed
parse_to_bytecode-program_bytes junk labels debug_mode instns prog program limit =
    let start : IsWellSized (gen_start junk instns) = record {
      blocks = refl;
      used = omega arith;
      small = omega arith;
    } in
    let (g, done, written) =
      emit_instns-Written labels debug_mode (gen_start junk instns) program refl refl start
        (omega arith) in
    (g.buffer, g.instns, ground (arith, done, written.delayed, written.offset), written.bytes)
