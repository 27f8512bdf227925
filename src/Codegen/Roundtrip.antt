-- ===== src/Codegen/Roundtrip.antt =====
-- One instruction through the code generator and back: `emit_instn` writes the bytes of the format,
-- from which `decode_instn` yields the instruction.
use Prim.Native.Nat.{bit_and}
use mathlib.Core.Path.{subst}
use mathlib.Core.List.{append_assoc}
use bvgz_vm.Common.{
  ◌⊎◌, ℕ, ◌+◌, ◌*◌, ◌%◌, ◌^◌, ◌≤◌, ◌<◌, ◌≡◌, refl, ◌∙◌, Bool, true, false, not, sym, some, List, [],
  ◌∷◌, ◌++◌, length, length-append, if◌then◌else◌, arith, ◌==◌, ◌&&◌, get_elem?, set, eq_of_some,
  Bool-cases, inl, inr, ap,
}
use bvgz_vm.Vm.{Vm}
use bvgz_vm.Instn.{Instn}
use bvgz_vm.Instn.Table.{InstnDef, f_debug_only_instn}
use bvgz_vm.Decode.{decode_instn}
use bvgz_vm.Format.{
  Operand, size_flags, op_word, has_imm, le_bytes, operands_bytes, encode, BytesAt, OperandsFit,
  decoded,
}
use bvgz_vm.Format.Decoding.{length-le_bytes}
use bvgz_vm.Format.Instruction.{decode_instn-encode, imm_flags_zero, imm_flags-lt}
use bvgz_vm.Codegen.{
  PrsInstn, Labels, Gen, Layout, compute_layout, ensure_buffer, fix_skipped, write_head, write_args,
  emit_instn, put,
}
use bvgz_vm.Codegen.Emission.{
  resolve_all, AllSized, total_bytes, bind-some, length-operands, length-resolved,
  write_args-Emitted,
}
use bvgz_vm.Codegen.Buffer.{Emitted, Emitted-nil, Emitted-append, Room, put-Emitted, BytesAt_congr}
use bvgz_vm.Codegen.Sizes.{compute_layout-encode, few_bytes, grow_blocks-room}

-- The buffer consists of whole blocks, holds what was written, and is far from the limit of its
-- 32-bit size.
pub record IsWellSized (g : Gen) : Type 0 where
  pub blocks : g.buffer.size ≡ g.n_blocks * 256
  pub used : g.offset ≤ g.buffer.size
  pub small : g.buffer.size < 2 ^ 31

-- Growing the buffer never runs out of rounds.
ensure_buffer-room :
    (need : ℕ) (g : Gen)
    → IsWellSized g
    → need < 2 ^ 31
    → (m : ℕ) × (ensure_buffer need g
        ≡ some (record g { n_blocks = m; buffer = record (g.buffer) { size = m * 256 } }))
      × (need ≤ m * 256)
      × (m * 256 < 2 ^ 32)
      × (g.n_blocks ≤ m)
      × ((m ≡ g.n_blocks) ⊎ (m * 256 < need + 256))
unfolding ensure_buffer
ensure_buffer-room need g sized h =
    let (m, done, room, below, le, tight) =
      grow_blocks-room need need g.n_blocks (omega arith) h
        (omega (arith, sized.blocks, sized.small)) in
    (m, ground (arith, done), room, below, le, tight)

-- The head of an instruction: the word, and the byte of the sizes.
abbrev head_bytes : ℕ → List Operand → List ℕ
head_bytes opcode os =
    le_bytes 2 (op_word opcode os) ++ (if has_imm os then size_flags os ∷ [] else [])

length-head_bytes :
    (opcode : ℕ) (os : List Operand)
    → length (head_bytes opcode os) ≡ 2 + (if has_imm os then 1 else 0)
length-head_bytes opcode os = ground (
  arith,
  length-le_bytes 2 (op_word opcode os),
  length-append (le_bytes 2 (op_word opcode os)) (if has_imm os then size_flags os ∷ [] else []),
)

le_bytes_one : (v : ℕ) → v < 256 → le_bytes 1 v ≡ v ∷ []
unfolding le_bytes
le_bytes_one v h = ground arith

write_head-Emitted :
    (opcode : ℕ) (os : List Operand) (l : Layout) (g : Gen)
    → l.op_ir ≡ op_word opcode os
    → l.i_sz ≡ size_flags os
    → length os ≤ 3
    → size_flags os < 256
    → Room (2 + (if has_imm os then 1 else 0)) g
    → (g' : Gen) × (write_head l g ≡ some g') × Emitted (head_bytes opcode os) g g'
unfolding write_head
write_head-Emitted opcode os l g e f len small room = elim (Bool-cases (has_imm os)) [
  | inl imm ↦
      let (g₁, done₁, word) = put-Emitted 2 l.op_ir g (ground (arith, room.0), room.1) in
      let (g₂, done₂, sizes) = put-Emitted 1 l.i_sz g₁ (
        ground (arith, length-le_bytes 2 l.op_ir, word.offset, word.size, room.0),
        omega (arith, word.size),
      ) in
      let test : not (l.op_ir % 8 == 0) ≡ true =
        ground (arith, imm_flags_zero os, imm_flags-lt os len) in
      let bytes = Emitted-append (le_bytes 2 l.op_ir) (le_bytes 1 l.i_sz) word sizes in
      (
        g₂,
        bind-some (put 2 l.op_ir g) _ g₁ (some g₂) done₁ (rw test done₂),
        subst (λ bs. Emitted bs g g₂) (rw (imm, e, f, le_bytes_one (size_flags os) small)) bytes,
      )
  | inr refs ↦
      let (g₁, done₁, word) = put-Emitted 2 l.op_ir g (ground (arith, room.0), room.1) in
      let test : not (l.op_ir % 8 == 0) ≡ false =
        ground (arith, imm_flags_zero os, imm_flags-lt os len) in
      let bytes = Emitted-append (le_bytes 2 l.op_ir) [] word (Emitted-nil g₁) in
      (
        g₁,
        bind-some (put 2 l.op_ir g) _ g₁ (some g₁) done₁ (rw test),
        subst (λ bs. Emitted bs g g₁) (rw (refs, e)) bytes,
      )
]

-- The instructions once `i` has its offset.
abbrev pub placed : Gen → (i : ℕ) → PrsInstn → List PrsInstn
placed g i p = fix_skipped i g.offset (set g.instns i (record p { mem_offset = g.offset }))

-- What `parse_asm` gives of one instruction, with the labels that it names already placed.
pub record IsReady (labels : Labels) (debug_mode : Bool) (g : Gen) (i : ℕ) (p : PrsInstn)
    (os : List Operand) : Type 0 where
  pub listed : get_elem? g.instns i ≡ some p
  pub kept : (not (bit_and p.instn.flags f_debug_only_instn == 0) && not debug_mode) ≡ false
  pub count : p.instn.arg_count ≡ length p.args
  pub few : length p.args ≤ 3
  pub opcode : p.instn.opcode < 256
  pub known : resolve_all labels (placed g i p) i p.args ≡ some os
  pub sized : AllSized p.args

-- The bytes were appended to the code, which is whole blocks still.
pub record Appended (bs : List ℕ) (g g' : Gen) : Type 0 where
  pub offset : g'.offset ≡ g.offset + length bs
  pub bytes : BytesAt g'.buffer.cell g.offset bs
  pub below : (q : ℕ) → q < g.offset → g'.buffer.cell q ≡ g.buffer.cell q
  pub used : g'.offset ≤ g'.buffer.size
  pub blocks : g'.buffer.size ≡ g'.n_blocks * 256
  pub small : g'.buffer.size < 2 ^ 31
  pub delayed : g'.delayed_refs ≡ g.delayed_refs

-- A round of the code generator at an instruction that is ready, with at most three arguments and
-- with the labels that they name placed, in code that ends at least 283 bytes below 2 ^ 31: it
-- succeeds, appends exactly the bytes of the instruction format, keeps what was emitted before,
-- and gives the instruction, and the skipped ones right before it, their offset.
pub emit_instn-encode :
    (labels : Labels) (debug_mode : Bool) (g : Gen) (i : ℕ) (p : PrsInstn) (os : List Operand)
    → IsReady labels debug_mode g i p os
    → IsWellSized g
    → g.offset + 283 < 2 ^ 31
    → (g' : Gen) × (emit_instn labels debug_mode i g ≡ some g')
      × Appended (encode p.instn.opcode os) g g'
      × (g'.instns ≡ placed g i p)
unfolding emit_instn
emit_instn-encode labels debug_mode g i p os ready sized limit =
    let layout : Layout = record {
      size = 2 + ((if has_imm os then 1 else 0) + total_bytes p.args);
      op_ir = op_word p.instn.opcode os;
      i_sz = size_flags os;
    } in
    let computed =
      compute_layout-encode labels (placed g i p) i p os ready.count ready.few ready.opcode
        ready.known ready.sized in
    let small = few_bytes labels (placed g i p) i p.args os ready.few ready.known ready.sized in
    let size_byte : ℕ = if has_imm os then 1 else 0 in
    let one : size_byte ≤ 1 = ground arith in
    let need : ℕ = (g.offset + layout.size) % 2 ^ 32 in
    let exact : need ≡ g.offset + layout.size = omega arith in
    let (m, grown, room, below, le, tight) = ensure_buffer-room need g sized (omega arith) in
    let g₁ : Gen = record g {
      n_blocks = m;
      buffer = record (g.buffer) { size = m * 256 };
      instns = placed g i p;
    } in
    let (g₂, head_done, head) =
      write_head-Emitted p.instn.opcode os layout g₁ refl refl small.1 small.2
        (omega arith, below) in
    let head_len = length-head_bytes p.instn.opcode os in
    let (g₃, args_done, args) =
      write_args-Emitted labels i p.args g₂ os (rw head.instns ready.known) ready.sized
        (omega (arith, head.offset, head.size), omega (arith, head.size)) in
    let args_len = length-operands labels (placed g i p) i p.args os ready.known ready.sized in
    let whole =
      subst (λ bs. Emitted bs g₁ g₃)
        (append_assoc (le_bytes 2 (op_word p.instn.opcode os)) _ (operands_bytes os))
        (Emitted-append (head_bytes p.instn.opcode os) (operands_bytes os) head args) in
    (
      g₃,
      bind-some (get_elem? g.instns i) _ p (some g₃) ready.listed (
          rw (ready.kept) (
            bind-some (compute_layout p) _ layout (some g₃) computed (
              bind-some (ensure_buffer need g) _ (record g₁ { instns = g.instns }) (some g₃) grown
                (bind-some (write_head layout g₁) _ g₂ (some g₃) head_done
                  (ap (λ k. write_args labels i k p.args g₂) ready.count ∙ args_done))))),
      record {
        offset = whole.offset;
        bytes = whole.bytes;
        below = whole.below;
        used = omega (arith, head.offset, args.offset, head.size, args.size, head_len, args_len);
        blocks = whole.size ∙ ap (λ k. k * 256) (sym whole.n_blocks);
        small = ground (arith, tight, whole.size, sized.blocks, sized.small, exact, one, small.0);
        delayed = whole.delayed;
      },
      whole.instns,
    )

decode-Appended :
    (p : PrsInstn) (os : List Operand) (defs : List InstnDef) (vm : Vm) (instn : Instn) (g g' : Gen)
    → p.instn.opcode < 256
    → p.instn.arg_count ≡ length os
    → length os ≤ 3
    → get_elem? defs p.instn.opcode ≡ some p.instn
    → OperandsFit vm.memsz os
    → Appended (encode p.instn.opcode os) g g'
    → ((q : ℕ) → q < g'.offset → vm.code.cell q ≡ g'.buffer.cell q)
    → g'.offset ≤ vm.code.size
    → decode_instn defs g.offset instn vm
      ≡ some (some (length (encode p.instn.opcode os), decoded p.instn.opcode os instn), vm)
decode-Appended p os defs vm instn g g' small count len found fits appended same room =
    decode_instn-encode defs p.instn vm g.offset p.instn.opcode os instn found count small len fits
      (
        BytesAt_congr g'.buffer.cell vm.code.cell g.offset (encode p.instn.opcode os)
            (λ q h. same q (omega (arith, appended.offset))) appended.bytes,
        omega (arith, appended.offset),
      )

-- The round trip: an instruction that is ready for the code generator and that it emits, in code
-- that ends at least 283 bytes below 2 ^ 31, is decoded, at the offset where it was emitted, to
-- its opcode word, its operands and its length, by every machine whose code begins with the
-- buffer, whose table has the instruction at its opcode and whose memory holds the addresses that
-- the operands name.
pub decode_instn-emit_instn :
    (labels : Labels) (debug_mode : Bool) (g g' : Gen) (i : ℕ) (p : PrsInstn) (os : List Operand)
    (defs : List InstnDef) (vm : Vm) (instn : Instn)
    → IsReady labels debug_mode g i p os
    → IsWellSized g
    → g.offset + 283 < 2 ^ 31
    → get_elem? defs p.instn.opcode ≡ some p.instn
    → OperandsFit vm.memsz os
    → emit_instn labels debug_mode i g ≡ some g'
    → ((q : ℕ) → q < g'.offset → vm.code.cell q ≡ g'.buffer.cell q)
    → g'.offset ≤ vm.code.size
    → decode_instn defs g.offset instn vm
      ≡ some (some (length (encode p.instn.opcode os), decoded p.instn.opcode os instn), vm)
decode_instn-emit_instn labels debug_mode g g' i p os defs vm instn ready sized limit found fits e
      same room =
    let (g'', done, appended, instns) =
      emit_instn-encode labels debug_mode g i p os ready sized limit in
    let small = few_bytes labels (placed g i p) i p.args os ready.few ready.known ready.sized in
    let len = length-resolved labels (placed g i p) i p.args os ready.known in
    decode-Appended p os defs vm instn g g' ready.opcode (ready.count ∙ sym len) small.1 found fits
      (subst (Appended (encode p.instn.opcode os) g) (eq_of_some (sym done ∙ e)) appended) same room
