-- ===== src/Codegen/Sizes.antt =====
-- `compute_layout` and the growth of the buffer: the size that is reserved is the size that is
-- written, and the buffer has that room.
use mathlib.Core.Path.{subst}
use native.Mathlib.Nat.{pow-suc, pow-le-pow_right}
use bvgz_vm.Common.{
  ◌⊎◌, ℕ, zero, suc, ◌+◌, ◌*◌, ◌%◌, ◌^◌, ◌≤◌, ◌<◌, ◌≡◌, refl, ◌∙◌, true, false, some, List, [], ◌∷◌,
  length, if◌then◌else◌, arith, leb, eq_of_some, Bool-cases, inl, inr,
}
use bvgz_vm.Format.{Operand, imm_bit, size_bits, size_flags, op_word, has_imm}
use bvgz_vm.Format.Instruction.{imm_flags_zero, imm_flags-lt, imm_bit-le}
use bvgz_vm.Codegen.{
  PrsArg, PrsInstn, Labels, ArgType, arg_imm, arg_ref_num, arg_ref_lbl, arg_imm_lbl, nlog2,
  is_imm_type, Layout, layout_args, compute_layout, grow_blocks,
}
use bvgz_vm.Codegen.Emission.{
  resolve, resolve_label, resolve_all, IsSized, AllSized, total_bytes, bind-eq_some,
}

nlog2-lt : (n : ℕ) → nlog2 n < 4
unfolding nlog2
nlog2-lt n = ground arith

abbrev TypedBits : ArgType → PrsArg → Operand → Type 0
TypedBits t a o =
    (imm_bit o ≡ (if is_imm_type t then 1 else 0))
    × (size_bits o ≡ (if is_imm_type t then nlog2 a.n_bytes else 0))
    × (size_bits o < 4)
    × (a.n_bytes ≤ 8)

resolve-Bits :
    (t : ArgType) (labels : Labels) (instns : List PrsInstn) (cur_instn : ℕ) (a : PrsArg)
    (o : Operand)
    → resolve t labels instns cur_instn a ≡ some o
    → IsSized t a
    → TypedBits t a o
unfolding nlog2
resolve-Bits arg_ref_num labels instns cur_instn a o e sized =
    subst (TypedBits arg_ref_num a) (eq_of_some e) (omega arith)
resolve-Bits arg_imm labels instns cur_instn a o e sized =
    subst (TypedBits arg_imm a) (eq_of_some e)
      (refl, refl, nlog2-lt a.n_bytes, omega (arith, sized.0))
resolve-Bits arg_imm_lbl labels instns cur_instn a o e sized =
    let (v, known, same) = bind-eq_some (resolve_label labels instns cur_instn a) _ o e in
    subst (TypedBits arg_imm_lbl a) (eq_of_some same)
      (rw sized (refl, refl, omega arith, omega arith))
resolve-Bits arg_ref_lbl labels instns cur_instn a o e sized =
    let (v, known, same) = bind-eq_some (resolve_label labels instns cur_instn a) _ o e in
    subst (TypedBits arg_ref_lbl a) (eq_of_some same) (omega arith)

abbrev AllBits : List PrsArg → List Operand → Type 0
AllBits [] [] = Unit
AllBits (a ∷ args) (o ∷ os) = TypedBits a.type a o × AllBits args os
AllBits _ _ = ⊥

resolve_all-Bits :
    (labels : Labels) (instns : List PrsInstn) (cur_instn : ℕ) (args : List PrsArg)
    (os : List Operand)
    → resolve_all labels instns cur_instn args ≡ some os
    → AllSized args
    → AllBits args os
resolve_all-Bits labels instns cur_instn [] os e sized = subst (AllBits []) (eq_of_some e) tt
resolve_all-Bits labels instns cur_instn (a ∷ args) os e sized =
    let (o, known, e') = bind-eq_some (resolve a.type labels instns cur_instn a) _ os e in
    let (rest, known', e'') = bind-eq_some (resolve_all labels instns cur_instn args) _ os e' in
    subst (AllBits (a ∷ args)) (eq_of_some e'') (
      resolve-Bits a.type labels instns cur_instn a o known sized.0,
      resolve_all-Bits labels instns cur_instn args rest known' sized.1,
    )

abbrev laid_out : ℕ → List PrsArg → List Operand → Layout
laid_out opcode args os = record {
  size = 2 + total_bytes args;
  op_ir = op_word opcode os;
  i_sz = size_flags os;
}

bits_true :
    (a : PrsArg) (o : Operand)
    → is_imm_type a.type ≡ true
    → TypedBits a.type a o
    → (imm_bit o ≡ 1) × (size_bits o ≡ nlog2 a.n_bytes)
bits_true a o e bits = ground arith

bits_false :
    (a : PrsArg) (o : Operand)
    → is_imm_type a.type ≡ false
    → TypedBits a.type a o
    → (imm_bit o ≡ 0) × (size_bits o ≡ 0)
bits_false a o e bits = ground arith

-- One round of the loop, over numbers that stay small; `w` and `z` are the two powers.
layout_args-round :
    (k j w z : ℕ) (a : PrsArg) (args : List PrsArg) (o : Operand) (l : Layout)
    → 2 ^ j ≡ w
    → 2 ^ (2 * j) ≡ z
    → TypedBits a.type a o
    → l.size < 100
    → l.op_ir + w < 2 ^ 16
    → l.i_sz + 3 * z < 2 ^ 8
    → layout_args (suc k) j (a ∷ args) l
      ≡ layout_args k (j + 1) args (record {
        size = l.size + a.n_bytes;
        op_ir = l.op_ir + imm_bit o * w;
        i_sz = l.i_sz + size_bits o * z;
      })
unfolding layout_args
layout_args-round k j w z a args o l ew ez bits hs hw hz =
    let product : size_bits o * z ≤ 3 * z = grind arith in
    elim (Bool-cases (is_imm_type a.type)) [
      | inl e ↦
          let one = bits_true a o e bits in
          let size : (l.size + a.n_bytes) % 2 ^ 32 ≡ l.size + a.n_bytes = omega arith in
          let ir : (l.op_ir + 2 ^ j) % 2 ^ 16 ≡ l.op_ir + imm_bit o * w =
            rw (ew, one.0) (omega arith) in
          let sz : (l.i_sz + nlog2 a.n_bytes * 2 ^ (2 * j)) % 2 ^ 8 ≡ l.i_sz + size_bits o * z =
            rw (ez, ← one.1) (omega arith) in
          rw (e, size, ir, sz)
      | inr e ↦
          let none' = bits_false a o e bits in
          let size : (l.size + a.n_bytes) % 2 ^ 32 ≡ l.size + a.n_bytes = omega arith in
          let ir : l.op_ir ≡ l.op_ir + imm_bit o * w = rw (none'.0) (omega arith) in
          let sz : l.i_sz ≡ l.i_sz + size_bits o * z = rw (none'.1) (omega arith) in
          rw (e, size, ← ir, ← sz)
    ]

layout_args_done :
    (l m : Layout)
    → l.size ≡ m.size
    → l.op_ir ≡ m.op_ir
    → l.i_sz ≡ m.i_sz
    → layout_args 0 3 [] l ≡ some m
unfolding layout_args
layout_args_done l m e f g = ground arith

three :
    (opcode : ℕ) (a b c : PrsArg) (o p q : Operand)
    → opcode < 256
    → AllBits (a ∷ b ∷ c ∷ []) (o ∷ p ∷ q ∷ [])
    → layout_args 3 0 (a ∷ b ∷ c ∷ []) (record { size = 2; op_ir = opcode * 8; i_sz = 0 })
      ≡ some (laid_out opcode (a ∷ b ∷ c ∷ []) (o ∷ p ∷ q ∷ []))
three opcode a b c o p q small bits =
    let l0 : Layout = record { size = 2; op_ir = opcode * 8; i_sz = 0 } in
    let l1 : Layout = record {
      size = l0.size + a.n_bytes;
      op_ir = l0.op_ir + imm_bit o * 1;
      i_sz = l0.i_sz + size_bits o * 1;
    } in
    let l2 : Layout = record {
      size = l1.size + b.n_bytes;
      op_ir = l1.op_ir + imm_bit p * 2;
      i_sz = l1.i_sz + size_bits p * 4;
    } in
    let bo = imm_bit-le o in
    let bp = imm_bit-le p in
    layout_args-round 2 0 1 1 a (b ∷ c ∷ []) o l0 refl refl bits.0 (omega arith) (omega arith)
      (omega arith)
    ∙ layout_args-round 1 1 2 4 b (c ∷ []) p l1 refl refl bits.1.0 (omega arith) (omega arith)
        (omega arith)
    ∙ layout_args-round 0 2 4 16 c [] q l2 refl refl bits.1.1.0 (omega arith) (omega arith)
        (omega arith)
    ∙ layout_args_done _ _ (omega arith) (omega arith) (omega arith)

-- The loop of `compute_layout`, of up to three arguments.
layout_args-laid_out :
    (opcode : ℕ) (args : List PrsArg) (os : List Operand)
    → opcode < 256
    → length args ≤ 3
    → AllBits args os
    → layout_args (length args) 0 args (record { size = 2; op_ir = opcode * 8; i_sz = 0 })
      ≡ some (laid_out opcode args os)
unfolding layout_args
layout_args-laid_out opcode [] [] small len bits = ground arith
layout_args-laid_out opcode (a ∷ []) (o ∷ []) small len bits = ground arith
layout_args-laid_out opcode (a ∷ b ∷ []) (o ∷ p ∷ []) small len bits = ground arith
layout_args-laid_out opcode (a ∷ b ∷ c ∷ []) (o ∷ p ∷ q ∷ []) small len bits =
    three opcode a b c o p q small bits
layout_args-laid_out opcode [] (o ∷ os) small len bits = absurd bits
layout_args-laid_out opcode (a ∷ []) [] small len bits = absurd bits
layout_args-laid_out opcode (a ∷ []) (o ∷ p ∷ os) small len bits = absurd bits.1
layout_args-laid_out opcode (a ∷ b ∷ []) [] small len bits = absurd bits
layout_args-laid_out opcode (a ∷ b ∷ []) (o ∷ []) small len bits = absurd bits.1
layout_args-laid_out opcode (a ∷ b ∷ []) (o ∷ p ∷ q ∷ os) small len bits = absurd bits.1.1
layout_args-laid_out opcode (a ∷ b ∷ c ∷ []) [] small len bits = absurd bits
layout_args-laid_out opcode (a ∷ b ∷ c ∷ []) (o ∷ []) small len bits = absurd bits.1
layout_args-laid_out opcode (a ∷ b ∷ c ∷ []) (o ∷ p ∷ []) small len bits = absurd bits.1.1
layout_args-laid_out opcode (a ∷ b ∷ c ∷ []) (o ∷ p ∷ q ∷ r ∷ os) small len bits = absurd bits.1.1.1
layout_args-laid_out opcode (a ∷ b ∷ c ∷ d ∷ args) os small len bits = absurd (omega arith)

total_bytes-le :
    (args : List PrsArg) (os : List Operand)
    → AllBits args os
    → (total_bytes args ≤ 8 * length args) × (length os ≡ length args)
total_bytes-le [] [] bits = omega arith
total_bytes-le [] (o ∷ os) bits = absurd bits
total_bytes-le (a ∷ args) [] bits = absurd bits
total_bytes-le (a ∷ args) (o ∷ os) bits = omega (arith, bits.0.3, total_bytes-le args os bits.1)

-- The whole of `compute_layout`: the word, the sizes and the length that the format gives.
pub compute_layout-encode :
    (labels : Labels) (instns : List PrsInstn) (cur_instn : ℕ) (p : PrsInstn) (os : List Operand)
    → p.instn.arg_count ≡ length p.args
    → length p.args ≤ 3
    → p.instn.opcode < 256
    → resolve_all labels instns cur_instn p.args ≡ some os
    → AllSized p.args
    → compute_layout p
      ≡ some (record {
        size = 2 + ((if has_imm os then 1 else 0) + total_bytes p.args);
        op_ir = op_word p.instn.opcode os;
        i_sz = size_flags os;
      })
unfolding compute_layout
compute_layout-encode labels instns cur_instn p os count len small known sized =
    let bits = resolve_all-Bits labels instns cur_instn p.args os known sized in
    let loop = layout_args-laid_out p.instn.opcode p.args os small len bits in
    let total = total_bytes-le p.args os bits in
    let flags = imm_flags-lt os (omega arith) in
    let start : p.instn.opcode * 2 ^ 3 % 2 ^ 16 ≡ p.instn.opcode * 8 = omega arith in
    rw (count, start, loop) (ground (arith, imm_flags_zero os, flags, total.0))

size_bits-flags :
    (args : List PrsArg) (os : List Operand)
    → length args ≤ 3
    → AllBits args os
    → size_flags os < 4 ^ length os
size_bits-flags [] [] len bits = omega arith
size_bits-flags [] (o ∷ os) len bits = absurd bits
size_bits-flags (a ∷ args) [] len bits = absurd bits
size_bits-flags (a ∷ args) (o ∷ os) len bits =
    let rest = size_bits-flags args os (omega arith) bits.1 in
    let power : 4 ^ suc (length os) ≡ 4 * 4 ^ length os = rw pow-suc (omega arith) in
    omega (arith, bits.0.2)

-- An instruction takes at most 27 bytes.
pub few_bytes :
    (labels : Labels) (instns : List PrsInstn) (cur_instn : ℕ) (args : List PrsArg)
    (os : List Operand)
    → length args ≤ 3
    → resolve_all labels instns cur_instn args ≡ some os
    → AllSized args
    → (total_bytes args ≤ 24) × (length os ≤ 3) × (size_flags os < 256)
few_bytes labels instns cur_instn args os len known sized =
    let bits = resolve_all-Bits labels instns cur_instn args os known sized in
    let total = total_bytes-le args os bits in
    let flags = size_bits-flags args os len bits in
    let power : 4 ^ length os ≤ 4 ^ 3 = pow-le-pow_right (omega arith) {j = 3} (omega arith) in
    omega arith

-- `need` rounds of the loop over blocks are enough, and leave room for `need` bytes, in as many
-- blocks as before or in as few as hold them.
pub grow_blocks-room :
    (fuel need n : ℕ)
    → need < fuel * 256 + n * 256 + 1
    → need < 2 ^ 31
    → n * 256 < 2 ^ 31 + 256
    → (m : ℕ) × (grow_blocks fuel need n ≡ some m)
      × (need ≤ m * 256)
      × (m * 256 < 2 ^ 32)
      × (n ≤ m)
      × ((m ≡ n) ⊎ (m * 256 < need + 256))
unfolding grow_blocks
grow_blocks-room zero need n enough h k =
    (n, ground arith, ground arith, ground arith, ground arith, inl refl)
grow_blocks-room (suc fuel) need n enough h k = elim (Bool-cases (leb need (n * 256 % 2 ^ 32))) [
  | inl fits ↦ (n, ground arith, ground arith, ground arith, ground arith, inl refl)
  | inr more ↦
      let (m, done, room, small, le, tight) =
        grow_blocks-room fuel need (n + 1) (ground arith) h (ground arith) in
      let next : (n + 1) % 2 ^ 32 ≡ n + 1 = ground arith in
      (m, rw (more, next) done, room, small, omega arith, inr (ground arith))
]
