-- ===== src/Codegen/Emission.antt =====
-- What the writers of src/bytecode_gen.c put into the buffer, as bytes of the instruction format.
use mathlib.Core.Path.{subst}
use bvgz_vm.Common.{
  eq_of_some, ℕ, suc, ◌+◌, ◌%◌, ◌^◌, ◌<◌, ◌≡◌, refl, ◌∙◌, Option, none, some, List, [], ◌∷◌, length,
  length-append, if◌then◌else◌, arith, leb, ap, get_elem?, sym, ◌⊎◌, inl, inr,
}
use bvgz_vm.Format.{Operand, immediate, reference, le_bytes, operand_bytes, operands_bytes}
use bvgz_vm.Format.Decoding.{length-le_bytes}
use bvgz_vm.Codegen.{
  PrsArg, PrsInstn, Labels, Gen, ArgType, arg_imm, arg_ref_num, arg_ref_lbl, arg_imm_lbl, nlog2,
  put, write_num_ref_arg, write_imm_arg, write_label_arg, write_typed, write_args, ◌>>=◌,
}
use bvgz_vm.Codegen.Buffer.{Emitted, Emitted-nil, Emitted-append, Room, put-Emitted}

-- The number that a label stands for, where it is known when the argument is written.
abbrev pub resolve_label : Labels → List PrsInstn → (cur_instn : ℕ) → PrsArg → Option ℕ
resolve_label labels instns cur_instn a = labels a.label >>= λ l.
    if l.is_mem_ref
    then some l.offset
    else if leb l.offset cur_instn
    then (get_elem? instns l.offset >>= λ p. some p.mem_offset)
    else none

-- The operand of the format that an argument becomes.
abbrev pub resolve : ArgType → Labels → List PrsInstn → (cur_instn : ℕ) → PrsArg → Option Operand
resolve arg_ref_num labels instns cur_instn a = some (reference (a.value % 2 ^ 32))
resolve arg_imm labels instns cur_instn a = some (immediate (nlog2 a.n_bytes) a.value)
resolve arg_imm_lbl labels instns cur_instn a =
    resolve_label labels instns cur_instn a >>= λ v. some (immediate 2 v)
resolve arg_ref_lbl labels instns cur_instn a =
    resolve_label labels instns cur_instn a >>= λ v. some (reference v)

-- The sizes that `parse_arg` gives the arguments of each type, and immediate values that fit them.
abbrev pub IsSized : ArgType → PrsArg → Type 0
IsSized arg_imm a =
    ((a.n_bytes ≡ 1) ⊎ ((a.n_bytes ≡ 2) ⊎ ((a.n_bytes ≡ 4) ⊎ (a.n_bytes ≡ 8))))
    × (a.value < 256 ^ a.n_bytes)
IsSized _ a = a.n_bytes ≡ 4

write_label_arg-Emitted :
    (labels : Labels) (cur_instn : ℕ) (a : PrsArg) (g : Gen) (v : ℕ)
    → resolve_label labels g.instns cur_instn a ≡ some v
    → Room 4 g
    → (g' : Gen) × (write_label_arg labels cur_instn a g ≡ some g') × Emitted (le_bytes 4 v) g g'
unfolding write_label_arg
write_label_arg-Emitted labels cur_instn a g v e room =
    let (g', done, emitted) = put-Emitted 4 v g room in (g', ground (arith, done), emitted)

write_imm_arg_aux :
    (a : PrsArg) (g : Gen) (n : ℕ)
    → 2 ^ nlog2 a.n_bytes ≡ n
    → write_imm_arg a g ≡ put n a.value g
    → Room n g
    → (g' : Gen) × (write_imm_arg a g ≡ some g')
      × Emitted (operand_bytes (immediate (nlog2 a.n_bytes) a.value)) g g'
write_imm_arg_aux a g n size same room =
    let (g', done, emitted) = put-Emitted n a.value g room in (g', same ∙ done, rw size emitted)

fits_in : (a : PrsArg) (n : ℕ) → a.n_bytes ≡ n → a.value < 256 ^ a.n_bytes → a.value < 256 ^ n
fits_in a n e h = rw e at h

write_imm_arg-Emitted :
    (a : PrsArg) (g : Gen)
    → (a.n_bytes ≡ 1) ⊎ ((a.n_bytes ≡ 2) ⊎ ((a.n_bytes ≡ 4) ⊎ (a.n_bytes ≡ 8)))
    → a.value < 256 ^ a.n_bytes
    → Room a.n_bytes g
    → (g' : Gen) × (write_imm_arg a g ≡ some g')
      × Emitted (operand_bytes (immediate (nlog2 a.n_bytes) a.value)) g g'
unfolding write_imm_arg nlog2
write_imm_arg-Emitted a g (inl e) h room =
    write_imm_arg_aux a g 1 (rw e) (ground (arith, fits_in a 1 e h)) (rw e at room)
write_imm_arg-Emitted a g (inr (inl e)) h room =
    write_imm_arg_aux a g 2 (rw e) (ground (arith, fits_in a 2 e h)) (rw e at room)
write_imm_arg-Emitted a g (inr (inr (inl e))) h room =
    write_imm_arg_aux a g 4 (rw e) (ground (arith, fits_in a 4 e h)) (rw e at room)
write_imm_arg-Emitted a g (inr (inr (inr e))) h room =
    write_imm_arg_aux a g 8 (rw e) (ground (arith, fits_in a 8 e h)) (rw e at room)

pub bind-some {ℓ κ} :
    {A : Type ℓ} {B : Type κ} (m : Option A) (f : A → Option B) (a : A) (r : Option B)
    → m ≡ some a
    → f a ≡ r
    → (m >>= f) ≡ r
bind-some m f a r e h = rw e h

pub bind-eq_some {ℓ κ} :
    {A : Type ℓ} {B : Type κ} (m : Option A) (f : A → Option B) (b : B)
    → (m >>= f) ≡ some b
    → (a : A) × (m ≡ some a) × (f a ≡ some b)
bind-eq_some none f b e = cc
bind-eq_some (some a) f b e = (a, refl, e)

-- An argument whose operand is known is written as the bytes of that operand.
write_typed-Emitted :
    (t : ArgType) (labels : Labels) (cur_instn : ℕ) (a : PrsArg) (g : Gen) (o : Operand)
    → resolve t labels g.instns cur_instn a ≡ some o
    → IsSized t a
    → Room a.n_bytes g
    → (g' : Gen) × (write_typed t labels cur_instn a g ≡ some g') × Emitted (operand_bytes o) g g'
unfolding write_typed write_num_ref_arg
write_typed-Emitted arg_ref_num labels cur_instn a g o e sized room =
    let (g', done, emitted) = put-Emitted 4 (a.value % 2 ^ 32) g (rw sized at room) in
    (g', done, subst (λ x. Emitted (operand_bytes x) g g') (eq_of_some e) emitted)
write_typed-Emitted arg_imm labels cur_instn a g o e sized room =
    let (g', done, emitted) = write_imm_arg-Emitted a g sized.0 sized.1 room in
    (g', done, subst (λ x. Emitted (operand_bytes x) g g') (eq_of_some e) emitted)
write_typed-Emitted arg_imm_lbl labels cur_instn a g o e sized room =
    let (v, known, same) = bind-eq_some (resolve_label labels g.instns cur_instn a) _ o e in
    let (g', done, emitted) =
      write_label_arg-Emitted labels cur_instn a g v known (rw sized at room) in
    (g', done, subst (λ x. Emitted (operand_bytes x) g g') (eq_of_some same) emitted)
write_typed-Emitted arg_ref_lbl labels cur_instn a g o e sized room =
    let (v, known, same) = bind-eq_some (resolve_label labels g.instns cur_instn a) _ o e in
    let (g', done, emitted) =
      write_label_arg-Emitted labels cur_instn a g v known (rw sized at room) in
    (g', done, subst (λ x. Emitted (operand_bytes x) g g') (eq_of_some same) emitted)

-- The operands of a list of arguments.
abbrev pub resolve_all :
    Labels → List PrsInstn → (cur_instn : ℕ) → List PrsArg → Option (List Operand)
resolve_all labels instns cur_instn [] = some []
resolve_all labels instns cur_instn (a ∷ args) = resolve a.type labels instns cur_instn a >>= λ o.
    resolve_all labels instns cur_instn args >>= λ os. some (o ∷ os)

abbrev pub AllSized : List PrsArg → Type 0
AllSized [] = Unit
AllSized (a ∷ args) = IsSized a.type a × AllSized args

abbrev pub total_bytes : List PrsArg → ℕ
total_bytes [] = 0
total_bytes (a ∷ args) = a.n_bytes + total_bytes args

pow-nlog2 : (n : ℕ) → (n ≡ 1) ⊎ ((n ≡ 2) ⊎ ((n ≡ 4) ⊎ (n ≡ 8))) → 2 ^ nlog2 n ≡ n
unfolding nlog2
pow-nlog2 n (inl e) = rw e
pow-nlog2 n (inr (inl e)) = rw e
pow-nlog2 n (inr (inr (inl e))) = rw e
pow-nlog2 n (inr (inr (inr e))) = rw e

length-operand :
    (t : ArgType) (labels : Labels) (instns : List PrsInstn) (cur_instn : ℕ) (a : PrsArg)
    (o : Operand)
    → resolve t labels instns cur_instn a ≡ some o
    → IsSized t a
    → length (operand_bytes o) ≡ a.n_bytes
unfolding nlog2
length-operand arg_ref_num labels instns cur_instn a o e sized =
    subst (λ x. length (operand_bytes x) ≡ a.n_bytes) (eq_of_some e)
      (length-le_bytes 4 (a.value % 2 ^ 32) ∙ sym sized)
length-operand arg_imm labels instns cur_instn a o e sized =
    subst (λ x. length (operand_bytes x) ≡ a.n_bytes) (eq_of_some e)
      (length-le_bytes (2 ^ nlog2 a.n_bytes) a.value ∙ pow-nlog2 a.n_bytes sized.0)
length-operand arg_imm_lbl labels instns cur_instn a o e sized =
    let (v, known, same) = bind-eq_some (resolve_label labels instns cur_instn a) _ o e in
    subst (λ x. length (operand_bytes x) ≡ a.n_bytes) (eq_of_some same)
      (length-le_bytes 4 v ∙ sym sized)
length-operand arg_ref_lbl labels instns cur_instn a o e sized =
    let (v, known, same) = bind-eq_some (resolve_label labels instns cur_instn a) _ o e in
    subst (λ x. length (operand_bytes x) ≡ a.n_bytes) (eq_of_some same)
      (length-le_bytes 4 v ∙ sym sized)

-- The arguments are written one after the other.
pub write_args-Emitted :
    (labels : Labels) (cur_instn : ℕ) (args : List PrsArg) (g : Gen) (os : List Operand)
    → resolve_all labels g.instns cur_instn args ≡ some os
    → AllSized args
    → Room (total_bytes args) g
    → (g' : Gen) × (write_args labels cur_instn (length args) args g ≡ some g')
      × Emitted (operands_bytes os) g g'
unfolding write_args
write_args-Emitted labels cur_instn [] g os e sized room =
    (g, refl, subst (λ x. Emitted (operands_bytes x) g g) (eq_of_some e) (Emitted-nil g))
write_args-Emitted labels cur_instn (a ∷ args) g os e sized room =
    let (o, known, e') = bind-eq_some (resolve a.type labels g.instns cur_instn a) _ os e in
    let (rest, known', e'') = bind-eq_some (resolve_all labels g.instns cur_instn args) _ os e' in
    let (g', done, emitted) =
      write_typed-Emitted a.type labels cur_instn a g o known sized.0 (omega arith, room.1) in
    let size = length-operand a.type labels g.instns cur_instn a o known sized.0 in
    let (g'', done', emitted') =
      write_args-Emitted labels cur_instn args g' rest (rw emitted.instns known') sized.1
        (omega (arith, emitted.offset, emitted.size), omega (arith, emitted.size)) in
    (
      g'',
      bind-some (write_typed a.type labels cur_instn a g) _ g' (some g'') done done',
      subst (λ x. Emitted (operands_bytes x) g g'') (eq_of_some e'')
          (Emitted-append (operand_bytes o) (operands_bytes rest) emitted emitted'),
    )

pub length-operands :
    (labels : Labels) (instns : List PrsInstn) (cur_instn : ℕ) (args : List PrsArg)
    (os : List Operand)
    → resolve_all labels instns cur_instn args ≡ some os
    → AllSized args
    → length (operands_bytes os) ≡ total_bytes args
length-operands labels instns cur_instn [] os e sized =
    subst (λ x. length (operands_bytes x) ≡ 0) (eq_of_some e) refl
length-operands labels instns cur_instn (a ∷ args) os e sized =
    let (o, known, e') = bind-eq_some (resolve a.type labels instns cur_instn a) _ os e in
    let (rest, known', e'') = bind-eq_some (resolve_all labels instns cur_instn args) _ os e' in
    subst (λ x. length (operands_bytes x) ≡ a.n_bytes + total_bytes args) (eq_of_some e'')
      (omega (
        arith,
        length-append (operand_bytes o) (operands_bytes rest),
        length-operand a.type labels instns cur_instn a o known sized.0,
        length-operands labels instns cur_instn args rest known' sized.1,
      ))

pub length-resolved :
    (labels : Labels) (instns : List PrsInstn) (cur_instn : ℕ) (args : List PrsArg)
    (os : List Operand)
    → resolve_all labels instns cur_instn args ≡ some os
    → length os ≡ length args
length-resolved labels instns cur_instn [] os e =
    subst (λ (x : List Operand). length x ≡ 0) (eq_of_some e) refl
length-resolved labels instns cur_instn (a ∷ args) os e =
    let (o, known, e') = bind-eq_some (resolve a.type labels instns cur_instn a) _ os e in
    let (rest, known', e'') = bind-eq_some (resolve_all labels instns cur_instn args) _ os e' in
    subst (λ (x : List Operand). length x ≡ suc (length args)) (eq_of_some e'')
      (ap suc (length-resolved labels instns cur_instn args rest known'))
