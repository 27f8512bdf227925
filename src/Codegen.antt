-- ===== src/Codegen.antt =====
-- src/bytecode_gen.c, from parsed instructions (src/parser.h) to code bytes: `parse_to_bytecode` and
-- its helpers. The buffer is a block of whole `BUF_BLOCK_SIZE` steps, and a write behind its end is
-- `none`; what `realloc` leaves in the bytes that it adds is a parameter, `junk`.
pub mod Emission
pub mod Buffer
pub mod Roundtrip
pub mod Program
pub mod Sizes
use Prim.Native.Nat.{bit_and}
use bvgz_vm.Common.{
  ℕ, zero, suc, ◌+◌, ◌-◌, ◌*◌, ◌/◌, ◌%◌, ◌^◌, Bool, true, false, not, ◌&&◌, ◌||◌, Option, none,
  some, List, [], ◌∷◌, ◌++◌, ltb, leb, ◌==◌, length, get_elem?, set, if◌then◌else◌,
}
use bvgz_vm.Memory.{Block, store}
use bvgz_vm.Vm.{minus_one32}
use bvgz_vm.Instn.Table.{InstnDef, f_debug_only_instn}

-- `T_ARG_*`
pub data ArgType : Type 0 where
  arg_imm arg_ref_num arg_ref_lbl arg_imm_lbl : ArgType

-- `prs_arg_t`; of the union `data`, `value` serves the numbers and `label` the labels.
pub record PrsArg : Type 0 where
  pub type : ArgType
  pub n_bytes : ℕ
  pub value : ℕ
  pub label : List ℕ

-- `prs_instn_t`
pub record PrsInstn : Type 0 where
  pub instn : InstnDef
  pub args : List PrsArg
  pub mem_offset : ℕ

-- `label_t`
pub record Label : Type 0 where
  pub offset : ℕ
  pub is_mem_ref : Bool

-- `hmap_get(parse->labels, …)`
abbrev pub Labels : Type 0
Labels = List ℕ → Option Label

-- `struct ref`
pub record DelayedRef : Type 0 where
  pub offset : ℕ
  pub instn : ℕ

-- The variables of `parse_to_bytecode`; `buffer.size` is `n_blocks * BUF_BLOCK_SIZE`.
pub record Gen : Type 0 where
  pub buffer : Block
  pub n_blocks : ℕ
  pub offset : ℕ
  pub instns : List PrsInstn
  pub delayed_refs : List DelayedRef

abbrev pub buf_block_size : ℕ
buf_block_size = 256

infixl 5 ◌>>=◌
abbrev pub ◌>>=◌ {ℓ κ} : {A : Type ℓ} {B : Type κ} → Option A → (A → Option B) → Option B
o >>= f = elim o [ none ↦ none | some a ↦ f a ]

unfoldable pub nlog2 : ℕ → ℕ
nlog2 n = if n == 1 then 0 else if n == 2 then 1 else if n == 4 then 2 else 3

abbrev pub is_imm_type : ArgType → Bool
is_imm_type arg_imm = true
is_imm_type arg_imm_lbl = true
is_imm_type _ = false

pub record Layout : Type 0 where
  pub size : ℕ
  pub op_ir : ℕ
  pub i_sz : ℕ

-- `for (j = 0; j < def->arg_count; j++)`. Each round sets bits of its own, so that `|=` is a sum.
unfoldable pub layout_args : (k j : ℕ) → List PrsArg → Layout → Option Layout
layout_args zero j args l = some l
layout_args (suc k) j [] l = none
layout_args (suc k) j (a ∷ args) l =
    let imm = is_imm_type a.type in
    layout_args k (j + 1) args (record {
      size = (l.size + a.n_bytes) % 2 ^ 32;
      op_ir = if imm then (l.op_ir + 2 ^ j) % 2 ^ 16 else l.op_ir;
      i_sz = if imm then (l.i_sz + nlog2 a.n_bytes * 2 ^ (2 * j)) % 2 ^ 8 else l.i_sz;
    })

unfoldable pub compute_layout : PrsInstn → Option Layout
compute_layout p = do
  l ←
      layout_args p.instn.arg_count 0 p.args
        (record { size = 2; op_ir = p.instn.opcode * 2 ^ 3 % 2 ^ 16; i_sz = 0 })
  some (if not (l.op_ir % 8 == 0) then record l { size = (l.size + 1) % 2 ^ 32 } else l)

-- `*(uintN_t*)(buffer + offset) = value; return offset + n;`
abbrev pub put : (n value : ℕ) → Gen → Option Gen
put n value g = do
  b ← store n value g.buffer g.offset
  some (record g { buffer = b; offset = (g.offset + n) % 2 ^ 32 })

unfoldable pub write_num_ref_arg : PrsArg → Gen → Option Gen
write_num_ref_arg a g = put 4 (a.value % 2 ^ 32) g

unfoldable pub write_imm_arg : PrsArg → Gen → Option Gen
write_imm_arg a g =
    if a.n_bytes == 1
    then put 1 (a.value % 2 ^ 8) g
    else if a.n_bytes == 2
    then put 2 (a.value % 2 ^ 16) g
    else if a.n_bytes == 4
    then put 4 (a.value % 2 ^ 32) g
    else put 8 a.value g

-- A label of the memory is written as it is, and one of an instruction that has its offset too.
-- For an instruction further on four bytes are left, and the place is noted.
unfoldable pub write_label_arg : Labels → (cur_instn : ℕ) → PrsArg → Gen → Option Gen
write_label_arg labels cur_instn a g = do
  label ← labels a.label
  if label.is_mem_ref
      then put 4 label.offset g
      else if leb label.offset cur_instn
      then (get_elem? g.instns label.offset >>= λ p. put 4 p.mem_offset g)
      else some (record g {
        offset = (g.offset + 4) % 2 ^ 32;
        delayed_refs = g.delayed_refs ++ record { offset = g.offset; instn = label.offset } ∷ [];
      })

-- `switch (instn->args[j].type)`
unfoldable pub write_typed : ArgType → Labels → (cur_instn : ℕ) → PrsArg → Gen → Option Gen
write_typed arg_ref_num labels cur_instn a g = write_num_ref_arg a g
write_typed arg_imm labels cur_instn a g = write_imm_arg a g
write_typed arg_imm_lbl labels cur_instn a g = write_label_arg labels cur_instn a g
write_typed arg_ref_lbl labels cur_instn a g = write_label_arg labels cur_instn a g

unfoldable pub write_args : Labels → (cur_instn k : ℕ) → List PrsArg → Gen → Option Gen
write_args labels cur_instn zero args g = some g
write_args labels cur_instn (suc k) [] g = none
write_args labels cur_instn (suc k) (a ∷ args) g =
    write_typed a.type labels cur_instn a g >>= λ g'. write_args labels cur_instn k args g'

-- `while (offset + size > n_blocks * BUF_BLOCK_SIZE) n_blocks++;`, on fuel
unfoldable pub grow_blocks : (fuel need n_blocks : ℕ) → Option ℕ
grow_blocks zero need n_blocks =
    if leb need (n_blocks * buf_block_size % 2 ^ 32) then some n_blocks else none
grow_blocks (suc fuel) need n_blocks =
    let rest = grow_blocks fuel need ((n_blocks + 1) % 2 ^ 32) in
    if leb need (n_blocks * buf_block_size % 2 ^ 32) then some n_blocks else rest

-- The buffer after the loop. Every block that is added holds bytes, so `need` rounds are enough.
unfoldable pub ensure_buffer : (need : ℕ) → Gen → Option Gen
ensure_buffer need g = do
  n ← grow_blocks need need g.n_blocks
  some
      (record g { n_blocks = n; buffer = record (g.buffer) { size = n * buf_block_size % 2 ^ 32 } })

-- `for (j = i - 1; j < i; j--)`: the instructions right before `i` that were left out get the
-- offset of `i`; `k` is the number of instructions before `i` that are left.
unfoldable pub fix_skipped : (k offset : ℕ) → List PrsInstn → List PrsInstn
fix_skipped zero offset instns = instns
fix_skipped (suc k) offset instns = elim (get_elem? instns k) [
  | none ↦ instns
  | some p ↦ elim (p.mem_offset == minus_one32) [
    | true ↦ fix_skipped k offset (set instns k (record p { mem_offset = offset }))
    | false ↦ instns
  ]
]

-- The opcode word, and the size byte where an argument is immediate.
unfoldable pub write_head : Layout → Gen → Option Gen
write_head l g = do
  g' ← put 2 l.op_ir g
  if not (l.op_ir % 8 == 0) then put 1 l.i_sz g' else some g'

-- The body of the loop for instruction `i`.
unfoldable pub emit_instn : Labels → (debug_mode : Bool) → (i : ℕ) → Gen → Option Gen
emit_instn labels debug_mode i g = do
  p ← get_elem? g.instns i
  if not (bit_and p.instn.flags f_debug_only_instn == 0) && not debug_mode then some g else (do
    l ← compute_layout p
    g' ← ensure_buffer ((g.offset + l.size) % 2 ^ 32) g
    let placed = set g'.instns i (record p { mem_offset = g'.offset })
    g'' ← write_head l (record g' { instns = fix_skipped i g'.offset placed })
    write_args labels i p.instn.arg_count p.args g'')

-- `for (i = 0; i < parse->n_instns; i++)`, with `k` rounds left
unfoldable pub emit_instns : Labels → (debug_mode : Bool) → (k i : ℕ) → Gen → Option Gen
emit_instns labels debug_mode zero i g = some g
emit_instns labels debug_mode (suc k) i g =
    emit_instn labels debug_mode i g >>= λ g'. emit_instns labels debug_mode k (i + 1) g'

-- The places that were noted get the offsets of their instructions.
unfoldable pub write_delayed : List DelayedRef → List PrsInstn → Block → Option Block
write_delayed [] instns b = some b
write_delayed (r ∷ refs) instns b = get_elem? instns r.instn >>= λ p.
    store 4 p.mem_offset b r.offset >>= λ b'. write_delayed refs instns b'

abbrev pub gen_start : (junk : ℕ → ℕ) → List PrsInstn → Gen
gen_start junk instns = record {
  buffer = record { size = 0; cell = junk };
  n_blocks = 0;
  offset = 0;
  instns = instns;
  delayed_refs = [];
}

-- The code and its size, with the instructions' offsets set; a parse with errors fails the assertion.
unfoldable pub parse_to_bytecode :
    (junk : ℕ → ℕ)
    → Labels
    → (debug_mode : Bool) → (errors : ℕ) → List PrsInstn
    → Option (Block × ℕ × List PrsInstn)
parse_to_bytecode junk labels debug_mode errors instns =
    if errors == 0
    then (do
      g ← emit_instns labels debug_mode (length instns) 0 (gen_start junk instns)
      code ← write_delayed g.delayed_refs g.instns g.buffer
      some (code, g.offset, g.instns))
    else none
