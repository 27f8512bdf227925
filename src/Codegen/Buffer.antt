-- ===== src/Codegen/Buffer.antt =====
-- Bytes appended to the buffer of src/bytecode_gen.c.

use bvgz_vm.Common.{
  ℕ, zero, suc, ◌+◌, ◌/◌, ◌%◌, ◌^◌, ◌≤◌, ◌<◌, ◌≡◌, refl, ◌∙◌, some, List, [], ◌∷◌, ◌++◌, length,
  length-append, arith, sym,
}
use bvgz_vm.Memory.{store, update, write_le}
use bvgz_vm.Memory.Access.{write_le-below}
use bvgz_vm.Format.{le_bytes, BytesAt}
use bvgz_vm.Format.Decoding.{length-le_bytes}
use bvgz_vm.Codegen.{Gen, put}

pub BytesAt-write_le : (n v : ℕ) (c : ℕ → ℕ) (a : ℕ) → BytesAt (write_le n v c a) a (le_bytes n v)
unfolding write_le le_bytes
BytesAt-write_le zero v c a = tt
BytesAt-write_le (suc n) v c a = (
  write_le-below n (v / 256) (update c a (v % 256)) (a + 1) a (omega arith) ∙ ground arith,
  BytesAt-write_le n (v / 256) (update c a (v % 256)) (a + 1),
)

pub BytesAt_congr :
    (c d : ℕ → ℕ) (at : ℕ) (bs : List ℕ)
    → ((q : ℕ) → q < at + length bs → d q ≡ c q)
    → BytesAt c at bs
    → BytesAt d at bs
BytesAt_congr c d at [] same h = tt
BytesAt_congr c d at (b ∷ bs) same h =
    (same at (omega arith) ∙ h.0, BytesAt_congr c d (at + 1) bs (λ q p. same q (omega arith)) h.1)

pub append-BytesAt :
    (c : ℕ → ℕ) (at end : ℕ) (xs ys : List ℕ)
    → at + length xs ≡ end
    → BytesAt c at xs
    → BytesAt c end ys
    → BytesAt c at (xs ++ ys)
append-BytesAt c at end [] ys e h k = let e' : at ≡ end = omega arith in rw e' k
append-BytesAt c at end (x ∷ xs) ys e h k =
    (h.0, append-BytesAt c (at + 1) end xs ys (omega arith) h.1 k)

-- The bytes were appended at the offset; what stood before it, and the rest of the state, is kept.
pub record Emitted (bs : List ℕ) (g g' : Gen) : Type 0 where
  pub offset : g'.offset ≡ g.offset + length bs
  pub bytes : BytesAt g'.buffer.cell g.offset bs
  pub below : (q : ℕ) → q < g.offset → g'.buffer.cell q ≡ g.buffer.cell q
  pub size : g'.buffer.size ≡ g.buffer.size
  pub n_blocks : g'.n_blocks ≡ g.n_blocks
  pub instns : g'.instns ≡ g.instns
  pub delayed : g'.delayed_refs ≡ g.delayed_refs

pub Emitted-nil : (g : Gen) → Emitted [] g g
Emitted-nil g = record {
  offset = omega arith;
  bytes = tt;
  below = λ q h. refl;
  size = refl;
  n_blocks = refl;
  instns = refl;
  delayed = refl;
}

pub Emitted-append :
    (xs ys : List ℕ) {g g' g'' : Gen}
    → Emitted xs g g'
    → Emitted ys g' g''
    → Emitted (xs ++ ys) g g''
Emitted-append xs ys {g} {g'} {g''} h k =
    let total = length-append xs ys in
    record {
      offset = omega (arith, h.offset, k.offset);
      bytes =
          append-BytesAt g''.buffer.cell g.offset g'.offset xs ys (sym h.offset)
            (BytesAt_congr g'.buffer.cell g''.buffer.cell g.offset xs
              (λ q p. k.below q (omega (arith, h.offset))) h.bytes)
            k.bytes;
      below = λ q p. k.below q (omega (arith, h.offset)) ∙ h.below q p;
      size = k.size ∙ h.size;
      n_blocks = k.n_blocks ∙ h.n_blocks;
      instns = k.instns ∙ h.instns;
      delayed = k.delayed ∙ h.delayed;
    }

-- There is room for the bytes in the buffer.
abbrev pub Room : ℕ → Gen → Type 0
Room n g = (g.offset + n ≤ g.buffer.size) × (g.buffer.size < 2 ^ 32)

pub put-Emitted :
    (n v : ℕ) (g : Gen)
    → Room n g
    → (g' : Gen) × (put n v g ≡ some g') × Emitted (le_bytes n v) g g'
unfolding store
put-Emitted n v g room = (
  record g {
    buffer = record (g.buffer) { cell = write_le n v g.buffer.cell g.offset };
    offset = (g.offset + n) % 2 ^ 32;
  },
  ground (arith, room.0),
  record {
    offset = omega (arith, length-le_bytes n v);
    bytes = BytesAt-write_le n v g.buffer.cell g.offset;
    below = λ q h. write_le-below n v g.buffer.cell g.offset q h;
    size = refl;
    n_blocks = refl;
    instns = refl;
    delayed = refl;
  },
)
