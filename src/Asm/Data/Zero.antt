-- ===== src/Asm/Data/Zero.antt =====
-- A data directive at offset 0 without a size, in src/parser.c.
use bvgz_vm.Common.{ℕ, ◌+◌, ◌%◌, ◌^◌, ◌-◌, ◌<◌, ◌≡◌, refl, true, List, Option, none, arith, ltb}
use bvgz_vm.Vm.{minus_one32}
use bvgz_vm.Asm.{Env, Parse}
use bvgz_vm.Asm.Section.{grow_size, ensure_memory_alloc, ensure_memory_at_offset}
use bvgz_vm.Asm.Section.Growth.{grow_size-never}
use bvgz_vm.Asm.Data.{add_str_to_memory, add_hex_to_memory}
use bvgz_vm.Asm.Sound.{IsSound}

lt→ltb : (a b : ℕ) → a < b → ltb a b ≡ true
lt→ltb a b h = ground arith

ensure_memory_alloc-none :
    (alloc : ℕ) (r : Parse)
    → r.memsz < alloc
    → grow_size alloc alloc r.memory.size ≡ none
    → ensure_memory_alloc alloc r ≡ none
unfolding ensure_memory_alloc
ensure_memory_alloc-none alloc r h e = rw (lt→ltb r.memsz alloc h, e) refl

no_room : (r : Parse) → IsSound r → ensure_memory_at_offset minus_one32 0 r ≡ none
unfolding ensure_memory_at_offset
no_room r s =
    ensure_memory_alloc-none (2 ^ 32 - 1) r (omega (arith, s))
      (grow_size-never (2 ^ 32 - 1) r.memory.size s.0.1 s.0.2)

stuck_str :
    (env : Env) (label : Option (List ℕ)) (datum : List ℕ) (r : Parse)
    → ensure_memory_at_offset minus_one32 0 r ≡ none
    → add_str_to_memory env label datum minus_one32 0 r ≡ none
unfolding add_str_to_memory
stuck_str env label datum r e = rw e refl

stuck_hex :
    (env : Env) (label : Option (List ℕ)) (datum : List ℕ) (r : Parse)
    → ensure_memory_at_offset minus_one32 0 r ≡ none
    → add_hex_to_memory env label datum minus_one32 0 r ≡ none
unfolding add_hex_to_memory
stuck_hex env label datum r e = rw e refl

-- A text or a number at offset 0 without a size asks for all but one byte of 4 GiB. The loop that looks
-- for this room ends after no number of rounds, and the directive gives no result.
pub data_at_zero_hangs :
    (env : Env) (label : Option (List ℕ)) (datum : List ℕ) (r : Parse) (fuel : ℕ)
    → IsSound r
    → (grow_size fuel ((0 + minus_one32) % 2 ^ 32) r.memory.size ≡ none)
      × (add_str_to_memory env label datum minus_one32 0 r ≡ none)
      × (add_hex_to_memory env label datum minus_one32 0 r ≡ none)
data_at_zero_hangs env label datum r fuel s = (
  grow_size-never fuel r.memory.size s.0.1 s.0.2,
  stuck_str env label datum r (no_room r s),
  stuck_hex env label datum r (no_room r s),
)
