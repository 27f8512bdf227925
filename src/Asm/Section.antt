-- ===== src/Asm/Section.antt =====
-- The memory that src/parser.c fills from data directives: `ensure_memory_alloc`,
-- `ensure_memory_at_offset`, `write_to_memory` and `set_memory_size`. Steps of the block are those of the
-- debug build, which src's CMakeLists.txt sets.
pub mod Growth
use bvgz_vm.Common.{
  ℕ, zero, suc, ◌+◌, ◌-◌, ◌*◌, ◌/◌, ◌%◌, ◌^◌, Bool, true, false, List, [], ◌∷◌, Option, none, some,
  leb, ltb, ◌==◌, length, if◌then◌else◌,
}
use bvgz_vm.Vm.{minus_one32}
use bvgz_vm.Memory.{Block, update}
use bvgz_vm.Codegen.{◌>>=◌}
use bvgz_vm.Asm.{Parse, report_warning}

abbrev pub mem_alloc_block_sz : ℕ
mem_alloc_block_sz = 10

-- `while (alloc > new_size) new_size += MEM_ALLOC_BLOCK_SZ;`, on fuel
unfoldable pub grow_size : (fuel alloc new_size : ℕ) → Option ℕ
grow_size zero alloc new_size = if leb alloc new_size then some new_size else none
grow_size (suc fuel) alloc new_size =
    let rest = grow_size fuel alloc ((new_size + mem_alloc_block_sz) % 2 ^ 32) in
    if leb alloc new_size then some new_size else rest

-- `realloc`, and `memset` of the bytes that are added
abbrev pub grown : Block → ℕ → Block
grown b new_size =
    if ltb b.size new_size
    then record { size = new_size; cell = λ q. if ltb q b.size then b.cell q else 0 }
    else b

unfoldable pub ensure_memory_alloc : (alloc : ℕ) → Parse → Option Parse
unfolding grow_size
ensure_memory_alloc alloc r =
    if ltb r.memsz alloc
    then (grow_size alloc alloc r.memory.size >>= λ new_size.
        some (record r { memory = grown r.memory new_size }))
    else some r

unfoldable pub ensure_memory_at_offset : (size offset : ℕ) → Parse → Option Parse
unfolding ensure_memory_alloc
ensure_memory_at_offset size offset r =
    if offset == minus_one32
    then some r
    else ensure_memory_alloc ((offset + (if size == 0 then 1 else size)) % 2 ^ 32) r

unfoldable pub write_bytes : List ℕ → (at : ℕ) → (ℕ → ℕ) → ℕ → ℕ
write_bytes [] at c = c
write_bytes (b ∷ bs) at c = write_bytes bs (at + 1) (update c at b)

-- `memcpy(result->memory + mem_offset, src, size)`
unfoldable pub copy_in : (src : List ℕ) → (at : ℕ) → Block → Option Block
unfolding write_bytes
copy_in src at b =
    if leb (at + length src) b.size
    then some (record b { cell = write_bytes src at b.cell })
    else none

unfoldable pub write_to_memory : (src : List ℕ) → (mem_offset : ℕ) → Parse → Option Parse
unfolding ensure_memory_alloc copy_in
write_to_memory src mem_offset r = do
  r' ← ensure_memory_alloc ((mem_offset + length src) % 2 ^ 32) r
  b ← copy_in src mem_offset r'.memory
  some (record r' { memory = b; memsz = (mem_offset + length src) % 2 ^ 32 })

unfoldable pub set_memory_size : (original_offset size : ℕ) → Parse → Option Parse
unfolding ensure_memory_alloc
set_memory_size original_offset size r =
    let total = (size + original_offset) % 2 ^ 32 in
    if size == minus_one32 then some r else do
      r' ←
          if ltb total r.memsz
          then some (report_warning r)
          else if ltb r.memsz total
          then ensure_memory_alloc total r
          else some r
      some (record r' { memsz = total })

-- `offset != (uint32_t)-1 ? offset : result->memsz`
abbrev pub write_offset_of : (offset : ℕ) → Parse → ℕ
write_offset_of offset r = if offset == minus_one32 then r.memsz else offset
