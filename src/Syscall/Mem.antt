-- ===== src/Syscall/Mem.antt =====
-- src/syscalls/syscall_mem.c: growing, shrinking and measuring the memory.
use bvgz_vm.Common.{ℕ, ◌+◌, ◌-◌, ◌%◌, ◌^◌, Option, none, some, ltb, ◌==◌, if◌then◌else◌}
use bvgz_vm.Memory.{Block}
use bvgz_vm.Vm.{Vm, M, ◌>>=◌, ◌>>◌, gets, asks, modify, set_error, lref, set_lref}
use bvgz_vm.Instn.Access.{deref_mem_ptr}
use bvgz_vm.Syscall.{Host, store_if, enomem, efault, einval}

-- The block of `size` bytes keeps the bytes of the old one that fit.
abbrev pub resized : Block → (size : ℕ) → (ℕ → ℕ) → Block
resized b size fill = record { size = size; cell = λ q. if ltb q b.size then b.cell q else fill q }

-- `realloc(vm->memory, size)`: `some none` is NULL. A size of zero frees the block, and the writes
-- of the callers that follow are undefined behaviour.
abbrev pub realloc_memory : Host → (size : ℕ) → Vm → Option (Option Block)
realloc_memory host size vm = if size == 0 then none else elim (host.realloc size) [
  | none ↦ some none
  | some fill ↦ some (some (resized vm.memory size fill))
]

-- The two pointers that a call with one argument and one result needs, with the error path that
-- they share.
unfoldable pub with_pointers : (argv retv : ℕ) → (ℕ → ℕ → M (Unit {0})) → M (Unit {0})
with_pointers argv retv body = do
  args ← deref_mem_ptr argv 8
  ret ← deref_mem_ptr retv 8
  elim args [
    | none ↦ do set_error efault; store_if ret 1
    | some a ↦ elim ret [ none ↦ set_error efault | some r ↦ body a r ]
  ]

-- `realloc(vm->memory, vm->memsz + sz)` takes a `size_t`; `vm->memsz += sz` is cut to 32 bits.
unfoldable pub sys_mexpand : Host → (argv retv : ℕ) → M (Unit {0})
sys_mexpand host argv retv = with_pointers argv retv λ a r. do
  sz ← lref 8 a
  memsz ← gets (λ vm. vm.memsz)
  mem ← asks (realloc_memory host ((memsz + sz) % 2 ^ 64))
  elim mem [
    | none ↦ do set_error enomem; set_lref 8 r 1
    | some block ↦ do
      modify (λ vm. record vm { memory = block; memsz = (memsz + sz) % 2 ^ 32 })
      set_lref 8 retv 0
  ]

unfoldable pub sys_mretract : Host → (argv retv : ℕ) → M (Unit {0})
sys_mretract host argv retv = with_pointers argv retv λ a r. do
  sz ← lref 8 a
  memsz ← gets (λ vm. vm.memsz)
  if ltb memsz sz then (do set_error einval; set_lref 8 r 1) else (do
    mem ← asks (realloc_memory host (memsz - sz))
    elim mem [
      | none ↦ do set_error enomem; set_lref 8 r 1
      | some block ↦ do
        modify (λ vm. record vm { memory = block; memsz = memsz - sz })
        set_lref 8 retv 0
    ])

unfoldable pub sys_msize : (argv retv : ℕ) → M (Unit {0})
sys_msize argv retv = do
  ret ← deref_mem_ptr retv 8
  memsz ← gets (λ vm. vm.memsz)
  elim ret [ none ↦ set_error efault | some r ↦ set_lref 8 r memsz ]
