-- ===== src/Syscall/Laws.antt =====
-- What the system calls of src/syscalls/syscall_misc.c and src/syscalls/syscall_mem.c promise, and
-- what the bound test `deref_mem_ptr` of src/bytecode.c does.
use mathlib.Core.List.{append_assoc, append-nil}
use bvgz_vm.Common.{
  ℕ, zero, suc, ◌+◌, ◌%◌, ◌^◌, ◌≤◌, ◌<◌, ◌≡◌, refl, ap, ◌∙◌, some, List, [], ◌∷◌, ◌++◌, ◌⊎◌, arith,
  length,
}
use bvgz_vm.Memory.{read_le}
use bvgz_vm.Vm.{Vm, Proc, M, ◌>>=◌, with_error, lref}
use bvgz_vm.Vm.Access.{written, set_lref-written, lref-read_le, lref-written, written_elsewhere}
use bvgz_vm.Instn.Access.{deref, deref_mem_ptr}
use bvgz_vm.Syscall.{Host}
use bvgz_vm.Syscall.Misc.{sys_getlasterr, sys_setlasterr, sys_yield, rotated, sign_extend}
use bvgz_vm.Syscall.Mem.{sys_mexpand, resized, with_pointers}

-- A range that starts behind the memory and goes around the end of the 32-bit addresses is
-- granted, if its part from address 0 on fits the memory.
pub deref_mem_ptr_wraps :
    (r size : ℕ) (vm : Vm)
    → vm.memsz < r
    → 2 ^ 32 ≤ r + size
    → r + size ≤ 2 ^ 32 + vm.memsz
    → vm.memsz < 2 ^ 32
    → deref_mem_ptr r size vm ≡ some (some r, vm)
unfolding deref_mem_ptr
deref_mem_ptr_wraps r size vm out over fits small = ground arith

module _ (vm : Vm) (argv retv ignored ignored' : ℕ) where
  -- Setting the error number and then getting it, through pointers into a memory block that is as
  -- long as the machine counts: the number that is got is the one that was set, cut to an `int`
  -- and extended by its sign to a word, and the error number is cleared.
  pub getlasterr-setlasterr :
      argv + 8 ≤ vm.memory.size
      → retv + 8 ≤ vm.memory.size
      → vm.memory.size ≡ vm.memsz
      → vm.memsz < 2 ^ 32
      → (sys_setlasterr argv ignored >>= λ _. sys_getlasterr ignored' retv) vm
        ≡ some (
          tt,
          with_error 0 (written 8 retv (sign_extend (read_le 8 vm.memory.cell argv % 2 ^ 32)) vm),
        )
  unfolding sys_setlasterr sys_getlasterr deref
  getlasterr-setlasterr a r same small = ground (
    arith,
    lref-read_le 8 argv vm a,
    set_lref-written 8 retv (with_error (read_le 8 vm.memory.cell argv % 2 ^ 32) vm) r
        (sign_extend (read_le 8 vm.memory.cell argv % 2 ^ 32)),
  )

rotated_cons : (p : Proc) (rest : List Proc) → rotated (p ∷ rest) ≡ some (rest ++ p ∷ [])
rotated_cons p [] = refl
rotated_cons p (q ∷ rest) = refl

-- The machine after `k` yields.
abbrev pub yields : (k argv retv : ℕ) → M (Unit {0})
yields zero argv retv vm = some (tt, vm)
yields (suc k) argv retv vm = (sys_yield argv retv >>= λ _. yields k argv retv) vm

yields-append :
    (argv retv : ℕ) (vm : Vm) (front back : List Proc)
    → yields (length front) argv retv (record vm { procedures = front ++ back })
      ≡ some (tt, record vm { procedures = back ++ front })
unfolding sys_yield
yields-append argv retv vm [] back = rw (append-nil back)
yields-append argv retv vm (p ∷ front) back = rw (
  rotated_cons p (front ++ back),
  append_assoc front back (p ∷ []),
  yields-append argv retv vm front (back ++ p ∷ []),
  append_assoc back (p ∷ []) front,
)

-- Yielding is fair: `k` yields put exactly the first `k` procedures, in their order, behind the
-- others, and change nothing else of the machine.
pub yield_fair :
    (argv retv : ℕ) (vm : Vm) (front back : List Proc)
    → vm.procedures ≡ front ++ back
    → yields (length front) argv retv vm ≡ some (tt, record vm { procedures = back ++ front })
yield_fair argv retv vm front back e =
    ap (λ ps. yields (length front) argv retv (record vm { procedures = ps })) e
    ∙ yields-append argv retv vm front back

module _ (host : Host) (vm : Vm) (argv retv : ℕ) (a : argv + 8 ≤ vm.memory.size)
    (r : retv + 8 ≤ vm.memory.size) (same : vm.memory.size ≡ vm.memsz)
    (small : vm.memsz < 2 ^ 32) where
  granted_8 : (p : ℕ) → p + 8 ≤ vm.memory.size → deref_mem_ptr p 8 vm ≡ some (some p, vm)
  unfolding deref_mem_ptr
  granted_8 p h = ground arith

  -- Growing the memory by the size that the program asks for, through pointers into a memory
  -- block that is as long as the machine counts: where the allocator has the block and the sum is
  -- below 2 ^ 32, the memory is longer by that size, it holds what it held, but for the result 0,
  -- and nothing else of the machine has changed.
  pub mexpand_grows :
      (fill : ℕ → ℕ)
      → vm.memsz + read_le 8 vm.memory.cell argv < 2 ^ 32
      → host.realloc (vm.memsz + read_le 8 vm.memory.cell argv) ≡ some fill
      → (after : Vm) × (sys_mexpand host argv retv vm ≡ some (tt, after))
        × (after.memsz ≡ vm.memsz + read_le 8 vm.memory.cell argv)
        × (after.memory.size ≡ after.memsz)
        × ((q : ℕ)
            → q < vm.memsz
            → (q < retv) ⊎ (retv + 8 ≤ q)
            → after.memory.cell q ≡ vm.memory.cell q)
        × (lref 8 retv after ≡ some (0, after))
        × (after ≡ record vm { memory = after.memory; memsz = after.memsz })
  unfolding sys_mexpand with_pointers
  mexpand_grows fill fits granted =
      let sz : ℕ = read_le 8 vm.memory.cell argv in
      let grown : Vm = record vm {
        memory = resized vm.memory (vm.memsz + sz) fill;
        memsz = vm.memsz + sz;
      } in
      let full : (vm.memsz + sz) % 2 ^ 64 ≡ vm.memsz + sz = omega arith in
      let room : retv + 8 ≤ grown.memory.size = omega arith in
      (
        written 8 retv 0 grown,
        ground (
          arith,
          lref-read_le 8 argv vm a,
          granted,
          full,
          granted_8 argv a,
          granted_8 retv r,
          set_lref-written 8 retv grown room 0,
        ),
        refl,
        refl,
        λ q h out. written_elsewhere 8 retv 0 grown q out ∙ ground arith,
        lref-written 8 retv 0 grown room,
        refl,
      )
