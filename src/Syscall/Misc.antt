-- ===== src/Syscall/Misc.antt =====
-- src/syscalls/syscall_misc.c.
use bvgz_vm.Common.{
  ℕ, ◌+◌, ◌-◌, ◌*◌, ◌/◌, ◌%◌, ◌^◌, Option, none, some, List, [], ◌∷◌, ◌++◌, ltb, if◌then◌else◌,
}
use bvgz_vm.Memory.{copy}
use bvgz_vm.Vm.{Proc, M, ◌>>=◌, ◌>>◌, gets, modify, set_error, lref, set_lref}
use bvgz_vm.Vm.Procedures.{make_vm_timer}
use bvgz_vm.Instn.Access.{deref, deref_mem_ptr}
use bvgz_vm.Syscall.{Host, time, clock_error, store_if, efault, einval}

-- An `int` converted to `uint64_t`.
abbrev pub sign_extend : ℕ → ℕ
sign_extend e = if ltb e (2 ^ 31) then e else e + (2 ^ 64 - 2 ^ 32)

abbrev pub deref_m : (ref size : ℕ) → M (Option ℕ)
deref_m r size = gets (deref r size)

unfoldable pub sys_getlasterr : (argv retv : ℕ) → M (Unit {0})
sys_getlasterr argv retv = do
  ret ← deref_m retv 8
  elim ret [
    | none ↦ set_error efault
    | some r ↦ do e ← gets (λ vm. vm.error_no); set_lref 8 r (sign_extend e); set_error 0
  ]

unfoldable pub sys_setlasterr : (argv retv : ℕ) → M (Unit {0})
sys_setlasterr argv retv = do
  args ← deref_m argv 8
  elim args [ none ↦ set_error efault | some a ↦ do e ← lref 8 a; set_error (e % 2 ^ 32) ]

-- `*ret = 1` where the clock or an argument is refused
abbrev pub fail : (ret err : ℕ) → M (Unit {0})
fail ret err = do set_error err; set_lref 8 ret 1

unfoldable pub sys_time : Host → (argv retv : ℕ) → M (Unit {0})
sys_time host argv retv = do
  args ← deref_m argv 16
  ret ← deref_m retv 8
  elim args [
    | none ↦ do set_error efault; store_if ret 1
    | some a ↦ elim ret [
      | none ↦ set_error efault
      | some r ↦ elim (host.call_clock) [
        | clock_error e ↦ fail r e
        | time sec nsec ↦ do set_lref 8 a sec; set_lref 8 (a + 8) nsec; set_lref 8 r 0
      ]
    ]
  ]

-- The nanoseconds of the sum are not carried into the seconds.
unfoldable pub sys_timeout : Host → (argv retv : ℕ) → M (Unit {0})
sys_timeout host argv retv = do
  args ← deref_m argv 12
  ret ← deref_m retv 8
  elim args [
    | none ↦ do set_error efault; store_if ret 1
    | some a ↦ elim ret [
      | none ↦ set_error efault
      | some r ↦ do
        f_ptr ← lref 4 a
        millis ← lref 8 (a + 4)
        codesz ← gets (λ vm. vm.code.size)
        if ltb codesz f_ptr then fail r einval else elim (host.call_clock) [
          | clock_error e ↦ fail r e
          | time sec nsec ↦ do
            modify (
                make_vm_timer ((sec + millis / 1000) % 2 ^ 64)
                  ((nsec + 1000000 * (millis % 1000)) % 2 ^ 64) f_ptr)
            set_lref 8 r 0
        ]
    ]
  ]

-- The head of the list of procedures becomes its tail.
abbrev pub rotated : List Proc → Option (List Proc)
rotated [] = none
rotated (self ∷ []) = some (self ∷ [])
rotated (self ∷ next ∷ rest) = some ((next ∷ rest) ++ self ∷ [])

unfoldable pub sys_yield : (argv retv : ℕ) → M (Unit {0})
sys_yield argv retv vm = elim (rotated vm.procedures) [
  | none ↦ none
  | some procs ↦ some (tt, record vm { procedures = procs })
]

unfoldable pub sys_codesz : (argv retv : ℕ) → M (Unit {0})
sys_codesz argv retv = do
  ret ← deref_mem_ptr retv 8
  codesz ← gets (λ vm. vm.code.size)
  elim ret [ none ↦ set_error efault | some r ↦ set_lref 8 r codesz ]

-- `memcpy(ptr, vm->code + begin, size)`
unfoldable pub copy_code : (ptr begin size : ℕ) → M (Unit {0})
copy_code ptr begin size vm = elim (copy size vm.code begin vm.memory ptr) [
  | none ↦ none
  | some m ↦ some (tt, record vm { memory = m })
]

-- `begin + size` is a sum of `uint64_t`, and `deref_mem_ptr` takes the size as `uint32_t`.
unfoldable pub sys_codecp : (argv retv : ℕ) → M (Unit {0})
sys_codecp argv retv = do
  args ← deref_mem_ptr argv 20
  ret ← deref_mem_ptr retv 8
  elim args [
    | none ↦ do set_error efault; store_if ret 1
    | some a ↦ elim ret [
      | none ↦ set_error efault
      | some r ↦ do
        begin ← lref 8 a
        size ← lref 8 (a + 8)
        codesz ← gets (λ vm. vm.code.size)
        if ltb codesz ((begin + size) % 2 ^ 64) then set_error einval else (do
          ptr_ref ← lref 4 (a + 16)
          ptr ← deref_mem_ptr ptr_ref (size % 2 ^ 32)
          elim ptr [
            | none ↦ do set_error efault; set_lref 8 r 1
            | some p ↦ do copy_code p begin size; set_lref 8 r 0
          ])
    ]
  ]
