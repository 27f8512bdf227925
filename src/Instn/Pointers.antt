-- ===== src/Instn/Pointers.antt =====
-- How a function reaches its arguments and its result: op_argv_1 and op_retv_1 of
-- src/instns/instn_impl_ctrl.c behind a call.
use bvgz_vm.Common.{ℕ, ◌+◌, ◌%◌, ◌^◌, ◌≤◌, ◌<◌, ◌≡◌, some, List, ◌∷◌, arith}
use bvgz_vm.Vm.{Vm, Proc, proceed, ◌>>=◌}
use bvgz_vm.Vm.Access.{written, set_lref-written}
use bvgz_vm.Vm.Procedures.{this_proc}
use bvgz_vm.Vm.CallStack.{IsSound, pushed, pushed_fits, pushed_cstack}
use bvgz_vm.Instn.{Instn, ref, arg_value, write_arg}
use bvgz_vm.Instn.Access.{deref_mem_ptr}
use bvgz_vm.Instn.Control.{op_call_3, op_argv_1, op_retv_1, top_entry}
use bvgz_vm.Instn.Calls.{at_iptr, call-pushed}

top_entry-pushed :
    (p : Proc)
    → IsSound p
    → (t retval args ret_address : ℕ)
    → top_entry (record (pushed p retval args ret_address) { iptr = t })
      ≡ some (some (record { retval = retval; args = args; ret_address = ret_address }))
unfolding top_entry
top_entry-pushed p sound t retval args ret_address =
    let fits = pushed_fits p sound retval args ret_address in
    let stack = pushed_cstack p retval args ret_address in ground (arith, stack, fits.0, fits.1)

-- The state in the function that was called.
abbrev pub called : Vm → Proc → List Proc → (f argv retv : ℕ) → Vm
called vm proc rest f argv retv =
    at_iptr (f % 2 ^ 32) (pushed proc (retv % 2 ^ 32) (argv % 2 ^ 32) proc.iptr) rest vm

module _ (call instn : Instn) (vm : Vm) (proc : Proc) (rest : List Proc) (f argv retv : ℕ)
    (current : vm.procedures ≡ proc ∷ rest) (sound : IsSound proc)
    (p : arg_value call 0 vm ≡ some (f, vm)) (q : arg_value call 1 vm ≡ some (argv, vm))
    (r : arg_value call 2 vm ≡ some (retv, vm)) where
  granted_8 :
      (t : ℕ)
      → t + 8 ≤ vm.memsz
      → vm.memsz < 2 ^ 32
      → deref_mem_ptr t 8 (called vm proc rest f argv retv)
        ≡ some (some t, (called vm proc rest f argv retv))
  unfolding deref_mem_ptr
  granted_8 t fits small = ground arith

  argv-top :
      (d : ℕ)
      → instn.arg0 ≡ ref d
      → d + 4 ≤ vm.memory.size
      → op_argv_1 instn (called vm proc rest f argv retv)
        ≡ some (proceed, written 4 d (argv % 2 ^ 32) (called vm proc rest f argv retv))
  unfolding op_argv_1 this_proc write_arg
  argv-top d dest fits = ground (
    arith,
    top_entry-pushed proc sound (f % 2 ^ 32) (retv % 2 ^ 32) (argv % 2 ^ 32) proc.iptr,
    set_lref-written 4 d (called vm proc rest f argv retv) fits (argv % 2 ^ 32),
  )

  retv-top :
      (v : ℕ)
      → arg_value instn 0 (called vm proc rest f argv retv)
        ≡ some (v, (called vm proc rest f argv retv))
      → retv % 2 ^ 32 + 8 ≤ vm.memsz
      → vm.memory.size ≡ vm.memsz
      → vm.memsz < 2 ^ 32
      → op_retv_1 instn (called vm proc rest f argv retv)
        ≡ some (proceed, written 8 (retv % 2 ^ 32) v (called vm proc rest f argv retv))
  unfolding op_retv_1 this_proc
  retv-top v value fits same small = ground (
    arith,
    top_entry-pushed proc sound (f % 2 ^ 32) (retv % 2 ^ 32) (argv % 2 ^ 32) proc.iptr,
    granted_8 (retv % 2 ^ 32) fits small,
    set_lref-written 8 (retv % 2 ^ 32) (called vm proc rest f argv retv) (omega (arith, same)) v,
  )

  -- The pointers that a call passes, cut to 32 bits, are the ones that the function works with: in
  -- the function, the one instruction stores the pointer to the arguments in the four bytes of the
  -- memory at its operand, and the other stores the value that it reads in the eight bytes at the
  -- pointer to the result, if they lie in a memory block that is as long as the machine counts. The
  -- call stack of the caller is sound, and the call can read its operands.
  pub call_passes_pointers :
      (d v : ℕ)
      → instn.arg0 ≡ ref d
      → d + 4 ≤ vm.memory.size
      → arg_value instn 0 (called vm proc rest f argv retv)
        ≡ some (v, (called vm proc rest f argv retv))
      → retv % 2 ^ 32 + 8 ≤ vm.memsz
      → vm.memory.size ≡ vm.memsz
      → vm.memsz < 2 ^ 32
      → ((op_call_3 call >>= λ _. op_argv_1 instn) vm
          ≡ some (proceed, written 4 d (argv % 2 ^ 32) (called vm proc rest f argv retv)))
        × ((op_call_3 call >>= λ _. op_retv_1 instn) vm
            ≡ some (proceed, written 8 (retv % 2 ^ 32) v (called vm proc rest f argv retv)))
  call_passes_pointers d v dest room value fits same small =
      let entered = call-pushed call vm proc rest current f argv retv sound p q r in
      (cc (entered, argv-top d dest room), cc (entered, retv-top v value fits same small))
