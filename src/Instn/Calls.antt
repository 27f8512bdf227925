-- ===== src/Instn/Calls.antt =====
-- The control flow of src/instns/instn_impl_ctrl.c: jumps stay inside the code, and a call is undone
-- by the return.
use bvgz_vm.Common.{
  ℕ, suc, ◌*◌, ◌%◌, ◌^◌, ◌≤◌, ◌≡◌, ◌≢◌, refl, some, List, ◌∷◌, arith, ltb, length, if◌then◌else◌,
}
use bvgz_vm.Vm.{
  Vm, Proc, Fcall, proceed, halt, ◌>>=◌, with_exception, e_bad_instn_pointer, minus_one32,
}
use bvgz_vm.Vm.Procedures.{this_proc, set_this_proc, shrink_call_stack, fcall_sz}
use bvgz_vm.Vm.CallStack.{
  IsSound, pushed, push-pushed, pushed_fits, pushed_cstack, pop-top, shrink_cstack,
}
use bvgz_vm.Instn.{Instn, arg_value}
use bvgz_vm.Instn.Control.{do_jump, op_jmp_1, op_call_3, op_ret_0}

-- The state with another instruction pointer in its current procedure.
abbrev pub at_iptr : ℕ → Proc → List Proc → Vm → Vm
at_iptr t proc rest vm = record vm { procedures = record proc { iptr = t } ∷ rest }

module _ (instn : Instn) (vm : Vm) (proc : Proc) (rest : List Proc)
    (current : vm.procedures ≡ proc ∷ rest) where
  -- A jump of the current procedure goes to the target that it reads, cut to 32 bits, if that is
  -- an address of the code. Otherwise the machine stops with an exception and the procedure stays
  -- where it is.
  pub jmp_bounds :
      (t : ℕ)
      → arg_value instn 0 vm ≡ some (t, vm)
      → op_jmp_1 instn vm ≡ (
          if ltb (t % 2 ^ 32) vm.code.size
          then some (proceed, at_iptr (t % 2 ^ 32) proc rest vm)
          else some (halt, with_exception e_bad_instn_pointer vm))
  unfolding op_jmp_1 do_jump this_proc set_this_proc
  jmp_bounds t p = ground arith

  -- A call stores the return address and the two pointers, and goes to the function.
  pub call-pushed :
      (f argv retv : ℕ)
      → IsSound proc
      → arg_value instn 0 vm ≡ some (f, vm)
      → arg_value instn 1 vm ≡ some (argv, vm)
      → arg_value instn 2 vm ≡ some (retv, vm)
      → op_call_3 instn vm
        ≡ some (
          proceed,
          at_iptr (f % 2 ^ 32) (pushed proc (retv % 2 ^ 32) (argv % 2 ^ 32) proc.iptr) rest vm,
        )
  unfolding op_call_3 this_proc set_this_proc
  call-pushed f argv retv sound p q r =
      ground (arith, push-pushed proc sound (retv % 2 ^ 32) (argv % 2 ^ 32) proc.iptr)

-- A return through a sound, non-empty stack.
ret-top :
    (instn : Instn) (vm : Vm) (proc : Proc) (rest : List Proc) (top : Fcall) (below : List Fcall)
    → vm.procedures ≡ proc ∷ rest
    → proc.cstack ≡ top ∷ below
    → fcall_sz * suc (length below) ≤ proc.cstack_bytes
    → top.ret_address ≢ minus_one32
    → op_ret_0 instn vm
      ≡ some (proceed, at_iptr top.ret_address (shrink_call_stack proc below) rest vm)
unfolding op_ret_0 this_proc set_this_proc
ret-top instn vm proc rest top below current e fits ne =
    ground (arith, pop-top proc top below e fits)

-- The procedure that a return leaves behind.
abbrev pub Returned : Proc → ℕ → Proc → Type 0
Returned before t after = (after.iptr ≡ t) × (after.cstack ≡ before.cstack)

-- A return directly behind a call whose operands can be read, in a procedure with a sound call
-- stack that does not stand at the address that marks the end, continues at the instruction
-- behind the call, with the call stack as it was. Nothing but the procedure's record of its stack
-- block changes, whatever the function's address and its pointers.
pub ret-call :
    (call ret : Instn) (vm : Vm) (proc : Proc) (rest : List Proc) (f argv retv : ℕ)
    → vm.procedures ≡ proc ∷ rest
    → IsSound proc
    → proc.iptr ≢ minus_one32
    → arg_value call 0 vm ≡ some (f, vm)
    → arg_value call 1 vm ≡ some (argv, vm)
    → arg_value call 2 vm ≡ some (retv, vm)
    → (proc' : Proc) × ((op_call_3 call >>= λ _. op_ret_0 ret) vm
        ≡ some (proceed, record vm { procedures = proc' ∷ rest }))
      × Returned proc proc.iptr proc'
ret-call call ret vm proc rest f argv retv current sound ne p q r =
    let entry : Fcall = record {
      retval = retv % 2 ^ 32;
      args = argv % 2 ^ 32;
      ret_address = proc.iptr;
    } in
    let called : Proc = record (pushed proc entry.retval entry.args proc.iptr) {
      iptr = f % 2 ^ 32;
    } in
    let fits = pushed_fits proc sound entry.retval entry.args proc.iptr in
    let stack = pushed_cstack proc entry.retval entry.args proc.iptr in
    (
      record (shrink_call_stack called proc.cstack) { iptr = proc.iptr },
      cc (
        call-pushed call vm proc rest current f argv retv sound p q r,
        ret-top ret (at_iptr (f % 2 ^ 32) called rest vm) called rest entry proc.cstack refl stack
            (ground arith) ne,
      ),
      (refl, shrink_cstack called proc.cstack),
    )
