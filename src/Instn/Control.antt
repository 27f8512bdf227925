-- ===== src/Instn/Control.antt =====
-- src/instns/instn_impl_ctrl.c: jumps, calls and returns of the procedure at the head of the list.
use bvgz_vm.Common.{
  ℕ, suc, ◌*◌, length, ◌%◌, ◌^◌, Option, none, some, [], ◌∷◌, leb, ◌==◌, if◌then◌else◌, not,
}
use bvgz_vm.Vm.{
  Proc, Fcall, M, Status, proceed, halt, pure, ◌>>=◌, ◌>>◌, gets, asks, raise, set_lref,
  e_bad_instn_pointer, e_mem_fault, minus_one32,
}
use bvgz_vm.Vm.Procedures.{
  this_proc, set_this_proc, push_call_stack, pop_call_stack, delete_current_procedure, fcall_sz,
}
use bvgz_vm.Instn.{Instn, arg_value, write_arg}
use bvgz_vm.Instn.Logic.{nonzero}
use bvgz_vm.Instn.Access.{deref_mem_ptr}

-- The callers pass a `uint64_t`, which the parameter type cuts to 32 bits.
unfoldable pub do_jump : ℕ → M Status
do_jump iptr = do
  codesz ← gets (λ vm. vm.code.size)
  if leb codesz iptr
      then (do raise e_bad_instn_pointer; pure halt)
      else do proc ← this_proc; set_this_proc (record proc { iptr = iptr }); pure proceed

unfoldable pub op_jmp_1 : Instn → M Status
op_jmp_1 instn = do target ← arg_value instn 0; do_jump (target % 2 ^ 32)

unfoldable pub op_jtrue_2 : Instn → M Status
op_jtrue_2 instn = do
  c ← arg_value instn 1
  if nonzero c then (do target ← arg_value instn 0; do_jump (target % 2 ^ 32)) else pure proceed

unfoldable pub op_jfalse_2 : Instn → M Status
op_jfalse_2 instn = do
  c ← arg_value instn 1
  if not (nonzero c)
      then (do target ← arg_value instn 0; do_jump (target % 2 ^ 32))
      else pure proceed

unfoldable pub op_call_3 : Instn → M Status
op_call_3 instn = do
  iptr ← arg_value instn 0
  argv ← arg_value instn 1
  retv ← arg_value instn 2
  proc ← this_proc
  proc' ← asks (λ _. push_call_stack proc (retv % 2 ^ 32) (argv % 2 ^ 32) proc.iptr)
  set_this_proc (record proc' { iptr = iptr % 2 ^ 32 })
  pure proceed

unfoldable pub op_ret_0 : Instn → M Status
op_ret_0 instn = do
  proc ← this_proc
  elim (proc.cstack) [
    | [] ↦ do delete_current_procedure; pure proceed
    | _ ∷ _ ↦ do
      (ret_address, proc') ← asks (λ _. pop_call_stack proc)
      if ret_address == minus_one32
          then (do delete_current_procedure; pure proceed)
          else do set_this_proc (record proc' { iptr = ret_address }); pure proceed
  ]

-- The entry at the top of the call stack is read in its block.
unfoldable pub top_entry : Proc → Option (Option Fcall)
top_entry proc = elim (proc.cstack) [
  | [] ↦ some none
  | top ∷ rest ↦
      if leb (fcall_sz * suc (length rest)) proc.cstack_bytes then some (some top) else none
]

unfoldable pub op_argv_1 : Instn → M Status
op_argv_1 instn = do
  proc ← this_proc
  top ← asks (λ _. top_entry proc)
  write_arg 4 instn.arg0 (elim top [ none ↦ 0 | some entry ↦ entry.args ])
  pure proceed

unfoldable pub op_retv_1 : Instn → M Status
op_retv_1 instn = do
  proc ← this_proc
  top ← asks (λ _. top_entry proc)
  elim top [
    | none ↦ do raise e_mem_fault; pure halt
    | some entry ↦ do
      ret ← deref_mem_ptr entry.retval 8
      elim ret [
        | none ↦ pure halt
        | some p ↦ do v ← arg_value instn 0; set_lref 8 p v; pure proceed
      ]
  ]
