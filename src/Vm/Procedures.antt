-- ===== src/Vm/Procedures.antt =====
-- Procedures and their call stacks: make_vm, make_procedure, make_func_procedure, push_call_stack,
-- pop_call_stack, delete_current_procedure and make_vm_timer of src/vm.c, with the sizes of
-- src/config.h.in.
use bvgz_vm.Common.{
  ℕ, suc, ◌+◌, ◌-◌, ◌*◌, ◌%◌, ◌^◌, Bool, Option, none, some, List, [], ◌∷◌, ◌++◌, leb, ltb, length,
  if◌then◌else◌,
}
use bvgz_vm.Vm.{Vm, Proc, Fcall, M, minus_one32, e_bad_instn_pointer, with_exception}

abbrev pub func_stack_alloc_sz : ℕ
func_stack_alloc_sz = 64

-- `(uint32_t)(1.5 * FUNC_STACK_ALLOC_SZ)`
abbrev pub stack_free_threshold : ℕ
stack_free_threshold = 96

-- `sizeof(fcall_t)`
abbrev pub fcall_sz : ℕ
fcall_sz = 12

abbrev pub fresh_proc : ℕ → Proc
fresh_proc iptr = record { iptr = iptr; cstack = []; cstack_alloc = 0; cstack_bytes = 0 }

-- The new procedure goes to the tail of the list; false stands for the result NULL.
unfoldable pub make_procedure : ℕ → Vm → Bool × Vm
make_procedure iptr vm =
    if leb vm.code.size iptr
    then (Bool.false, with_exception e_bad_instn_pointer vm)
    else (Bool.true, record vm { procedures = vm.procedures ++ fresh_proc iptr ∷ [] })

-- `malloc` leaves the bytes `code` in the code block until they are read from the image.
unfoldable pub make_vm : (code : ℕ → ℕ) (codesz memsz entry : ℕ) → Vm
make_vm code codesz memsz entry =
    let blank : Vm = record {
      code = record { size = codesz; cell = code };
      memory = record { size = memsz; cell = λ _. 0 };
      memsz = memsz;
      exceptions = 0;
      procedures = [];
      iptr = 0;
      instns = 0;
      error_no = 0;
      assert_id = 0;
      timers = [];
      instns_since_last_cleanup = 0;
      fds = [];
      used_fds = 0;
      n_io_events = 0;
      child_proc = [];
      n_proc = 0;
      n_exit_callbacks = 0;
    } in
    let vm = (make_procedure entry blank).1 in record vm { iptr = minus_one32 }

-- The block grows by whole steps; the entry is written at index `cstack_sz`.
unfoldable pub push_call_stack : Proc → (retval args ret_address : ℕ) → Option Proc
push_call_stack proc retval args ret_address =
    let grown : Proc =
      if ltb proc.cstack_alloc ((length proc.cstack + 1) % 2 ^ 32)
      then record proc {
        cstack_alloc = (proc.cstack_alloc + func_stack_alloc_sz) % 2 ^ 32;
        cstack_bytes = fcall_sz * ((proc.cstack_alloc + func_stack_alloc_sz) % 2 ^ 32);
      }
      else proc in
    let entry : Fcall = record { retval = retval; args = args; ret_address = ret_address } in
    if leb (fcall_sz * (length grown.cstack + 1)) grown.cstack_bytes
    then some (record grown { cstack = entry ∷ grown.cstack })
    else none

-- `realloc(proc->cstack, proc->cstack_alloc)`: a number of entries where bytes are meant.
unfoldable pub shrink_call_stack : Proc → List Fcall → Proc
shrink_call_stack proc rest =
    if leb stack_free_threshold ((proc.cstack_alloc + 2 ^ 32 - length rest) % 2 ^ 32)
    then record proc {
      cstack = rest;
      cstack_alloc = (proc.cstack_alloc + 2 ^ 32 - func_stack_alloc_sz) % 2 ^ 32;
      cstack_bytes = (proc.cstack_alloc + 2 ^ 32 - func_stack_alloc_sz) % 2 ^ 32;
    }
    else record proc { cstack = rest }

-- The callers test that the stack is not empty. The top entry is read before the block may shrink.
unfoldable pub pop_call_stack : Proc → Option (ℕ × Proc)
pop_call_stack proc = elim (proc.cstack) [
  | [] ↦ none
  | top ∷ rest ↦
      if leb (fcall_sz * suc (length rest)) proc.cstack_bytes
      then some (top.ret_address, shrink_call_stack proc rest)
      else none
]

-- The call stack of the new procedure starts with the entry that ends it.
unfoldable pub make_func_procedure : (iptr argv retv : ℕ) → Vm → Option Vm
make_func_procedure iptr argv retv vm =
    if leb vm.code.size iptr
    then some (with_exception e_bad_instn_pointer vm)
    else elim (push_call_stack (fresh_proc iptr) retv argv minus_one32) [
      | none ↦ none
      | some proc ↦ some (record vm { procedures = vm.procedures ++ proc ∷ [] })
    ]

-- The head of the list is unlinked and freed.
unfoldable pub delete_current_procedure : M (Unit {0})
delete_current_procedure vm = elim (vm.procedures) [
  | [] ↦ none
  | current ∷ next ↦ some (tt, record vm { procedures = next })
]

unfoldable pub make_vm_timer : (tv_sec tv_nsec iptr : ℕ) → Vm → Vm
make_vm_timer tv_sec tv_nsec iptr vm = record vm {
  timers = vm.timers ++ record { tv_sec = tv_sec; tv_nsec = tv_nsec; iptr = iptr } ∷ [];
}

-- `vm->procedures->data`, and an assignment to the procedure that it points at
unfoldable pub this_proc : M Proc
this_proc vm = elim (vm.procedures) [ [] ↦ none | proc ∷ next ↦ some (proc, vm) ]

unfoldable pub set_this_proc : Proc → M (Unit {0})
set_this_proc proc vm = elim (vm.procedures) [
  | [] ↦ none
  | old ∷ next ↦ some (tt, record vm { procedures = proc ∷ next })
]
