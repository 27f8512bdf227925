-- ===== src/Vm.antt =====
-- The state of the virtual machine: the structures of src/vm.h, src/timers.h,
-- src/syscalls/syscall_io.h and src/syscalls/syscall_proc.h, and the monad in which the code that
-- mutates `vm_t* vm` is written. A run that reaches undefined behaviour is `none`.
pub mod Access
pub mod CallStack
pub mod Procedures
use Prim.Native.Nat.{bit_or}
use bvgz_vm.Common.{ℕ, ◌+◌, ◌%◌, ◌^◌, Bool, Option, none, some, List, [], ◌∷◌, if◌then◌else◌}
use bvgz_vm.Memory.{Block, load, store}

-- `VM_E_*`, the bits of `vm->exceptions`
abbrev pub e_arithmetic : ℕ
e_arithmetic = 0x1

abbrev pub e_mem_fault : ℕ
e_mem_fault = 0x2

abbrev pub e_bad_instn_pointer : ℕ
e_bad_instn_pointer = 0x10

abbrev pub e_bad_instn_code : ℕ
e_bad_instn_code = 0x20

abbrev pub e_bad_syscall_no : ℕ
e_bad_syscall_no = 0x40

abbrev pub e_assert_failed : ℕ
e_assert_failed = 0x80

-- `(uint32_t)-1`
abbrev pub minus_one32 : ℕ
minus_one32 = 0xffff_ffff

pub record Fcall : Type 0 where
  pub retval : ℕ
  pub args : ℕ
  pub ret_address : ℕ

-- `cstack` holds the `cstack_sz` live entries, last pushed first. `cstack_bytes` is the size of the
-- heap block behind `proc->cstack`, which `realloc` sets.
pub record Proc : Type 0 where
  pub iptr : ℕ
  pub cstack : List Fcall
  pub cstack_alloc : ℕ
  pub cstack_bytes : ℕ

-- `vm_timer_t`, with the two fields of `struct timespec`
pub record Timer : Type 0 where
  pub tv_sec : ℕ
  pub tv_nsec : ℕ
  pub iptr : ℕ

-- `vm_callback_t`
pub record Callback : Type 0 where
  pub callback : ℕ
  pub args : ℕ

-- `vm_child_t`
pub record Child : Type 0 where
  pub pid : ℕ
  pub used : Bool
  pub exit_cb : List Callback

-- What `evt->activate` points at.
pub data Activate : Type 0 where
  read_io write_io connect_io accept_io : Activate

-- What `evt->data` points at: `io_mem_t`, or the callback of a network operation.
pub data EventData : Type 0 where
  no_data : EventData
  io_mem : (ptr len : ℕ) → Callback → EventData
  net_callback : Callback → EventData

-- `vm_io_evt_t`
pub record IoEvent : Type 0 where
  pub flags : ℕ
  pub activate : Activate
  pub payload : EventData

-- `vm_fd_t`. `n_events` is the number of `events`; `freed` is whether `events` points at a block that was
-- freed, and `on_close` whether it points at the handler of a network descriptor.
pub record Fd : Type 0 where
  pub fd : ℕ
  pub used : Bool
  pub events : List IoEvent
  pub alloc_events : ℕ
  pub freed : Bool
  pub on_close : Bool

-- `vm_t`. `code.size` is `codesz`; `memsz` is what the machine counts of the block `memory`;
-- `procedures` is the doubly linked list from its head; `n_timers` is the length of `timers`,
-- and `n_fds` that of `fds`. The last fields are `vm->io` and `vm->proc`, flattened; of the descriptors the parts are left out that
-- the modelled code never reaches. The field `flags` is never read or set.
pub record Vm : Type 0 where
  pub code : Block
  pub memory : Block
  pub memsz : ℕ
  pub exceptions : ℕ
  pub procedures : List Proc
  pub iptr : ℕ
  pub instns : ℕ
  pub error_no : ℕ
  pub assert_id : ℕ
  pub timers : List Timer
  pub instns_since_last_cleanup : ℕ
  pub fds : List Fd
  pub used_fds : ℕ
  pub n_io_events : ℕ
  pub child_proc : List Child
  pub n_proc : ℕ
  pub n_exit_callbacks : ℕ

-- The result of a handler: 0, or -1.
pub data Status : Type 0 where
  proceed halt : Status

abbrev pub M : Type 0 → Type 0
M A = Vm → Option (A × Vm)

abbrev pub pure : {A : Type 0} → A → M A
pure a vm = some (a, vm)

abbrev pub undefined : {A : Type 0} → M A
undefined vm = none

infixl 5 ◌>>=◌ ◌>>◌
abbrev pub ◌>>=◌ : {A B : Type 0} → M A → (A → M B) → M B
◌>>=◌ m f vm = elim (m vm) [ none ↦ none | some (a, vm') ↦ f a vm' ]

abbrev pub ◌>>◌ : {B : Type 0} → M (Unit {0}) → M B → M B
m >> k = m >>= λ _. k

-- A read of the state, and a value that the state determines.
abbrev pub gets : {A : Type 0} → (Vm → A) → M A
gets f vm = some (f vm, vm)

abbrev pub asks : {A : Type 0} → (Vm → Option A) → M A
asks f vm = elim (f vm) [ none ↦ none | some a ↦ some (a, vm) ]

abbrev pub modify : (Vm → Vm) → M (Unit {0})
modify f vm = some (tt, f vm)

abbrev pub with_exception : ℕ → Vm → Vm
with_exception e vm = record vm { exceptions = bit_or vm.exceptions e }

abbrev pub with_error : ℕ → Vm → Vm
with_error e vm = record vm { error_no = e }

-- `vm->exceptions |= e;`
abbrev pub raise : ℕ → M (Unit {0})
raise e = modify (with_exception e)

-- `vm->error_no = e;`
abbrev pub set_error : ℕ → M (Unit {0})
set_error e = modify (with_error e)

-- `*(uintN_t*)ptr` and `*(uintN_t*)ptr = v`, for a pointer `vm->memory + ref` and N = 8 * n
unfoldable pub lref : ℕ → ℕ → M ℕ
lref n ref = asks (λ vm. load n vm.memory ref)

unfoldable pub set_lref : ℕ → ℕ → ℕ → M (Unit {0})
set_lref n ref v vm = elim (store n v vm.memory ref) [
  | none ↦ none
  | some m ↦ some (tt, record vm { memory = m })
]
