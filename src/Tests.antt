-- ===== src/Tests.antt =====
-- A small machine at which the properties are tried: 16 bytes of code, 64 of memory, and one
-- procedure at the start of the code.
pub mod Instructions
pub mod Machine
pub mod Syscalls
pub mod Emitting
pub mod Assembling
pub mod Files
pub mod Lists
pub mod Descriptors
use bvgz_vm.Common.{ℕ, ◌==◌, if◌then◌else◌, none, some, List, [], ◌∷◌, length}
use bvgz_vm.Vm.{Vm, Proc, Timer}
use bvgz_vm.Vm.Procedures.{fresh_proc}
use bvgz_vm.Instn.{Instn, imm, ref}
use bvgz_vm.Syscall.{Host, IoHost, time, done, failed}

abbrev pub io_host : IoHost
io_host = record {
  pselect = λ n r w. failed 4;
  read = λ fd len. failed 5;
  write = λ fd bytes. done (length bytes);
  close = λ fd. done tt;
  net_event = λ i e vm. none;
  net_io_close_handler = λ i vm. none;
}

abbrev pub host : Host
host = record {
  idle_clock = time 5 0;
  fire_clock = time 5 0;
  call_clock = time 5 0;
  sleep_error = none;
  realloc = λ size. some (λ q. 0);
  idle_io = io_host;
  fire_io = io_host;
  call_io = io_host;
  idle_waits = [];
  fire_waits = [];
  call_waits = [];
  count_waits = [];
  end_waits = [];
  kill = λ pid. done tt;
  other_syscall = λ id argv retv vm. none;
}

-- The word 7 at address 8, and the word 3 at address 16.
abbrev pub cells : ℕ → ℕ
cells q = if q == 8 then 7 else if q == 16 then 3 else 0

-- Eight times the opcode 0, the one of the first table entry.
abbrev pub program : ℕ → ℕ
program q = 0

abbrev pub main : Proc
main = fresh_proc 0

abbrev pub machine : Vm
machine = record {
  code = record { size = 16; cell = program };
  memory = record { size = 64; cell = cells };
  memsz = 64;
  exceptions = 0;
  procedures = main ∷ [];
  iptr = 0;
  instns = 0;
  error_no = 0;
  assert_id = 0;
  timers = [];
  instns_since_last_cleanup = 0;
  fds = [];
  used_fds = 0;
  n_io_events = 0;
  child_proc = [];
  n_proc = 0;
  n_exit_callbacks = 0;
}

-- `add [0] [8] 5`: the third operand is immediate, in one byte.
abbrev pub add_instn : Instn
add_instn = record { code = 12; arg_sizes = 0; arg0 = ref 0; arg1 = ref 8; arg2 = imm 5 }
