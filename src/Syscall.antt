-- ===== src/Syscall.antt =====
-- What a system call needs from outside the machine: the answers of the operating system and the
-- allocator, and the effects of the calls of src/syscalls/ that are not modelled.
pub mod Misc
pub mod Mem
pub mod Timers
pub mod Io
pub mod Procs
pub mod Laws
use bvgz_vm.Common.{ℕ, ◌+◌, ◌%◌, ◌^◌, Bool, Option, none, some, List, [], ◌∷◌}
use bvgz_vm.Vm.{Vm, Proc, Fd, IoEvent, Child, modify, M, ◌>>=◌, ◌>>◌, pure, set_lref, lref}
use bvgz_vm.Instn.Access.{deref, deref_mem_ptr}

-- The result of `clock_gettime`: a time, or `errno`.
pub data ClockReading : Type 0 where
  time : (tv_sec tv_nsec : ℕ) → ClockReading
  clock_error : ℕ → ClockReading

-- What a function of a file of src/syscalls/ that is not modelled may do: it stores bytes in the memory,
-- through the pointers that `deref` grants, and it changes the tables and the error numbers.
pub record Effect : Type 0 where
  pub bytes : List (ℕ × ℕ)
  pub procedures : List Proc
  pub exceptions : ℕ
  pub error_no : ℕ
  pub fds : List Fd
  pub used_fds : ℕ
  pub n_io_events : ℕ
  pub child_proc : List Child
  pub n_proc : ℕ

unfoldable pub store_bytes : List (ℕ × ℕ) → M (Unit {0})
store_bytes [] = pure tt
store_bytes ((p, b) ∷ bytes) = do set_lref 1 p b; store_bytes bytes

unfoldable pub carry_out : Effect → M (Unit {0})
unfolding store_bytes
carry_out e = do
  store_bytes e.bytes
  modify (λ vm. record vm {
    procedures = e.procedures;
    exceptions = e.exceptions;
    error_no = e.error_no;
    fds = e.fds;
    used_fds = e.used_fds;
    n_io_events = e.n_io_events;
    child_proc = e.child_proc;
    n_proc = e.n_proc;
  })

-- The result of a call of the operating system: what it gives, or `errno`.
pub data Result (A : Type 0) : Type 0 where
  done : A → Result A
  failed : (errno : ℕ) → Result A

-- The descriptors that `pselect` leaves in the two sets, and its result, the number of them.
pub record Selected : Type 0 where
  pub count : ℕ
  pub readable : List ℕ
  pub writable : List ℕ

-- The operating system, and the handlers of src/syscalls/syscall_net.c
pub record IoHost : Type 0 where
  pub pselect : (nfds : ℕ) → (readset writeset : List ℕ) → Result Selected
  pub read : (fd len : ℕ) → Result (List ℕ)
  pub write : (fd : ℕ) → (bytes : List ℕ) → Result ℕ
  pub close : (fd : ℕ) → Result (Unit {0})
  -- `evt->activate` of a network event: its result, and whether the event is removed
  pub net_event : (fd_idx : ℕ) → IoEvent → Vm → Option (Effect × ℕ × Bool)
  pub net_io_close_handler : (fd_idx : ℕ) → Vm → Option Effect

-- What the macros `WIFEXITED` to `WIFCONTINUED` read from a status.
pub record WaitStatus : Type 0 where
  pub exited : Bool
  pub exit_status : ℕ
  pub signaled : Bool
  pub term_sig : ℕ
  pub stopped : Bool
  pub continued : Bool

-- A result of `waitpid` that is not 0
pub data Waited : Type 0 where
  waited : (pid : ℕ) → WaitStatus → Waited
  wait_failed : (errno : ℕ) → Waited

-- The answers of the operating system and of the allocator in one round of the machine.
pub record Host : Type 0 where
  -- the clock, as `fire_timer_events` reads it when the machine idles and when a call is made, and
  -- as a system call reads it
  pub idle_clock : ClockReading
  pub fire_clock : ClockReading
  pub call_clock : ClockReading
  -- `errno` of an interrupted `nanosleep`
  pub sleep_error : Option ℕ
  -- what `realloc` of the given size leaves in the bytes that it adds; `none` is NULL
  pub realloc : ℕ → Option (ℕ → ℕ)
  -- the descriptors, as `fire_io_events` meets them when the machine idles and when a call is made,
  -- and as the call meets them
  pub idle_io : IoHost
  pub fire_io : IoHost
  pub call_io : IoHost
  -- what `waitpid` gives to `fire_proc_events` when the machine idles and when a call is made, and to
  -- `cleanup_vm` when a call is made, behind the count of an instruction, and at the end
  pub idle_waits : List Waited
  pub fire_waits : List Waited
  pub call_waits : List Waited
  pub count_waits : List Waited
  pub end_waits : List Waited
  -- `kill(pid, SIGTERM)`
  pub kill : ℕ → Result (Unit {0})
  -- exec and run of src/syscalls/syscall_proc.c, and the calls of syscall_fs.c and syscall_net.c
  pub other_syscall : (id argv retv : ℕ) → Vm → Option Effect

abbrev pub enomem : ℕ
enomem = 12

abbrev pub efault : ℕ
efault = 14

abbrev pub einval : ℕ
einval = 22

-- `if (ret) *ret = v;`
unfoldable pub store_if : Option ℕ → ℕ → M (Unit {0})
store_if none v = pure tt
store_if (some p) v = set_lref 8 p v
