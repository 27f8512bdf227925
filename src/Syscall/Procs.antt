-- ===== src/Syscall/Procs.antt =====
-- The child processes of src/syscalls/syscall_proc.c: the table of them, the callbacks of their exit,
-- and the calls kill and onexit. exec and run, which fork, are not here.
pub mod Table
use bvgz_vm.Common.{
  ℕ, zero, suc, ◌+◌, ◌-◌, ◌%◌, ◌^◌, Bool, true, false, not, ◌||◌, Option, none, some, List, [], ◌∷◌,
  ◌++◌, leb, ◌==◌, length, set, if◌then◌else◌,
}
use bvgz_vm.Vm.{
  Child, Callback, M, pure, ◌>>=◌, ◌>>◌, gets, asks, modify, set_error, lref, set_lref,
}
use bvgz_vm.Instn.Access.{deref, deref_mem_ptr}
use bvgz_vm.Syscall.{efault, einval, Result, done, failed, WaitStatus, Waited, waited, wait_failed}
use bvgz_vm.Syscall.Io.Calls.{refuse}
use bvgz_vm.Syscall.Io.Events.{call_back}

abbrev pub echild : ℕ
echild = 10

abbrev pub proc_alloc : ℕ
proc_alloc = 8

-- What `memset` leaves
abbrev pub zero_child : Child
zero_child = record { pid = 0; used = false; exit_cb = [] }

unfoldable pub repeat_child : ℕ → List Child
repeat_child zero = []
repeat_child (suc n) = zero_child ∷ repeat_child n

-- `for (p = 0; p < alloc_proc; p++)`, which skips the ones in use
unfoldable pub find_free : (p : ℕ) → List Child → Option ℕ
find_free p [] = none
find_free p (c ∷ cs) = let later = find_free (p + 1) cs in if c.used then later else some p

-- The loop of `find_proc`
unfoldable pub find_proc : (pid p : ℕ) → List Child → Option (ℕ × Child)
find_proc pid p [] = none
find_proc pid p (c ∷ cs) =
    let later = find_proc pid (p + 1) cs in
    if not c.used then later else if c.pid == pid then some (p, c) else later

unfoldable pub grow_procs : M (Unit {0})
unfolding repeat_child
grow_procs = modify (λ vm.
    if leb (length vm.child_proc) vm.n_proc
    then record vm { child_proc = vm.child_proc ++ repeat_child proc_alloc }
    else vm)

abbrev pub set_child : ℕ → Child → M (Unit {0})
set_child p c = modify (λ vm. record vm { child_proc = set vm.child_proc p c })

-- Where no entry is free the program aborts.
unfoldable pub save_child_proc : (pid : ℕ) → M (Unit {0})
unfolding grow_procs find_free
save_child_proc pid = do
  grow_procs
  p ← asks (λ vm. find_free 0 vm.child_proc)
  set_child p (record { pid = pid; used = true; exit_cb = [] })
  modify (λ vm. record vm { n_proc = (vm.n_proc + 1) % 2 ^ 32 })

abbrev pub as_number : Bool → ℕ
as_number b = if b then 1 else 0

unfoldable pub report_exit : (cb_args pid : ℕ) → WaitStatus → M (Unit {0})
report_exit c pid s = do
  set_lref 8 c pid
  set_lref 8 (c + 8) (as_number s.exited)
  set_lref 8 (c + 16) s.exit_status
  set_lref 8 (c + 24) (as_number s.signaled)
  set_lref 8 (c + 32) s.term_sig
  set_lref 8 (c + 40) (as_number s.stopped)
  set_lref 8 (c + 48) (as_number s.continued)

-- `for (c = 0; c < n_exit_cb; c++)`
unfoldable pub fire_events_of_proc : (pid : ℕ) → WaitStatus → List Callback → (n_events : ℕ) → M ℕ
unfolding report_exit
fire_events_of_proc pid s [] n_events = pure n_events
fire_events_of_proc pid s (cb ∷ cbs) n_events = do
  cb_args ← deref_mem_ptr cb.args 56
  elim cb_args [
    | none ↦ fire_events_of_proc pid s cbs n_events
    | some c ↦ do
      report_exit c pid s
      call_back cb
      fire_events_of_proc pid s cbs ((n_events + 1) % 2 ^ 32)
  ]

-- The entry of a process that has ended
unfoldable pub end_child : (p : ℕ) → Child → M (Unit {0})
end_child p c = do
  modify (λ vm. record vm {
    n_exit_callbacks = (vm.n_exit_callbacks + 2 ^ 32 - length c.exit_cb) % 2 ^ 32;
  })
  set_child p (record c { used = false; exit_cb = [] })
  modify (λ vm. record vm { n_proc = (vm.n_proc + 2 ^ 32 - 1) % 2 ^ 32 })

-- `while (vm->proc.n_proc)`, on the results of `waitpid` in their order: behind the last one it is 0.
unfoldable pub fire_proc_events : List Waited → (n_events : ℕ) → M ℕ
unfolding find_proc fire_events_of_proc end_child
fire_proc_events [] n_events = pure n_events
fire_proc_events (w ∷ ws) n_events = do
  n_proc ← gets (λ vm. vm.n_proc)
  if n_proc == 0 then pure n_events else elim w [
    | wait_failed errno ↦ do set_error errno; pure n_events
    | waited pid status ↦ do
      child ← gets (λ vm. find_proc pid 0 vm.child_proc)
      elim child [
        | none ↦ pure n_events
        | some (p, c) ↦ do
          fired ← fire_events_of_proc pid status c.exit_cb 0
          if status.exited || status.signaled then end_child p c else pure tt
          fire_proc_events ws ((n_events + fired) % 2 ^ 32)
      ]
  ]

unfoldable pub cleanup_child_proc : List Waited → M (Unit {0})
unfolding fire_proc_events
cleanup_child_proc ws = do n ← fire_proc_events ws 0; pure tt

-- Both calls start with the two pointers, of which eight bytes each are tested.
unfoldable pub with_args : (argv retv : ℕ) → (ℕ → ℕ → M (Unit {0})) → M (Unit {0})
unfolding refuse
with_args argv retv call = do
  args ← deref_mem_ptr argv 8
  ret ← deref_mem_ptr retv 8
  elim args [
    | none ↦ refuse ret efault
    | some a ↦ elim ret [ none ↦ refuse none efault | some r ↦ call a r ]
  ]

-- `kill(pid, SIGTERM)` is the argument `kill`.
unfoldable pub sys_kill : (kill : ℕ → Result (Unit {0})) → (argv retv : ℕ) → M (Unit {0})
unfolding with_args
sys_kill kill argv retv = with_args argv retv (λ a r. do
  pid ← lref 8 a
  elim (kill (pid % 2 ^ 32)) [
    | done t ↦ set_lref 8 r 0
    | failed errno ↦ do set_error errno; set_lref 8 r 1
  ])

unfoldable pub add_exit_cb : (p : ℕ) → Child → Callback → M (Unit {0})
add_exit_cb p c cb = do
  set_child p (record c { exit_cb = c.exit_cb ++ cb ∷ [] })
  modify (λ vm. record vm { n_exit_callbacks = (vm.n_exit_callbacks + 1) % 2 ^ 32 })

unfoldable pub sys_onexit : (argv retv : ℕ) → M (Unit {0})
unfolding with_args find_proc add_exit_cb
sys_onexit argv retv = with_args argv retv (λ a r. do
  args_arg ← lref 8 (a + 8)
  cb_args ← gets (deref (args_arg % 2 ^ 32) 56)
  elim cb_args [
    | none ↦ refuse (some r) efault
    | some q ↦ do
      callback ← lref 8 (a + 16)
      codesz ← gets (λ vm. vm.code.size)
      if leb codesz callback then refuse (some r) einval else (do
        pid ← lref 8 a
        child ← gets (λ vm. find_proc (pid % 2 ^ 32) 0 vm.child_proc)
        elim child [
          | none ↦ refuse (some r) echild
          | some (p, c) ↦ do
            add_exit_cb p c (record { callback = callback % 2 ^ 32; args = args_arg % 2 ^ 32 })
            set_lref 8 r 0
        ])
  ])
