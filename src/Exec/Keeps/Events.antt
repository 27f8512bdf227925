-- ===== src/Exec/Keeps/Events.antt =====
-- The descriptors, the child processes and their calls keep the code and the bound of the memory.
use bvgz_vm.Common.{
  ℕ, zero, suc, ◌+◌, ◌-◌, ◌%◌, ◌^◌, ◌==◌, ◌∷◌, [], refl, Bool, true, not, ◌&&◌, ◌||◌, Option, none,
  some, List, arith, length, ltb, leb, if◌then◌else◌,
}
use bvgz_vm.Vm.{
  Vm, set_error, set_lref, ◌>>◌, gets, Fd, IoEvent, io_mem, net_callback, no_data, EventData,
  Callback, Activate, read_io, write_io, connect_io, accept_io, Child, M, pure, ◌>>=◌, modify,
}
use bvgz_vm.Vm.Procedures.{make_func_procedure}
use bvgz_vm.Syscall.{
  Effect, store_bytes, carry_out, Result, done, failed, Selected, IoHost, WaitStatus, Waited,
  waited, wait_failed, store_if, efault, einval,
}
use bvgz_vm.Instn.Access.{deref}
use bvgz_vm.Syscall.Io.{fd_at, set_fd, dealloc_fd, alloc_event, ebadf}
use bvgz_vm.Syscall.Io.Calls.{
  refuse, sys_close, TaskParams, check_task, get_io_task_params, add_task, sys_read, sys_write,
}
use bvgz_vm.Syscall.Io.Events.{
  put_bytes, bytes_at, common_io_evt_handler, report_io, call_back, transfer, io_evt_handler,
  activate, find_event, drop_event, activate_event, activate_ready, fire_io_events, setup_sets,
  Sets,
}
use bvgz_vm.Syscall.Procs.{
  echild, report_exit, fire_events_of_proc, end_child, find_proc, fire_proc_events, with_args,
  sys_kill, add_exit_cb, sys_onexit,
}
use bvgz_vm.Exec.Keeps.{
  Keeps, keep_rules, bind-Keeps, bind_option-Keeps, set_lref-Keeps, set_error-Keeps, lref-Keeps,
  gets-Keeps, asks-Keeps, cond-Keeps, seq-Keeps, option-Keeps, pure-Keeps, undefined-Keeps,
  modify-Keeps, deref_mem_ptr-Keeps,
}

pub store_if-Keeps : (p : Option ℕ) (v : ℕ) → Keeps (store_if p v)
unfolding store_if
store_if-Keeps none v = pure-Keeps tt
store_if-Keeps (some p) v = set_lref-Keeps 8 p v

store_bytes-Keeps : (bytes : List (ℕ × ℕ)) → Keeps (store_bytes bytes)
unfolding store_bytes
store_bytes-Keeps [] = pure-Keeps tt
store_bytes-Keeps ((p, b) ∷ bytes) = seq-Keeps (set_lref-Keeps 1 p b) (store_bytes-Keeps bytes)

pub carry_out-Keeps : (e : Effect) → Keeps (carry_out e)
unfolding carry_out
carry_out-Keeps e =
    seq-Keeps (store_bytes-Keeps e.bytes)
      (modify-Keeps _ (λ vm. record { code = refl; within = λ h. h }))

fd_at-Keeps : (i : ℕ) → Keeps (fd_at i)
unfolding fd_at
fd_at-Keeps i = asks-Keeps _

set_fd-Keeps : (i : ℕ) (f : Fd) → Keeps (set_fd i f)
unfolding set_fd
set_fd-Keeps i f = modify-Keeps _ (λ vm. record { code = refl; within = λ h. h })

n_events-Keeps : (f : Vm → ℕ) → Keeps (modify (λ vm. record vm { n_io_events = f vm }))
n_events-Keeps f = modify-Keeps _ (λ vm. record { code = refl; within = λ h. h })

used_fds-Keeps : (f : Vm → ℕ) → Keeps (modify (λ vm. record vm { used_fds = f vm }))
used_fds-Keeps f = modify-Keeps _ (λ vm. record { code = refl; within = λ h. h })

ruleset event_rules = (
  keep_rules, store_if-Keeps, carry_out-Keeps, fd_at-Keeps, set_fd-Keeps, n_events-Keeps,
  used_fds-Keeps,
)

alloc_event-Keeps : (i : ℕ) (evt : IoEvent) → Keeps (alloc_event i evt)
unfolding alloc_event
alloc_event-Keeps i evt = search event_rules depth 14

dealloc_fd-Keeps : (io : IoHost) (i : ℕ) → Keeps (dealloc_fd io i)
unfolding dealloc_fd
dealloc_fd-Keeps io i = search event_rules depth 14

refuse-Keeps : (ret : Option ℕ) (err : ℕ) → Keeps (refuse ret err)
unfolding refuse
refuse-Keeps ret err = search event_rules depth 8

closed-Keeps :
    (c : Result (Unit {0})) (r : ℕ)
    → Keeps (elim c [ done t ↦ pure tt | failed errno ↦ do set_error errno; set_lref 8 r 1 ])
closed-Keeps (done t) r = pure-Keeps tt
closed-Keeps (failed e) r = seq-Keeps (set_error-Keeps e) (set_lref-Keeps 8 r 1)

pub sys_close-Keeps : (io : IoHost) (argv retv : ℕ) → Keeps (sys_close io argv retv)
unfolding sys_close
sys_close-Keeps io argv retv = bind-Keeps (deref_mem_ptr-Keeps argv 8) λ (args : Option ℕ).
    bind-Keeps (deref_mem_ptr-Keeps retv 8) λ (ret : Option ℕ).
      option-Keeps args (refuse-Keeps ret efault) λ a.
        option-Keeps ret (refuse-Keeps none efault) λ r. bind-Keeps (lref-Keeps 8 a) λ handle.
          bind-Keeps (gets-Keeps (λ vm. length vm.fds)) λ n.
            cond-Keeps (ltb n ((handle + 2 ^ 64 - 1) % 2 ^ 32)) (refuse-Keeps (some r) ebadf) (
              bind-Keeps (fd_at-Keeps ((handle + 2 ^ 64 - 1) % 2 ^ 32)) λ (f : Fd).
                cond-Keeps (not f.used) (refuse-Keeps (some r) ebadf) (
                  seq-Keeps (set_lref-Keeps 8 r 0) (
                    seq-Keeps (closed-Keeps (io.close f.fd) r)
                      (dealloc_fd-Keeps io ((handle + 2 ^ 64 - 1) % 2 ^ 32)))))

check_task-Keeps : (a r i : ℕ) → Keeps (check_task a r i)
unfolding check_task
check_task-Keeps a r i = search (event_rules, refuse-Keeps) depth 20

get_io_task_params-Keeps : (argv retv : ℕ) → Keeps (get_io_task_params argv retv)
unfolding get_io_task_params
get_io_task_params-Keeps argv retv = search (event_rules, refuse-Keeps, check_task-Keeps) depth 20

add_task-Keeps : (flags : ℕ) (act : Activate) (t : Option TaskParams) → Keeps (add_task flags act t)
unfolding add_task
add_task-Keeps flags act none = pure-Keeps tt
add_task-Keeps flags act (some t) = seq-Keeps (alloc_event-Keeps _ _) (set_lref-Keeps 8 t.ret 0)

pub sys_read-Keeps : (argv retv : ℕ) → Keeps (sys_read argv retv)
unfolding sys_read
sys_read-Keeps argv retv = bind-Keeps (get_io_task_params-Keeps argv retv) (add_task-Keeps _ _)

pub sys_write-Keeps : (argv retv : ℕ) → Keeps (sys_write argv retv)
unfolding sys_write
sys_write-Keeps argv retv = bind-Keeps (get_io_task_params-Keeps argv retv) (add_task-Keeps _ _)

put_bytes-Keeps : (bytes : List ℕ) (p : ℕ) → Keeps (put_bytes bytes p)
unfolding put_bytes
put_bytes-Keeps [] p = pure-Keeps tt
put_bytes-Keeps (b ∷ bytes) p = seq-Keeps (set_lref-Keeps 1 p b) (put_bytes-Keeps bytes (p + 1))

bytes_at-Keeps : (n p : ℕ) → Keeps (bytes_at n p)
unfolding bytes_at
bytes_at-Keeps zero p = pure-Keeps []
bytes_at-Keeps (suc n) p =
    bind-Keeps (lref-Keeps 1 p) λ b. bind-Keeps (bytes_at-Keeps n (p + 1)) λ bs. pure-Keeps (b ∷ bs)

common_io_evt_handler-Keeps : (i p n a : ℕ) → Keeps (common_io_evt_handler i p n a)
unfolding common_io_evt_handler
common_io_evt_handler-Keeps i p n a = search event_rules depth 20

report_io-Keeps : (c : ℕ) (r : Result ℕ) → Keeps (report_io c r)
unfolding report_io
report_io-Keeps c (done n) = search event_rules
report_io-Keeps c (failed e) = search event_rules

call_back-Keeps : (cb : Callback) → Keeps (call_back cb)
unfolding call_back make_func_procedure
call_back-Keeps cb = record { run = λ vm. ground arith }

transfer-Keeps : (io : IoHost) (act : Activate) (fd b n : ℕ) → Keeps (transfer io act fd b n)
unfolding transfer
transfer-Keeps io read_io fd b n = go (io.read fd n) b
  where
    go :
        (r : Result (List ℕ)) (b : ℕ)
        → Keeps (elim r [
          | done bytes ↦ do put_bytes bytes b; pure (done (length bytes))
          | failed errno ↦ pure (failed errno)
        ])
    go (done bytes) b = seq-Keeps (put_bytes-Keeps bytes b) (pure-Keeps _)
    go (failed e) b = pure-Keeps _
transfer-Keeps io write_io fd b n = bind-Keeps (bytes_at-Keeps n b) λ bytes. pure-Keeps _
transfer-Keeps io connect_io fd b n = undefined-Keeps
transfer-Keeps io accept_io fd b n = undefined-Keeps

io_evt_handler-Keeps :
    (io : IoHost) (act : Activate) (i fd p n : ℕ) (cb : Callback)
    → Keeps (io_evt_handler io act i fd p n cb)
unfolding io_evt_handler
io_evt_handler-Keeps io act i fd p n cb =
    bind_option-Keeps _ (common_io_evt_handler-Keeps i p n cb.args) (pure-Keeps (0, true)) λ bufs.
      bind-Keeps (transfer-Keeps io act fd bufs.0 n) λ r.
        seq-Keeps (report_io-Keeps bufs.1 r) (seq-Keeps (call_back-Keeps cb) (pure-Keeps (1, true)))

activate_on-Keeps :
    (io : IoHost) (i fd flags : ℕ) (act : Activate) (d : EventData)
    → Keeps (activate io i fd (record { flags = flags; activate = act; payload = d }))
unfolding activate
activate_on-Keeps io i fd flags act (io_mem p n cb) = io_evt_handler-Keeps io act i fd p n cb
activate_on-Keeps io i fd flags act (net_callback cb) =
    bind-Keeps (gets-Keeps (λ vm. length vm.fds)) λ before.
      bind-Keeps
        (asks-Keeps
          (io.net_event i (record { flags = flags; activate = act; payload = net_callback cb })))
        λ (r : Effect × ℕ × Bool). seq-Keeps (carry_out-Keeps r.0) (
          bind-Keeps (gets-Keeps (λ vm. length vm.fds))
            λ after. cond-Keeps (before == after) (pure-Keeps (r.1, r.2)) undefined-Keeps)
activate_on-Keeps io i fd flags act no_data = undefined-Keeps

activate-Keeps : (io : IoHost) (i fd : ℕ) (evt : IoEvent) → Keeps (activate io i fd evt)
activate-Keeps io i fd evt = activate_on-Keeps io i fd evt.flags evt.activate evt.payload

activate_event-Keeps : (io : IoHost) (i mask : ℕ) → Keeps (activate_event io i mask)
unfolding activate_event
activate_event-Keeps io i mask = bind-Keeps (fd_at-Keeps i) λ (f : Fd).
    seq-Keeps (cond-Keeps (f.freed && not (length f.events == 0)) undefined-Keeps (pure-Keeps tt)) (
      option-Keeps (find_event mask 0 f.events) (pure-Keeps 0) λ (found : ℕ × IoEvent).
        bind-Keeps (activate-Keeps io i f.fd found.1) λ (r : ℕ × Bool).
          bind-Keeps (fd_at-Keeps i) λ (f' : Fd).
            seq-Keeps
              (cond-Keeps r.1
                (seq-Keeps (set_fd-Keeps i (drop_event found.0 f'))
                  (n_events-Keeps (λ vm. (vm.n_io_events + 2 ^ 32 - 1) % 2 ^ 32)))
                (pure-Keeps tt))
              (pure-Keeps r.0))

activate_ready-Keeps :
    (io : IoHost) (sel : Selected) (k i n : ℕ) → Keeps (activate_ready io sel k i n)
unfolding activate_ready
activate_ready-Keeps io sel zero i n = pure-Keeps n
activate_ready-Keeps io sel (suc k) i n =
    search (event_rules, activate_event-Keeps, activate_ready-Keeps io sel k) depth 14

pub fire_io_events-Keeps : (io : IoHost) → Keeps (fire_io_events io)
unfolding fire_io_events
fire_io_events-Keeps io = bind-Keeps (gets-Keeps (λ vm. vm.n_io_events)) λ pending.
    cond-Keeps (pending == 0) (pure-Keeps 0) (
      bind-Keeps
        (asks-Keeps (λ vm. setup_sets vm.fds (record { maxfd = 0; readset = []; writeset = [] })))
        λ (sets : Sets). go io (io.pselect (sets.maxfd + 1) sets.readset sets.writeset))
  where
    go :
        (io : IoHost) (r : Result Selected)
        → Keeps (elim r [
          | failed errno ↦ do set_error errno; pure 0
          | done sel ↦
              if sel.count == 0
              then pure 0
              else (do n ← gets (λ vm. length vm.fds); activate_ready io sel n 0 0)
        ])
    go io (failed e) = search event_rules
    go io (done sel) =
        cond-Keeps (sel.count == 0) (pure-Keeps 0)
          (bind-Keeps (gets-Keeps _) λ n. activate_ready-Keeps io sel n 0 0)

report_exit-Keeps : (c pid : ℕ) (s : WaitStatus) → Keeps (report_exit c pid s)
unfolding report_exit
report_exit-Keeps c pid s = search event_rules depth 14

fire_events_of_proc-Keeps :
    (pid : ℕ) (s : WaitStatus) (cbs : List Callback) (n : ℕ)
    → Keeps (fire_events_of_proc pid s cbs n)
unfolding fire_events_of_proc
fire_events_of_proc-Keeps pid s [] n = pure-Keeps n
fire_events_of_proc-Keeps pid s (cb ∷ cbs) n =
    bind_option-Keeps _ (deref_mem_ptr-Keeps cb.args 56) (fire_events_of_proc-Keeps pid s cbs n)
      λ c.
        seq-Keeps (report_exit-Keeps c pid s)
          (seq-Keeps (call_back-Keeps cb) (fire_events_of_proc-Keeps pid s cbs ((n + 1) % 2 ^ 32)))

n_exit-Keeps : (f : Vm → ℕ) → Keeps (modify (λ vm. record vm { n_exit_callbacks = f vm }))
n_exit-Keeps f = modify-Keeps _ (λ vm. record { code = refl; within = λ h. h })

n_proc-Keeps : (f : Vm → ℕ) → Keeps (modify (λ vm. record vm { n_proc = f vm }))
n_proc-Keeps f = modify-Keeps _ (λ vm. record { code = refl; within = λ h. h })

children-Keeps : (f : Vm → List Child) → Keeps (modify (λ vm. record vm { child_proc = f vm }))
children-Keeps f = modify-Keeps _ (λ vm. record { code = refl; within = λ h. h })

end_child-Keeps : (p : ℕ) (c : Child) → Keeps (end_child p c)
unfolding end_child
end_child-Keeps p c = search (keep_rules, n_exit-Keeps, n_proc-Keeps, children-Keeps) depth 12

pub fire_proc_events-Keeps : (ws : List Waited) (n : ℕ) → Keeps (fire_proc_events ws n)
unfolding fire_proc_events
fire_proc_events-Keeps [] n = pure-Keeps n
fire_proc_events-Keeps (wait_failed e ∷ ws) n =
    bind-Keeps (gets-Keeps (λ vm. vm.n_proc))
      λ m. cond-Keeps (m == 0) (pure-Keeps n) (seq-Keeps (set_error-Keeps e) (pure-Keeps n))
fire_proc_events-Keeps (waited pid s ∷ ws) n = bind-Keeps (gets-Keeps (λ vm. vm.n_proc)) λ m.
    cond-Keeps (m == 0) (pure-Keeps n) (
      bind-Keeps (gets-Keeps (λ vm. find_proc pid 0 vm.child_proc)) λ (found : Option (ℕ × Child)).
        option-Keeps found (pure-Keeps n) λ child.
          bind-Keeps (fire_events_of_proc-Keeps pid s child.1.exit_cb 0) λ fired.
            seq-Keeps
              (cond-Keeps (s.exited || s.signaled) (end_child-Keeps child.0 child.1)
                (pure-Keeps tt))
              (fire_proc_events-Keeps ws ((n + fired) % 2 ^ 32)))

with_args-Keeps :
    (argv retv : ℕ) (call : ℕ → ℕ → M (Unit {0}))
    → ((a r : ℕ) → Keeps (call a r))
    → Keeps (with_args argv retv call)
unfolding with_args
with_args-Keeps argv retv call h = search (event_rules, refuse-Keeps, h) depth 12

pub sys_kill-Keeps :
    (kill : ℕ → Result (Unit {0})) (argv retv : ℕ) → Keeps (sys_kill kill argv retv)
unfolding sys_kill
sys_kill-Keeps kill argv retv =
    with_args-Keeps argv retv _ λ a r. bind-Keeps (lref-Keeps 8 a) λ pid. go (kill (pid % 2 ^ 32)) r
  where
    go :
        (c : Result (Unit {0})) (r : ℕ)
        → Keeps
            (elim c [ done t ↦ set_lref 8 r 0 | failed errno ↦ do set_error errno; set_lref 8 r 1 ])
    go (done t) r = set_lref-Keeps 8 r 0
    go (failed e) r = seq-Keeps (set_error-Keeps e) (set_lref-Keeps 8 r 1)

add_exit_cb-Keeps : (p : ℕ) (c : Child) (cb : Callback) → Keeps (add_exit_cb p c cb)
unfolding add_exit_cb
add_exit_cb-Keeps p c cb = search (keep_rules, n_exit-Keeps, n_proc-Keeps, children-Keeps) depth 12

pub sys_onexit-Keeps : (argv retv : ℕ) → Keeps (sys_onexit argv retv)
unfolding sys_onexit
sys_onexit-Keeps argv retv = with_args-Keeps argv retv _ λ a r.
    bind-Keeps (lref-Keeps 8 (a + 8)) λ arg.
      bind-Keeps (gets-Keeps (deref (arg % 2 ^ 32) 56)) λ (cb_args : Option ℕ).
        option-Keeps cb_args (refuse-Keeps (some r) efault) λ q.
          bind-Keeps (lref-Keeps 8 (a + 16)) λ cb.
            bind-Keeps (gets-Keeps (λ vm. vm.code.size)) λ codesz.
              cond-Keeps (leb codesz cb) (refuse-Keeps (some r) einval) (
                bind-Keeps (lref-Keeps 8 a) λ pid.
                  bind-Keeps (gets-Keeps (λ vm. find_proc (pid % 2 ^ 32) 0 vm.child_proc))
                    λ (child : Option (ℕ × Child)).
                      option-Keeps child (refuse-Keeps (some r) echild) λ found.
                        seq-Keeps
                          (add_exit_cb-Keeps found.0 found.1
                            (record { callback = cb % 2 ^ 32; args = arg % 2 ^ 32 }))
                          (set_lref-Keeps 8 r 0))
