-- ===== src/Syscall/Io/Events.antt =====
-- The events of src/syscalls/syscall_io.c: `fire_io_events`, `activate_event` and the handlers of read and
-- write events.
use bvgz_vm.Common.{
  ℕ, zero, suc, ◌+◌, ◌-◌, ◌/◌, ◌%◌, ◌^◌, Bool, true, false, not, ◌&&◌, ◌||◌, Option, none, some,
  List, [], ◌∷◌, ltb, ◌==◌, length, get_elem?, set, if◌then◌else◌,
}
use bvgz_vm.Vm.{
  Fd, IoEvent, no_data, io_mem, net_callback, Callback, Activate, read_io, write_io, M, pure,
  undefined, ◌>>=◌, ◌>>◌, gets, asks, modify, set_error, lref, set_lref,
}
use bvgz_vm.Vm.Procedures.{make_func_procedure}
use bvgz_vm.Instn.Access.{deref}
use bvgz_vm.Syscall.{efault, Result, done, failed, Selected, IoHost, carry_out}
use bvgz_vm.Syscall.Io.{fd_at, set_fd, io_evt_select_read, io_evt_select_write, io_evt_alloc}

-- A bit of `evt->flags`
abbrev pub has_flag : (mask flags : ℕ) → Bool
has_flag mask flags = flags / mask % 2 == 1

-- `for (e = 0; e < n_events && (!set_r || !set_w); e++)`
unfoldable pub scan_flags : List IoEvent → (set_r set_w : Bool) → Bool × Bool
scan_flags [] set_r set_w = (set_r, set_w)
scan_flags (e ∷ events) set_r set_w =
    let later =
      scan_flags events (set_r || has_flag io_evt_select_read e.flags)
        (set_w || has_flag io_evt_select_write e.flags) in
    if set_r && set_w then (set_r, set_w) else later

-- `maxfd` and the two sets, as the descriptors in them
pub record Sets : Type 0 where
  pub maxfd : ℕ
  pub readset : List ℕ
  pub writeset : List ℕ

unfoldable pub setup_select_rwsets : Fd → Sets → Sets
unfolding scan_flags
setup_select_rwsets f s =
    let (set_r, set_w) = scan_flags f.events false false in
    if set_r || set_w
    then record {
      maxfd = if ltb s.maxfd f.fd then f.fd else s.maxfd;
      readset = if set_r then f.fd ∷ s.readset else s.readset;
      writeset = if set_w then f.fd ∷ s.writeset else s.writeset;
    }
    else s

-- `for (fd_idx = 0; fd_idx < n_fds; fd_idx++)`; the events of a descriptor whose block was freed are not
-- there to be read.
unfoldable pub setup_sets : List Fd → Sets → Option Sets
unfolding setup_select_rwsets
setup_sets [] s = some s
setup_sets (f ∷ fds) s =
    let skipped = setup_sets fds s in
    let taken = setup_sets fds (setup_select_rwsets f s) in
    if not f.used || length f.events == 0 then skipped else if f.freed then none else taken

-- Bytes in the memory
unfoldable pub put_bytes : List ℕ → (ptr : ℕ) → M (Unit {0})
put_bytes [] ptr = pure tt
put_bytes (b ∷ bytes) ptr = do set_lref 1 ptr b; put_bytes bytes (ptr + 1)

unfoldable pub bytes_at : (n ptr : ℕ) → M (List ℕ)
bytes_at zero ptr = pure []
bytes_at (suc n) ptr = do b ← lref 1 ptr; bytes ← bytes_at n (ptr + 1); pure (b ∷ bytes)

-- The arguments of the callback and the buffer, or `none` for the result -1
unfoldable pub common_io_evt_handler : (fd_idx ptr len args : ℕ) → M (Option (ℕ × ℕ))
common_io_evt_handler fd_idx ptr len args = do
  cb_args ← gets (deref args 32)
  elim cb_args [
    | none ↦ do set_error efault; pure none
    | some c ↦ do
      set_lref 8 c (fd_idx + 1)
      set_lref 8 (c + 8) 0
      set_lref 8 (c + 16) 0
      buf ← gets (deref ptr len)
      elim buf [ none ↦ do set_lref 8 (c + 8) efault; pure none | some b ↦ pure (some (b, c)) ]
  ]

-- The result of `read` or `write` goes to the arguments of the callback.
unfoldable pub report_io : (cb_args : ℕ) → Result ℕ → M (Unit {0})
report_io c (done len) = do set_lref 8 (c + 16) len; set_lref 8 (c + 8) 0
report_io c (failed errno) = do set_lref 8 (c + 16) 0; set_lref 8 (c + 8) errno; set_error errno

unfoldable pub call_back : Callback → M (Unit {0})
call_back cb vm = elim (make_func_procedure cb.callback cb.args 0 vm) [
  | none ↦ none
  | some vm' ↦ some (tt, vm')
]

-- What the operating system does with the buffer
unfoldable pub transfer : IoHost → Activate → (fd buf len : ℕ) → M (Result ℕ)
unfolding put_bytes bytes_at
transfer io read_io fd buf len = elim (io.read fd len) [
  | done bytes ↦ do put_bytes bytes buf; pure (done (length bytes))
  | failed errno ↦ pure (failed errno)
]
transfer io write_io fd buf len = do bytes ← bytes_at len buf; pure (io.write fd bytes)
transfer io _ fd buf len = undefined

-- `read_io_evt_handler` and `write_io_evt_handler`: the number of events, and always a removal
unfoldable pub io_evt_handler :
    IoHost → Activate → (fd_idx fd ptr len : ℕ) → Callback → M (ℕ × Bool)
unfolding common_io_evt_handler transfer report_io call_back
io_evt_handler io activate fd_idx fd ptr len cb = do
  bufs ← common_io_evt_handler fd_idx ptr len cb.args
  elim bufs [
    | none ↦ pure (0, true)
    | some (buf, c) ↦ do
      result ← transfer io activate fd buf len
      report_io c result
      call_back cb
      pure (1, true)
  ]

-- `evt->activate(vm, fd, evt, &remove)`. A network handler may make the table of descriptors grow, and
-- `fd` and `evt` point into the old one then.
unfoldable pub activate : IoHost → (fd_idx fd : ℕ) → IoEvent → M (ℕ × Bool)
unfolding io_evt_handler
activate io fd_idx fd evt = elim (evt.payload) [
  | io_mem ptr len cb ↦ io_evt_handler io evt.activate fd_idx fd ptr len cb
  | net_callback cb ↦ do
    before ← gets (λ vm. length vm.fds)
    (effect, events, remove) ← asks (io.net_event fd_idx evt)
    carry_out effect
    after ← gets (λ vm. length vm.fds)
    if before == after then pure (events, remove) else undefined
  | no_data ↦ undefined
]

-- The index of the first event of the flags, and the event
unfoldable pub find_event : (mask e : ℕ) → List IoEvent → Option (ℕ × IoEvent)
find_event mask e [] = none
find_event mask e (evt ∷ events) =
    let later = find_event mask (e + 1) events in if evt.flags == mask then some (e, evt) else later

unfoldable pub first_events : ℕ → List IoEvent → List IoEvent
first_events zero events = []
first_events (suc n) [] = []
first_events (suc n) (e ∷ events) = e ∷ first_events n events

-- The last event takes the place `e`.
unfoldable pub remove_event : (e : ℕ) → List IoEvent → List IoEvent
unfolding first_events
remove_event e events = elim (get_elem? events (length events - 1)) [
  | none ↦ events
  | some last ↦ first_events (length events - 1) (set events e last)
]

-- The block shrinks where more than four events could be added, but for the last event.
unfoldable pub drop_event : (e : ℕ) → Fd → Fd
unfolding remove_event
drop_event e f =
    let events = remove_event e f.events in
    if not (length events == 0)
      && ltb io_evt_alloc ((f.alloc_events + 2 ^ 32 - length events) % 2 ^ 32)
    then record f {
      events = events;
      alloc_events = (f.alloc_events + 2 ^ 32 - io_evt_alloc) % 2 ^ 32;
    }
    else record f { events = events }

-- `for (e = 0; e < n_events; e++)`, which returns at the first event of the flags
unfoldable pub activate_event : IoHost → (fd_idx flag_mask : ℕ) → M ℕ
unfolding fd_at set_fd find_event activate drop_event
activate_event io fd_idx flag_mask = do
  f ← fd_at fd_idx
  if f.freed && not (length f.events == 0) then undefined else pure tt
  elim (find_event flag_mask 0 f.events) [
    | none ↦ pure 0
    | some (e, evt) ↦ (do
      (result, remove) ← activate io fd_idx f.fd evt
      f' ← fd_at fd_idx
      if remove
          then (do
            set_fd fd_idx (drop_event e f')
            modify (λ vm. record vm { n_io_events = (vm.n_io_events + 2 ^ 32 - 1) % 2 ^ 32 }))
          else pure tt
      pure result)
  ]

abbrev pub has_fd : ℕ → List ℕ → Bool
has_fd fd [] = false
has_fd fd (f ∷ fds) = fd == f || has_fd fd fds

-- `for (fd_idx = 0; fd_idx < vm->io.n_fds; fd_idx++)`, with `k` rounds left: as many as there are descriptors,
-- whose number stays the same where `activate` is defined.
unfoldable pub activate_ready : IoHost → Selected → (k fd_idx events : ℕ) → M ℕ
unfolding fd_at activate_event
activate_ready io sel zero fd_idx events = pure events
activate_ready io sel (suc k) fd_idx events = do
  f ← fd_at fd_idx
  if not f.used then activate_ready io sel k (fd_idx + 1) events else (do
    r ← if has_fd f.fd sel.readable then activate_event io fd_idx io_evt_select_read else pure 0
    w ← if has_fd f.fd sel.writable then activate_event io fd_idx io_evt_select_write else pure 0
    activate_ready io sel k (fd_idx + 1) ((events + r + w) % 2 ^ 32))

unfoldable pub fire_io_events : IoHost → M ℕ
unfolding setup_sets activate_ready
fire_io_events io = do
  pending ← gets (λ vm. vm.n_io_events)
  if pending == 0 then pure 0 else (do
    sets ← asks (λ vm. setup_sets vm.fds (record { maxfd = 0; readset = []; writeset = [] }))
    elim (io.pselect (sets.maxfd + 1) sets.readset sets.writeset) [
      | failed errno ↦ do set_error errno; pure 0
      | done sel ↦
          if sel.count == 0
          then pure 0
          else (do n ← gets (λ vm. length vm.fds); activate_ready io sel n 0 0)
    ])
