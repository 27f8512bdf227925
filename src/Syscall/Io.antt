-- ===== src/Syscall/Io.antt =====
-- src/syscalls/syscall_io.c: the table of descriptors and the events that wait on them. An event that is
-- written behind the block of its descriptor, or in a block that was freed, is undefined.
pub mod Table
pub mod Calls
pub mod Limits
pub mod Events
use bvgz_vm.Common.{
  ℕ, zero, suc, ◌+◌, ◌-◌, ◌*◌, ◌%◌, ◌^◌, Bool, true, false, not, ◌&&◌, ◌||◌, Option, none, some,
  List, [], ◌∷◌, ◌++◌, ltb, leb, ◌==◌, length, get_elem?, set, if◌then◌else◌,
}
use bvgz_vm.Vm.{
  Vm, Fd, IoEvent, EventData, no_data, io_mem, net_callback, Callback, Activate, read_io, write_io,
  connect_io, accept_io, M, pure, undefined, ◌>>=◌, ◌>>◌, gets, asks, modify, set_error, lref,
  set_lref,
}
use bvgz_vm.Vm.Procedures.{make_func_procedure}
use bvgz_vm.Instn.Access.{deref, deref_mem_ptr}
use bvgz_vm.Syscall.{store_if, efault, einval, IoHost, carry_out}

abbrev pub ebadf : ℕ
ebadf = 9

abbrev pub fd_alloc_step : ℕ
fd_alloc_step = 5

abbrev pub io_evt_alloc : ℕ
io_evt_alloc = 4

-- `sizeof(io_mem_t)`, by which the blocks of events are allocated, and `sizeof(vm_io_evt_t)`
abbrev pub io_mem_sz : ℕ
io_mem_sz = 16

abbrev pub io_evt_sz : ℕ
io_evt_sz = 24

abbrev pub io_evt_select_read : ℕ
io_evt_select_read = 0x1

abbrev pub io_evt_select_write : ℕ
io_evt_select_write = 0x2

-- What `memset` leaves
abbrev pub zero_fd : Fd
zero_fd = record {
  fd = 0;
  used = false;
  events = [];
  alloc_events = 0;
  freed = false;
  on_close = false;
}

unfoldable pub repeat_fd : ℕ → List Fd
repeat_fd zero = []
repeat_fd (suc n) = zero_fd ∷ repeat_fd n

-- `for (i = begin_fd; i < n_fds; i++)`, on the descriptors from `i` on
unfoldable pub find_unused : (i : ℕ) → List Fd → Option ℕ
find_unused i [] = none
find_unused i (f ∷ fds) =
    let later = find_unused (i + 1) fds in if not f.used then some i else later

unfoldable pub drop_fds : ℕ → List Fd → List Fd
drop_fds zero fds = fds
drop_fds (suc n) [] = []
drop_fds (suc n) (f ∷ fds) = drop_fds n fds

-- `vm->io.fds[i]`, and an assignment to it
unfoldable pub fd_at : ℕ → M Fd
fd_at i = asks (λ vm. get_elem? vm.fds i)

unfoldable pub set_fd : ℕ → Fd → M (Unit {0})
set_fd i f = modify (λ vm. record vm { fds = set vm.fds i f })

-- The table grows where all descriptors are in use, and the search begins behind the old ones then.
unfoldable pub grow_fds : M ℕ
grow_fds vm =
    if vm.used_fds == length vm.fds
    then some (length vm.fds, record vm { fds = vm.fds ++ repeat_fd fd_alloc_step })
    else some (0, vm)

-- Where none is found the program aborts.
unfoldable pub alloc_fd : M ℕ
unfolding repeat_fd find_unused drop_fds grow_fds fd_at set_fd
alloc_fd = do
  begin_fd ← grow_fds
  i ← asks (λ vm. find_unused begin_fd (drop_fds begin_fd vm.fds))
  f ← fd_at i
  set_fd i (record f { used = true; on_close = false })
  modify (λ vm. record vm { used_fds = (vm.used_fds + 1) % 2 ^ 32 })
  pure i

-- `fd->events` is freed, and neither it nor the numbers of its events are reset.
unfoldable pub dealloc_fd : IoHost → ℕ → M (Unit {0})
unfolding fd_at set_fd
dealloc_fd io fd_idx = do
  f ← fd_at fd_idx
  if f.on_close then (asks (io.net_io_close_handler fd_idx) >>= carry_out) else pure tt
  f' ← fd_at fd_idx
  if f'.freed
      then undefined
      else set_fd fd_idx (record f' { used = false; freed = not (f'.alloc_events == 0) })
  modify (λ vm. record vm { used_fds = (vm.used_fds + 2 ^ 32 - 1) % 2 ^ 32 })

-- The new event is written at index `n_events`, 24 bytes in a block of 16 for each that is allocated.
unfoldable pub alloc_event : (fd_idx : ℕ) → IoEvent → M (Unit {0})
unfolding fd_at set_fd
alloc_event fd_idx evt = do
  f ← fd_at fd_idx
  let n = length f.events
  let grows = ltb f.alloc_events ((n + 1) % 2 ^ 32)
  let alloc = if grows then (f.alloc_events + io_evt_alloc) % 2 ^ 32 else f.alloc_events
  if f.freed || not (leb (io_evt_sz * (n + 1)) (io_mem_sz * alloc)) then undefined else (do
    set_fd fd_idx (record f { events = f.events ++ evt ∷ []; alloc_events = alloc })
    modify (λ vm. record vm { n_io_events = (vm.n_io_events + 1) % 2 ^ 32 }))
