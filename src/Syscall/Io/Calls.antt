-- ===== src/Syscall/Io/Calls.antt =====
-- The calls close, read and write of src/syscalls/syscall_io.c.
use bvgz_vm.Common.{ℕ, ◌+◌, ◌-◌, ◌%◌, ◌^◌, not, Option, none, some, ltb, leb, length, if◌then◌else◌}
use bvgz_vm.Vm.{
  io_mem, Activate, read_io, write_io, M, pure, ◌>>=◌, ◌>>◌, gets, set_error, lref, set_lref,
}
use bvgz_vm.Instn.Access.{deref, deref_mem_ptr}
use bvgz_vm.Syscall.{store_if, efault, einval, done, failed, IoHost}
use bvgz_vm.Syscall.Io.{
  ebadf, io_evt_select_read, io_evt_select_write, fd_at, dealloc_fd, alloc_event,
}

-- Where one of the pointers is NULL
unfoldable pub refuse : (ret : Option ℕ) → (err : ℕ) → M (Unit {0})
unfolding store_if
refuse ret err = do set_error err; store_if ret 1

unfoldable pub sys_close : IoHost → (argv retv : ℕ) → M (Unit {0})
unfolding fd_at dealloc_fd refuse
sys_close io argv retv = do
  args ← deref_mem_ptr argv 8
  ret ← deref_mem_ptr retv 8
  elim args [
    | none ↦ refuse ret efault
    | some a ↦ elim ret [
      | none ↦ refuse none efault
      | some r ↦ do
        handle ← lref 8 a
        let fd_idx = (handle + 2 ^ 64 - 1) % 2 ^ 32
        n_fds ← gets (λ vm. length vm.fds)
        if ltb n_fds fd_idx then refuse (some r) ebadf else (do
          f ← fd_at fd_idx
          if not f.used then refuse (some r) ebadf else (do
            set_lref 8 r 0
            elim (io.close f.fd) [
              | done t ↦ pure tt
              | failed errno ↦ do set_error errno; set_lref 8 r 1
            ]
            dealloc_fd io fd_idx))
    ]
  ]

-- What `get_io_task_params` gives
pub record TaskParams : Type 0 where
  pub ret : ℕ
  pub fd_idx : ℕ
  pub ptr : ℕ
  pub len : ℕ
  pub f_ptr : ℕ
  pub args_ptr : ℕ

abbrev pub refuse_task : (ret : Option ℕ) → (err : ℕ) → M (Option TaskParams)
refuse_task ret err = do refuse ret err; pure none

-- The checks behind that of the descriptor
unfoldable pub check_task : (a r fd_idx : ℕ) → M (Option TaskParams)
unfolding refuse
check_task a r fd_idx = do
  ptr ← lref 4 (a + 8)
  len64 ← lref 8 (a + 12)
  let len = len64 % 2 ^ 32
  buf ← gets (deref ptr len)
  elim buf [
    | none ↦ refuse_task (some r) efault
    | some p ↦ do
      args_ptr ← lref 4 (a + 20)
      cb_args ← gets (deref args_ptr 32)
      elim cb_args [
        | none ↦ refuse_task (some r) efault
        | some q ↦ do
          f_ptr ← lref 4 (a + 24)
          codesz ← gets (λ vm. vm.code.size)
          if leb codesz f_ptr
              then refuse_task (some r) einval
              else pure (
                  some (record {
                    ret = r;
                    fd_idx = fd_idx;
                    ptr = ptr;
                    len = len;
                    f_ptr = f_ptr;
                    args_ptr = args_ptr;
                  }))
      ]
  ]

unfoldable pub get_io_task_params : (argv retv : ℕ) → M (Option TaskParams)
unfolding fd_at refuse check_task
get_io_task_params argv retv = do
  args ← deref_mem_ptr argv 40
  ret ← deref_mem_ptr retv 8
  elim args [
    | none ↦ refuse_task ret efault
    | some a ↦ elim ret [
      | none ↦ refuse_task none efault
      | some r ↦ do
        fd_arg ← lref 8 a
        let fd_idx = (fd_arg + 2 ^ 64 - 1) % 2 ^ 32
        n_fds ← gets (λ vm. length vm.fds)
        if leb n_fds fd_idx then refuse_task (some r) ebadf else (do
          f ← fd_at fd_idx
          if not f.used then refuse_task (some r) ebadf else check_task a r fd_idx)
    ]
  ]

-- `sys_read` and `sys_write` are the same but for the flag and the handler.
unfoldable pub add_task : (flags : ℕ) → Activate → Option TaskParams → M (Unit {0})
unfolding alloc_event
add_task flags activate none = pure tt
add_task flags activate (some t) = do
  alloc_event t.fd_idx (record {
    flags = flags;
    activate = activate;
    payload = io_mem t.ptr t.len (record { callback = t.f_ptr; args = t.args_ptr });
  })
  set_lref 8 t.ret 0

unfoldable pub sys_read : (argv retv : ℕ) → M (Unit {0})
unfolding get_io_task_params add_task
sys_read argv retv = do t ← get_io_task_params argv retv; add_task io_evt_select_read read_io t

unfoldable pub sys_write : (argv retv : ℕ) → M (Unit {0})
unfolding get_io_task_params add_task
sys_write argv retv = do t ← get_io_task_params argv retv; add_task io_evt_select_write write_io t
