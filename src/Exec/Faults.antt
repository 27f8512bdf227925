-- ===== src/Exec/Faults.antt =====
-- Runs of src/vm_exec.c that end in undefined behaviour.
use bvgz_vm.Common.{
  ℕ, ◌*◌, ◌/◌, ◌%◌, ◌^◌, ◌<◌, ◌≡◌, refl, true, none, some, List, [], ◌∷◌, arith, length, get_elem?,
}
use bvgz_vm.Vm.{◌>>=◌, Vm, Proc, Timer, with_exception, e_bad_instn_pointer}
use bvgz_vm.Vm.Procedures.{this_proc, set_this_proc, make_procedure}
use bvgz_vm.Instn.{Instn}
use bvgz_vm.Instn.Table.{InstnDef}
use bvgz_vm.Decode.{decode_instn, decode_sizes, decode_args}
use bvgz_vm.Format.{le_bytes}
use bvgz_vm.Format.Decoding.{Holds, fetch-le_bytes, length-le_bytes}
use bvgz_vm.Syscall.Io.Events.{fire_io_events}
use bvgz_vm.Syscall.Procs.{fire_proc_events}
use bvgz_vm.Syscall.{IoHost, Waited, Host, time}
use bvgz_vm.Syscall.Timers.{
  fire_timer_events, fire_at, sweep, sweep_round, first, expired, has_pending_timer_events,
}
use bvgz_vm.Exec.{
  vm_exec_instn, vm_fire_events, has_pending_events, vm_current_procedure, fire_vm_events,
  vm_decode_instn, run_current, vm_round,
}

get_elem?_end {ℓ} : {A : Type ℓ} (xs : List A) → get_elem? xs (length xs) ≡ none
get_elem?_end [] = refl
get_elem?_end (x ∷ xs) = get_elem?_end xs

fire_io_quiet : (io : IoHost) (vm : Vm) → vm.n_io_events ≡ 0 → fire_io_events io vm ≡ some (0, vm)
unfolding fire_io_events
fire_io_quiet io vm e = rw (◌>>=◌, e) refl

fire_proc_quiet :
    (ws : List Waited) (n : ℕ) (vm : Vm) → vm.n_proc ≡ 0 → fire_proc_events ws n vm ≡ some (n, vm)
unfolding fire_proc_events
fire_proc_quiet [] n vm e = refl
fire_proc_quiet (w ∷ ws) n vm e = rw (◌>>=◌, e) refl

module _ (host : Host) (defs : List InstnDef) (instn : Instn) (vm : Vm) where
  -- Where the table has less than 256 instructions, a procedure that stands at the opcode behind
  -- the last one crashes the machine: the decoder lets it pass, and its handler is a null
  -- pointer.
  pub sentinel_crashes :
      (proc : Proc) (rest : List Proc)
      → vm.procedures ≡ proc ∷ rest
      → length defs < 256
      → Holds vm proc.iptr (le_bytes 2 (length defs * 8))
      → vm_round host defs instn vm ≡ none
  unfolding vm_round run_current vm_current_procedure this_proc vm_decode_instn set_this_proc
      vm_exec_instn decode_instn decode_sizes decode_args
  sentinel_crashes proc rest current few holds =
      let start : Vm = record vm { iptr = proc.iptr } in
      let word = fetch-le_bytes start 2 (length defs * 8) proc.iptr holds in
      let value : length defs * 8 % 256 ^ 2 ≡ length defs * 8 = omega arith in
      let index : length defs * 8 / 2 ^ 3 ≡ length defs = omega arith in
      let index' : length defs * 8 / 2 ^ 3 % 2 ^ 8 ≡ length defs = omega arith in
      ground (
        arith,
        current,
        rw value at word,
        index,
        index',
        get_elem?_end defs,
        holds.1,
        length-le_bytes 2 (length defs * 8),
      )

  fire_end_timer :
      (t : Timer) (sec nsec : ℕ)
      → vm.timers ≡ t ∷ []
      → t.iptr ≡ vm.code.size
      → expired sec nsec t ≡ true
      → fire_at sec nsec vm
        ≡ some (1, record (with_exception e_bad_instn_pointer vm) { timers = [] })
  unfolding fire_at sweep sweep_round first make_procedure
  fire_end_timer t sec nsec one at_end due = ground (arith, one, at_end, due)

  -- A machine without procedures whose one timer has expired and starts at the address behind the
  -- code, and which waits for no descriptor and has no child process, crashes: no procedure is made, the event is
  -- counted all the same, and the head of the empty list is read.
  pub end_timer_crashes :
      (t : Timer) (sec nsec : ℕ)
      → vm.procedures ≡ []
      → vm.timers ≡ t ∷ []
      → t.iptr ≡ vm.code.size
      → host.idle_clock ≡ time sec nsec
      → expired sec nsec t ≡ true
      → vm.n_io_events ≡ 0
      → vm.n_proc ≡ 0
      → vm_round host defs instn vm ≡ none
  unfolding vm_round vm_fire_events has_pending_events has_pending_timer_events fire_vm_events
      fire_timer_events run_current vm_current_procedure this_proc
  end_timer_crashes t sec nsec none_left one at_end clock due io procs =
      let fired : Vm = record (with_exception e_bad_instn_pointer vm) { timers = [] } in
      let once = fire_end_timer t sec nsec one at_end due in
      ground (
        arith,
        none_left,
        one,
        clock,
        once,
        fire_io_quiet host.idle_io fired io,
        fire_proc_quiet host.idle_waits 0 fired procs,
      )
