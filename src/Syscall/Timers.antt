-- ===== src/Syscall/Timers.antt =====
-- src/timers.c: the procedures of the timers that have expired are started.
pub mod Sweeping
pub mod Arrays
use bvgz_vm.Common.{
  ℕ, zero, suc, ◌+◌, ◌-◌, ◌%◌, ◌^◌, Bool, true, false, Option, none, some, List, ltb, leb, ◌==◌,
  ◌||◌, ◌&&◌, if◌then◌else◌, length, get_elem?, set, not, [], ◌∷◌,
}
use bvgz_vm.Vm.{Vm, Timer, M, with_error}
use bvgz_vm.Vm.Procedures.{make_procedure}
use bvgz_vm.Syscall.{ClockReading, time, clock_error}

-- A signed 64-bit pattern, shifted so that the order of the numbers is the order of the integers.
abbrev pub biased : ℕ → ℕ
biased x = (x + 2 ^ 63) % 2 ^ 64

-- `TIMESPEC_GREATER_EQUAL`
abbrev pub timespec_greater_equal : (sec nsec sec' nsec' : ℕ) → Bool
timespec_greater_equal sec nsec sec' nsec' =
    ltb (biased sec') (biased sec) || (sec == sec' && leb (biased nsec') (biased nsec))

abbrev pub expired : (sec nsec : ℕ) → Timer → Bool
expired sec nsec t = timespec_greater_equal sec nsec t.tv_sec t.tv_nsec

-- The first `n` entries, which `realloc` keeps.
unfoldable pub first : ℕ → List Timer → List Timer
first zero ts = []
first (suc n) [] = []
first (suc n) (t ∷ ts) = t ∷ first n ts

-- The variables of the loop, with `vm->timers` as the array that it overwrites.
pub record Sweep : Type 0 where
  pub i : ℕ
  pub n_timers : ℕ
  pub events : ℕ
  pub array : List Timer
  pub vm : Vm

-- One round: an expired timer is overwritten by the last one, and `i` stays where it is.
unfoldable pub sweep_round : (sec nsec : ℕ) → Timer → Sweep → Sweep
sweep_round sec nsec tmr s =
    if expired sec nsec tmr
    then record s {
      n_timers = s.n_timers - 1;
      events = s.events + 1;
      array =
          if ltb (s.i + 1) s.n_timers
          then elim (get_elem? s.array (s.n_timers - 1)) [
            | none ↦ s.array
            | some last ↦ set s.array s.i last
          ]
          else s.array;
      vm = (make_procedure tmr.iptr s.vm).1;
    }
    else record s { i = s.i + 1 }

-- The fuel is the number of timers; `none` is a read behind the array, or the end of the fuel.
unfoldable pub sweep : ℕ → (sec nsec : ℕ) → Sweep → Option Sweep
sweep zero sec nsec s = if ltb s.i s.n_timers then none else some s
sweep (suc fuel) sec nsec s = elim (ltb s.i s.n_timers) [
  | false ↦ some s
  | true ↦ elim (get_elem? s.array s.i) [
    | none ↦ none
    | some tmr ↦ sweep fuel sec nsec (sweep_round sec nsec tmr s)
  ]
]

abbrev pub sweep_start : Vm → Sweep
sweep_start v = record { i = 0; n_timers = length v.timers; events = 0; array = v.timers; vm = v }

-- The loop, and the new length of the array.
unfoldable pub fire_at : (sec nsec : ℕ) → M ℕ
fire_at sec nsec vm = elim (sweep (length vm.timers) sec nsec (sweep_start vm)) [
  | none ↦ none
  | some s ↦ some (s.events, record (s.vm) { timers = first s.n_timers s.array })
]

-- A clock that fails leaves the time at zero.
unfoldable pub fire_timer_events : ClockReading → M ℕ
fire_timer_events (time sec nsec) vm = fire_at sec nsec vm
fire_timer_events (clock_error e) vm = fire_at 0 0 (with_error e vm)

unfoldable pub has_pending_timer_events : Vm → Bool
has_pending_timer_events vm = ltb 0 (length vm.timers)
