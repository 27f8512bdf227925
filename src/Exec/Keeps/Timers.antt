-- ===== src/Exec/Keeps/Timers.antt =====
-- The timers keep the code and the bound of the memory.
use bvgz_vm.Common.{
  ℕ, zero, suc, Bool, true, false, Option, none, some, arith, if◌then◌else◌, ltb, get_elem?,
  Bool-cases, inl, inr, length,
}
use bvgz_vm.Vm.{Vm, Timer}
use bvgz_vm.Vm.Procedures.{make_procedure}
use bvgz_vm.Syscall.{ClockReading, time, clock_error}
use bvgz_vm.Syscall.Timers.{
  Sweep, sweep, sweep_round, sweep_start, first, fire_at, fire_timer_events, expired,
}
use bvgz_vm.Exec.Keeps.{Keep, Keep-refl, Keeps, Outcome, Outcome-trans, set_error-Keeps, seq-Keeps}

pub Keep-trans : (a b c : Vm) → Keep a b → Keep b c → Keep a c
Keep-trans a b c k l = Outcome-trans {A = Unit {0}} a b (some (tt, c)) k l

make_procedure-Keep : (iptr : ℕ) (vm : Vm) → Keep vm (make_procedure iptr vm).1
unfolding make_procedure
make_procedure-Keep iptr vm = ground arith

sweep_round-Keep : (sec nsec : ℕ) (t : Timer) (s : Sweep) → Keep s.vm (sweep_round sec nsec t s).vm
unfolding sweep_round
sweep_round-Keep sec nsec t s = elim (Bool-cases (expired sec nsec t)) [
  | inl e ↦ rw e (make_procedure-Keep t.iptr s.vm)
  | inr e ↦ rw e (Keep-refl s.vm)
]

abbrev SweptFrom : Vm → Option Sweep → Type 0
SweptFrom vm none = Unit
SweptFrom vm (some r) = Keep vm r.vm

SweptFrom-trans : (a b : Vm) (o : Option Sweep) → Keep a b → SweptFrom b o → SweptFrom a o
SweptFrom-trans a b none k o = tt
SweptFrom-trans a b (some r) k o = Keep-trans a b r.vm k o

sweep-SweptFrom : (fuel sec nsec : ℕ) (s : Sweep) → SweptFrom s.vm (sweep fuel sec nsec s)
unfolding sweep
sweep-SweptFrom zero sec nsec s = go s (ltb s.i s.n_timers)
  where
    go : (s : Sweep) (b : Bool) → SweptFrom s.vm (if b then none else some s)
    go s true = tt
    go s false = Keep-refl s.vm
sweep-SweptFrom (suc fuel) sec nsec s =
    go fuel sec nsec s (λ t. sweep-SweptFrom fuel sec nsec (sweep_round sec nsec t s))
      (ltb s.i s.n_timers) (get_elem? s.array s.i)
  where
    go :
        (fuel sec nsec : ℕ) (s : Sweep)
        → ((t : Timer)
            → SweptFrom
                (sweep_round sec nsec t s).vm
                (sweep fuel sec nsec (sweep_round sec nsec t s)))
        → (b : Bool) (o : Option Timer)
        → SweptFrom s.vm (elim b [
          | false ↦ some s
          | true ↦ elim o [ none ↦ none | some t ↦ sweep fuel sec nsec (sweep_round sec nsec t s) ]
        ])
    go fuel sec nsec s rest false o = Keep-refl s.vm
    go fuel sec nsec s rest true none = tt
    go fuel sec nsec s rest true (some t) =
        SweptFrom-trans s.vm (sweep_round sec nsec t s).vm _ (sweep_round-Keep sec nsec t s)
          (rest t)

pub fire_at-Keeps : (sec nsec : ℕ) → Keeps (fire_at sec nsec)
unfolding fire_at
fire_at-Keeps sec nsec = record {
  run = λ vm. go vm _ (sweep-SweptFrom (length vm.timers) sec nsec (sweep_start vm));
}
  where
    go :
        (vm : Vm) (o : Option Sweep)
        → SweptFrom vm o
        → Outcome {A = ℕ} vm (elim o [
          | none ↦ none
          | some s ↦ some (s.events, record (s.vm) { timers = first s.n_timers s.array })
        ])
    go vm none k = tt
    go vm (some s) k = record { code = k.code; within = k.within }

pub fire_timer_events-Keeps : (c : ClockReading) → Keeps (fire_timer_events c)
unfolding fire_timer_events
fire_timer_events-Keeps (time sec nsec) = fire_at-Keeps sec nsec
fire_timer_events-Keeps (clock_error e) = seq-Keeps (set_error-Keeps e) (fire_at-Keeps 0 0)
