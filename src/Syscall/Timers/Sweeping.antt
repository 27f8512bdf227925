-- ===== src/Syscall/Timers/Sweeping.antt =====
-- What `fire_timer_events` of src/timers.c does to the timers: the ones that have expired are removed,
-- and no other.

use mathlib.Core.Path.{subst}
use bvgz_vm.Vm.Procedures.{make_procedure}
use bvgz_vm.Common.{
  ap, eq_of_some, ℕ, zero, suc, ◌+◌, ◌-◌, ◌≤◌, ◌<◌, ◌≡◌, ◌∙◌, sym, Bool, true, false, some, List,
  ltb, if◌then◌else◌, length, get_elem?, set, arith, Bool-cases, inl, inr,
}
use bvgz_vm.Vm.{Vm, Timer}
use bvgz_vm.Syscall.Timers.{expired, first, Sweep, sweep_round, sweep, sweep_start, fire_at}
use bvgz_vm.Syscall.Timers.Arrays.{
  count, hits, length-first, first_all, length-set, get_elem?-set_below, get_elem?_within,
  count-first-suc, count-first-set, get_elem?-first,
}

-- The invariant of the loop.
record IsSwept (sec nsec : ℕ) (timers : List Timer) (s : Sweep) : Type 0 where
  within : s.i ≤ s.n_timers
  room : s.n_timers ≤ length s.array
  kept : (j : ℕ) (t : Timer) → j < s.i → get_elem? s.array j ≡ some t → expired sec nsec t ≡ false
  total : s.events + s.n_timers ≡ length timers
  same :
      (q : Timer → Bool)
      → ((t : Timer) → expired sec nsec t ≡ true → q t ≡ false)
      → count q (first s.n_timers s.array) ≡ count q timers

module _ (sec nsec : ℕ) (timers : List Timer) where
  -- An expired timer is overwritten by the last one.
  count-removed :
      (q : Timer → Bool) (n i : ℕ) (array : List Timer) (t last : Timer)
      → i < suc n
      → get_elem? array i ≡ some t
      → get_elem? array n ≡ some last
      → q t ≡ false
      → count q (first n (if ltb (i + 1) (suc n) then set array i last else array))
        ≡ count q (first (suc n) array)
  count-removed q n i array t last lt at at_end out = elim (Bool-cases (ltb (i + 1) (suc n))) [
    | inl e ↦ rw e (
        omega (
          arith,
          count-first-set q n i array t last (ground arith) at,
          count-first-suc q n array last at_end,
          hit_none t q out,
        ))
    | inr e ↦
        let same : i ≡ n = ground arith in
        rw e (omega (arith, count-first-suc q n array t (rw same at at), hit_none t q out))
  ]
    where
      hit_none : (t : Timer) (q : Timer → Bool) → q t ≡ false → hits q t ≡ 0
      hit_none t q e = rw e

  -- The loop's variables once the timer at `i` is removed.
  abbrev removed : Sweep → Timer → Timer → Sweep
  removed s t last = record s {
    n_timers = s.n_timers - 1;
    events = s.events + 1;
    array = if ltb (s.i + 1) s.n_timers then set s.array s.i last else s.array;
    vm = (make_procedure t.iptr s.vm).1;
  }

  removed-IsSwept :
      (s : Sweep) (t last : Timer)
      → IsSwept sec nsec timers s
      → s.i < s.n_timers
      → get_elem? s.array s.i ≡ some t
      → get_elem? s.array (s.n_timers - 1) ≡ some last
      → expired sec nsec t ≡ true
      → IsSwept sec nsec timers (removed s t last)
  removed-IsSwept s t last swept lt at got e =
      let n : ℕ = s.n_timers - 1 in
      let m : s.n_timers ≡ suc n = omega arith in
      record {
        within = omega arith;
        room = ground (arith, length-set s.array s.i last, swept.room);
        kept = λ j u h at_j.
            swept.kept j u h (ground (arith, get_elem?-set_below s.array s.i j last h, at_j));
        total = omega (arith, swept.total);
        same = λ q out.
            ap (λ k. count q (first n (if ltb (s.i + 1) k then set s.array s.i last else s.array)))
              m
            ∙ count-removed q n s.i s.array t last (omega arith) at got (out t e)
            ∙ ap (λ k. count q (first k s.array)) (sym m)
            ∙ swept.same q out;
      }

  kept_next :
      (s : Sweep) (t : Timer)
      → IsSwept sec nsec timers s
      → get_elem? s.array s.i ≡ some t
      → expired sec nsec t ≡ false
      → (j : ℕ) (u : Timer) → j < s.i + 1
      → get_elem? s.array j ≡ some u
      → expired sec nsec u ≡ false
  kept_next s t swept at e j u h at_j = elim (Bool-cases (ltb j s.i)) [
    | inl below ↦ swept.kept j u (ground arith) at_j
    | inr last ↦
        let same : j ≡ s.i = ground arith in
        let found = rw same at at_j in rw⁻¹ (eq_of_some (sym at ∙ found)) e
  ]

  sweep_round-IsSwept :
      (s : Sweep) (t : Timer)
      → IsSwept sec nsec timers s
      → s.i < s.n_timers
      → get_elem? s.array s.i ≡ some t
      → IsSwept sec nsec timers (sweep_round sec nsec t s)
  unfolding sweep_round
  sweep_round-IsSwept s t swept lt at = elim (Bool-cases (expired sec nsec t)) [
    | inl e ↦
        let (last, got) = get_elem?_within s.array (s.n_timers - 1) (omega (arith, swept.room)) in
        let shape : sweep_round sec nsec t s ≡ removed s t last = rw (e, got) in
        subst (IsSwept sec nsec timers) (sym shape) (removed-IsSwept s t last swept lt at got e)
    | inr e ↦
        let shape : sweep_round sec nsec t s ≡ record s { i = s.i + 1 } = rw e in
        subst (IsSwept sec nsec timers) (sym shape) (record {
          within = omega arith;
          room = swept.room;
          kept = λ j u h at_j. kept_next s t swept at e j u h at_j;
          total = swept.total;
          same = swept.same;
        })
  ]

  sweep_round_shorter :
      (s : Sweep) (t : Timer) (fuel : ℕ)
      → s.i < s.n_timers
      → s.n_timers ≤ s.i + suc fuel
      → (sweep_round sec nsec t s).n_timers ≤ (sweep_round sec nsec t s).i + fuel
  unfolding sweep_round
  sweep_round_shorter s t fuel lt h = elim (Bool-cases (expired sec nsec t)) [
    | inl e ↦ rw e (omega arith)
    | inr e ↦ rw e (omega arith)
  ]

  sweep_step :
      (fuel : ℕ) (s : Sweep) (t : Timer)
      → s.i < s.n_timers
      → get_elem? s.array s.i ≡ some t
      → sweep (suc fuel) sec nsec s ≡ sweep fuel sec nsec (sweep_round sec nsec t s)
  unfolding sweep
  sweep_step fuel s t lt at = ground (arith, at)

  -- The loop ends within as many rounds as there are timers.
  sweep_total :
      (fuel : ℕ) (s : Sweep)
      → IsSwept sec nsec timers s
      → s.n_timers ≤ s.i + fuel
      → (r : Sweep) × (sweep fuel sec nsec s ≡ some r)
        × IsSwept sec nsec timers r
        × (r.i ≡ r.n_timers)
  unfolding sweep
  sweep_total zero s swept h = (s, ground (arith, swept.within), swept, omega (arith, swept.within))
  sweep_total (suc fuel) s swept h = elim (Bool-cases (ltb s.i s.n_timers)) [
    | inl e ↦
        let (t, at) = get_elem?_within s.array s.i (ground (arith, swept.room)) in
        let (r, done, swept', stopped) =
          sweep_total fuel (sweep_round sec nsec t s)
            (sweep_round-IsSwept s t swept (ground arith) at)
            (sweep_round_shorter s t fuel (ground arith) h) in
        (r, sweep_step fuel s t (ground arith) at ∙ done, swept', stopped)
    | inr e ↦ (s, ground (arith, e), swept, ground (arith, swept.within))
  ]

fire_at_swept :
    (sec nsec : ℕ) (vm : Vm) (r : Sweep)
    → sweep (length vm.timers) sec nsec (sweep_start vm) ≡ some r
    → fire_at sec nsec vm ≡ some (r.events, record (r.vm) { timers = first r.n_timers r.array })
unfolding fire_at
fire_at_swept sec nsec vm r done = rw (fire_at, done)

-- The timers that are left by `fire_timer_events` at a time: the call succeeds, none of them has
-- expired, every property that no expired timer has is found among them as often as before, and the
-- result is the number of the ones that are gone.
pub fire_at_removes :
    (sec nsec : ℕ) (vm : Vm)
    → (n : ℕ) × (after : Vm) × (fire_at sec nsec vm ≡ some (n, after))
      × (n + length after.timers ≡ length vm.timers)
      × ((j : ℕ) (t : Timer) → get_elem? after.timers j ≡ some t → expired sec nsec t ≡ false)
      × ((q : Timer → Bool)
          → ((t : Timer) → expired sec nsec t ≡ true → q t ≡ false)
          → count q after.timers ≡ count q vm.timers)
fire_at_removes sec nsec vm =
    let (r, done, swept, stopped) =
      sweep_total sec nsec vm.timers (length vm.timers) (sweep_start vm)
        (record {
          within = omega arith;
          room = omega arith;
          kept = λ j t h at. absurd (omega arith);
          total = omega arith;
          same = λ q out. ap (count q) (first_all vm.timers);
        })
        (omega arith) in
    (
      r.events,
      record (r.vm) { timers = first r.n_timers r.array },
      fire_at_swept sec nsec vm r done,
      omega (arith, length-first r.n_timers r.array swept.room, swept.total),
      λ j t at.
          let (lt, at') = get_elem?-first r.n_timers j r.array t at in
          swept.kept j t (omega arith) at',
      swept.same,
    )
