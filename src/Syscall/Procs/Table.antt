-- ===== src/Syscall/Procs/Table.antt =====
-- The table of child processes of src/syscalls/syscall_proc.c: what `save_child_proc` adds is what
-- `find_proc` finds.
use bvgz_vm.Common.{
  ℕ, zero, suc, ◌+◌, ◌≤◌, ◌<◌, ◌%◌, ◌^◌, ◌≡◌, ◌≢◌, refl, ◌∙◌, ap, Bool, true, false, not, Option,
  none, some, List, [], ◌∷◌, ◌++◌, leb, ◌==◌, ==_iff, length, length-append, set, if◌then◌else◌,
  arith, Bool-cases, inl, inr,
}
use bvgz_vm.Vm.{Vm, Child, M, ◌>>=◌, ◌>>◌, asks, modify}
use bvgz_vm.Syscall.Io.Table.{bind-some}
use bvgz_vm.Syscall.Procs.{
  proc_alloc, repeat_child, find_free, find_proc, grow_procs, set_child, save_child_proc,
}

-- So many entries are in use.
abbrev pub count_children : List Child → ℕ
count_children [] = 0
count_children (c ∷ cs) = (if c.used then 1 else 0) + count_children cs

abbrev pub new_child : ℕ → Child
new_child pid = record { pid = pid; used = true; exit_cb = [] }

count_children-within : (cs : List Child) → count_children cs ≤ length cs
count_children-within [] = omega arith
count_children-within (c ∷ cs) = ground (arith, count_children-within cs)

count_children-append :
    (cs ds : List Child) → count_children (cs ++ ds) ≡ count_children cs + count_children ds
count_children-append [] ds = omega arith
count_children-append (c ∷ cs) ds = omega (arith, count_children-append cs ds)

-- The place of an entry that is not in use
data FreeAt : List Child → ℕ → Type 0 where
  here : {c : Child} {cs : List Child} → c.used ≡ false → FreeAt (c ∷ cs) zero
  there : {c : Child} {cs : List Child} {i : ℕ} → FreeAt cs i → FreeAt (c ∷ cs) (suc i)

find_free-here :
    (b : ℕ) (c : Child) (cs : List Child) → c.used ≡ false → find_free b (c ∷ cs) ≡ some (b + 0)
unfolding find_free
find_free-here b c cs e = rw e (ap some (omega arith))

find_free-there :
    (b i : ℕ) (c : Child) (cs : List Child)
    → c.used ≡ true
    → find_free (b + 1) cs ≡ some (b + 1 + i)
    → find_free b (c ∷ cs) ≡ some (b + suc i)
unfolding find_free
find_free-there b i c cs e found = rw (e, found) (ap some (omega arith))

find_free-FreeAt :
    (b : ℕ) (cs : List Child)
    → count_children cs ≢ length cs
    → (i : ℕ) × (find_free b cs ≡ some (b + i)) × FreeAt cs i
find_free-FreeAt b [] h = absurd (h refl)
find_free-FreeAt b (c ∷ cs) h = elim (Bool-cases c.used) [
  | inl e ↦
      let (i, found, free) = find_free-FreeAt (b + 1) cs (λ k. h (rw e (omega (arith, k)))) in
      (suc i, find_free-there b i c cs e found, FreeAt.there free)
  | inr e ↦ (0, find_free-here b c cs e, FreeAt.here e)
]

count_children-set :
    {cs : List Child} {i : ℕ} (pid : ℕ)
    → FreeAt cs i
    → count_children (set cs i (new_child pid)) ≡ count_children cs + 1
count_children-set pid (FreeAt.here e) = rw e (omega arith)
count_children-set pid (FreeAt.there h) = omega (arith, count_children-set pid h)

find_proc-set_other :
    {cs : List Child} {i : ℕ} (pid q b : ℕ)
    → q ≢ pid
    → FreeAt cs i
    → find_proc q b (set cs i (new_child pid)) ≡ find_proc q b cs
unfolding find_proc
find_proc-set_other pid q b ne (FreeAt.here e) =
    let other : (pid == q) ≡ false = ground arith in rw (e, other) refl
find_proc-set_other pid q b ne (FreeAt.there h) = rw (find_proc-set_other pid q (b + 1) ne h) refl

-- An entry that a search passed over is passed over again.
passed_over :
    {A : Type 0} (used same : Bool) (y : A) (x x' r : Option A)
    → (if not used then x else if same then some y else x) ≡ none
    → (x ≡ none → x' ≡ r)
    → (if not used then x' else if same then some y else x') ≡ r
passed_over false same y x x' r e f = f e
passed_over true true y x x' r e f = cc
passed_over true false y x x' r e f = f e

find_proc-set :
    {cs : List Child} {i : ℕ} (pid b : ℕ)
    → FreeAt cs i
    → find_proc pid b cs ≡ none
    → find_proc pid b (set cs i (new_child pid)) ≡ some (b + i, new_child pid)
unfolding find_proc
find_proc-set pid b (FreeAt.here e) none_yet =
    let same : (pid == pid) ≡ true = (==_iff pid pid).1 refl in
    rw same (ap (λ p. some (p, new_child pid)) (omega arith))
find_proc-set pid b (FreeAt.there {c} {cs} {i} h) none_yet =
    passed_over c.used (c.pid == pid) (b, c) (find_proc pid (b + 1) cs) _ _ none_yet
      (λ e. find_proc-set pid (b + 1) h e ∙ ap (λ p. some (p, new_child pid)) (omega arith))

find_proc-append_zeros :
    (q b : ℕ) (cs : List Child) → find_proc q b (cs ++ repeat_child proc_alloc) ≡ find_proc q b cs
unfolding find_proc repeat_child
find_proc-append_zeros q b [] = refl
find_proc-append_zeros q b (c ∷ cs) = rw (find_proc-append_zeros q (b + 1) cs) refl

-- The table that `save_child_proc` searches
abbrev grown : Vm → List Child
grown vm =
    if leb (length vm.child_proc) vm.n_proc
    then vm.child_proc ++ repeat_child proc_alloc
    else vm.child_proc

-- It has a free entry, as many in use as before, and the same processes.
record HasRoom (vm : Vm) (table : List Child) : Type 0 where
  count : count_children table ≡ count_children vm.child_proc
  room : count_children table ≢ length table
  same : (q : ℕ) → find_proc q 0 table ≡ find_proc q 0 vm.child_proc

grown-HasRoom : (vm : Vm) → vm.n_proc ≡ count_children vm.child_proc → HasRoom vm (grown vm)
unfolding repeat_child
grown-HasRoom vm counted = elim (Bool-cases (leb (length vm.child_proc) vm.n_proc)) [
  | inl full ↦
      let more = count_children-append vm.child_proc (repeat_child proc_alloc) in
      rw full (record {
        count = omega (arith, more);
        room = λ e. absurd (
            omega (
              arith,
              more,
              e,
              length-append vm.child_proc (repeat_child proc_alloc),
              count_children-within vm.child_proc,
            ));
        same = λ q. find_proc-append_zeros q 0 vm.child_proc;
      })
  | inr space ↦
      rw space (record { count = refl; room = λ e. absurd (ground arith); same = λ q. refl })
]

grow_procs_lem : (vm : Vm) → grow_procs vm ≡ some (tt, record vm { child_proc = grown vm })
unfolding grow_procs repeat_child
grow_procs_lem vm = elim (Bool-cases (leb (length vm.child_proc) vm.n_proc)) [
  | inl full ↦ rw full refl
  | inr space ↦ rw space refl
]

put_child : (pid p : ℕ) → M (Unit {0})
put_child pid p = do
  set_child p (new_child pid)
  modify (λ vm. record vm { n_proc = (vm.n_proc + 1) % 2 ^ 32 })

save_child_proc-at :
    (pid : ℕ) (vm : Vm) (i : ℕ)
    → find_free 0 (grown vm) ≡ some i
    → vm.n_proc + 1 < 2 ^ 32
    → save_child_proc pid vm
      ≡ some
          (tt, record vm { child_proc = set (grown vm) i (new_child pid); n_proc = vm.n_proc + 1 })
unfolding save_child_proc put_child
save_child_proc-at pid vm i found small =
    let next : (vm.n_proc + 1) % 2 ^ 32 ≡ vm.n_proc + 1 = omega arith in
    let vm1 : Vm = record vm { child_proc = grown vm } in
    bind-some grow_procs (λ t. asks (λ v. find_free 0 v.child_proc) >>= put_child pid) vm vm1 tt _
      (grow_procs_lem vm)
      (bind-some (asks (λ v. find_free 0 v.child_proc)) (put_child pid) vm1 vm1 i _
        (rw (asks, found) refl)
        (ap
          (λ n. some (tt, record vm { child_proc = set (grown vm) i (new_child pid); n_proc = n }))
          next))

-- Where `n_proc` counts the entries in use, `save_child_proc` never aborts: the table then maps the process
-- to a new entry without callbacks, every other process to what it was mapped to, and `n_proc` still
-- counts. The process is not in the table before, and the number of entries is below 2^32 - 1.
pub save_child_proc_lem :
    (pid : ℕ) (vm : Vm)
    → vm.n_proc ≡ count_children vm.child_proc
    → vm.n_proc + 1 < 2 ^ 32
    → find_proc pid 0 vm.child_proc ≡ none
    → (p : ℕ) × (after : Vm) × (save_child_proc pid vm ≡ some (tt, after))
      × (find_proc pid 0 after.child_proc ≡ some (p, new_child pid))
      × ((q : ℕ) → q ≢ pid → find_proc q 0 after.child_proc ≡ find_proc q 0 vm.child_proc)
      × (after.n_proc ≡ count_children after.child_proc)
save_child_proc_lem pid vm counted small new =
    let k = grown-HasRoom vm counted in
    let (i, found, free) = find_free-FreeAt 0 (grown vm) k.room in
    (
      i,
      record vm { child_proc = set (grown vm) i (new_child pid); n_proc = vm.n_proc + 1 },
      save_child_proc-at pid vm i (found ∙ ap some (omega arith)) small,
      find_proc-set pid 0 free (k.same pid ∙ new) ∙ ap (λ p. some (p, new_child pid)) (omega arith),
      (λ q ne. find_proc-set_other pid q 0 ne free ∙ k.same q),
      omega (arith, counted, k.count, count_children-set pid free),
    )
