-- ===== src/Syscall/Io/Table.antt =====
-- The table of descriptors of src/syscalls/syscall_io.c: what `alloc_fd` gives.

use bvgz_vm.Common.{
  ℕ, zero, suc, ◌+◌, ◌≤◌, ◌<◌, ◌^◌, ◌≡◌, ◌≢◌, refl, ◌∙◌, sym, ap, true, false, Option, none, some,
  List, [], ◌∷◌, ◌++◌, ◌==◌, length, get_elem?, set, if◌then◌else◌, arith, Bool-cases, inl, inr,
}
use bvgz_vm.Vm.{Vm, Fd, M, ◌>>=◌, ◌>>◌, asks}
use bvgz_vm.Syscall.Io.{
  fd_alloc_step, zero_fd, repeat_fd, find_unused, drop_fds, fd_at, set_fd, grow_fds, alloc_fd,
}

-- So many descriptors are in use.
abbrev pub count_used : List Fd → ℕ
count_used [] = 0
count_used (f ∷ fds) = (if f.used then 1 else 0) + count_used fds

-- `used_fds` is this number.
abbrev pub IsCounted : Vm → Type 0
IsCounted vm = vm.used_fds ≡ count_used vm.fds

count_used-within : (fds : List Fd) → count_used fds ≤ length fds
count_used-within [] = omega arith
count_used-within (f ∷ fds) = ground (arith, count_used-within fds)

-- A descriptor of the table that is not in use
record Unused (fds : List Fd) (i : ℕ) : Type 0 where
  fd : Fd
  at : get_elem? fds i ≡ some fd
  unused : fd.used ≡ false

find_unused-skip :
    (b i : ℕ) (f : Fd) (fds : List Fd)
    → f.used ≡ true
    → find_unused (b + 1) fds ≡ some (b + 1 + i)
    → find_unused b (f ∷ fds) ≡ some (b + suc i)
unfolding find_unused
find_unused-skip b i f fds e found = rw (e, found) (ap some (omega arith))

find_unused-here :
    (b : ℕ) (f : Fd) (fds : List Fd) → f.used ≡ false → find_unused b (f ∷ fds) ≡ some (b + 0)
unfolding find_unused
find_unused-here b f fds e = rw e (ap some (omega arith))

find_unused-Unused :
    (b : ℕ) (fds : List Fd)
    → count_used fds ≢ length fds
    → (i : ℕ) × (find_unused b fds ≡ some (b + i)) × Unused fds i
find_unused-Unused b [] h = absurd (h refl)
find_unused-Unused b (f ∷ fds) h = elim (Bool-cases f.used) [
  | inl e ↦
      let (i, found, u) = find_unused-Unused (b + 1) fds (λ k. h (rw e (omega (arith, k)))) in
      (
        suc i,
        find_unused-skip b i f fds e found,
        record { fd = u.fd; at = u.at; unused = u.unused },
      )
  | inr e ↦ (0, find_unused-here b f fds e, record { fd = f; at = refl; unused = e })
]

count_used-set :
    (fds : List Fd) (i : ℕ) (f g : Fd)
    → get_elem? fds i ≡ some f
    → f.used ≡ false
    → g.used ≡ true
    → count_used (set fds i g) ≡ count_used fds + 1
count_used-set [] i f g e u v = cc
count_used-set (x ∷ fds) zero f g e u v =
    rw (v, ap (λ (o : Option Fd). elim o [ none ↦ true | some y ↦ y.used ]) e ∙ u) (omega arith)
count_used-set (x ∷ fds) (suc i) f g e u v = omega (arith, count_used-set fds i f g e u v)

pub get_elem?-set :
    (fds : List Fd) (i : ℕ) (f g : Fd)
    → get_elem? fds i ≡ some f
    → get_elem? (set fds i g) i ≡ some g
get_elem?-set [] i f g e = cc
get_elem?-set (x ∷ fds) zero f g e = refl
get_elem?-set (x ∷ fds) (suc i) f g e = get_elem?-set fds i f g e

get_elem?-set_other :
    (fds : List Fd) (i j : ℕ) (g : Fd) → j ≢ i → get_elem? (set fds i g) j ≡ get_elem? fds j
get_elem?-set_other [] i j g h = refl
get_elem?-set_other (x ∷ fds) zero zero g h = absurd (h refl)
get_elem?-set_other (x ∷ fds) zero (suc j) g h = refl
get_elem?-set_other (x ∷ fds) (suc i) zero g h = refl
get_elem?-set_other (x ∷ fds) (suc i) (suc j) g h =
    get_elem?-set_other fds i j g (λ e. h (ap suc e))

drop_fds-append : (fds gs : List Fd) → drop_fds (length fds) (fds ++ gs) ≡ gs
unfolding drop_fds
drop_fds-append [] gs = refl
drop_fds-append (f ∷ fds) gs = drop_fds-append fds gs

get_elem?-append :
    (fds gs : List Fd) (i : ℕ) (f : Fd)
    → get_elem? fds i ≡ some f
    → get_elem? (fds ++ gs) i ≡ some f
get_elem?-append [] gs i f e = cc
get_elem?-append (x ∷ fds) gs zero f e = e
get_elem?-append (x ∷ fds) gs (suc i) f e = get_elem?-append fds gs i f e

get_elem?-behind :
    (fds : List Fd) (f : Fd) (gs : List Fd) → get_elem? (fds ++ f ∷ gs) (length fds) ≡ some f
get_elem?-behind [] f gs = refl
get_elem?-behind (x ∷ fds) f gs = get_elem?-behind fds f gs

pub get_elem?-end : (fds : List Fd) → get_elem? fds (length fds) ≡ none
get_elem?-end [] = refl
get_elem?-end (x ∷ fds) = get_elem?-end fds

count_used-append : (fds gs : List Fd) → count_used (fds ++ gs) ≡ count_used fds + count_used gs
count_used-append [] gs = omega arith
count_used-append (f ∷ fds) gs = omega (arith, count_used-append fds gs)

-- Where the search of `alloc_fd` starts, the table that it searches, and what it finds
record Found (vm : Vm) (i : ℕ) : Type 0 where
  begin_fd : ℕ
  table : List Fd
  searched : grow_fds vm ≡ some (begin_fd, record vm { fds = table })
  found : find_unused begin_fd (drop_fds begin_fd table) ≡ some i
  unused : Unused table i
  new : (f : Fd) → get_elem? vm.fds i ≡ some f → f.used ≡ false
  kept : (j : ℕ) (f : Fd) → get_elem? vm.fds j ≡ some f → get_elem? table j ≡ some f
  count : count_used table ≡ count_used vm.fds

find_grown : (vm : Vm) → (vm.used_fds == length vm.fds) ≡ true → Found vm (length vm.fds)
unfolding repeat_fd grow_fds
find_grown vm full = record {
  begin_fd = length vm.fds;
  table = vm.fds ++ repeat_fd fd_alloc_step;
  searched = rw full refl;
  found =
      rw (drop_fds-append vm.fds (repeat_fd fd_alloc_step))
        (find_unused-here (length vm.fds) zero_fd (repeat_fd 4) refl ∙ ap some (omega arith));
  unused = record {
    fd = zero_fd;
    at = get_elem?-behind vm.fds zero_fd (repeat_fd 4);
    unused = refl;
  };
  new = λ f e. cc (e, get_elem?-end vm.fds);
  kept = λ j f e. get_elem?-append vm.fds (repeat_fd fd_alloc_step) j f e;
  count = omega (arith, count_used-append vm.fds (repeat_fd fd_alloc_step));
}

find_old :
    (vm : Vm) (i : ℕ)
    → (vm.used_fds == length vm.fds) ≡ false
    → find_unused 0 vm.fds ≡ some (0 + i)
    → Unused vm.fds i
    → Found vm i
unfolding grow_fds drop_fds
find_old vm i room found u = record {
  begin_fd = 0;
  table = vm.fds;
  searched = rw room refl;
  found = found ∙ ap some (omega arith);
  unused = u;
  new = λ f e.
      ap (λ (o : Option Fd). elim o [ none ↦ false | some y ↦ y.used ]) (sym e ∙ u.at) ∙ u.unused;
  kept = λ j f e. e;
  count = refl;
}

find : (vm : Vm) → IsCounted vm → (i : ℕ) × Found vm i
find vm h = elim (Bool-cases (vm.used_fds == length vm.fds)) [
  | inl full ↦ (length vm.fds, find_grown vm full)
  | inr room ↦
      let (i, found, u) = find_unused-Unused 0 vm.fds (λ e. absurd (ground arith)) in
      (i, find_old vm i room found u)
]

abbrev taken : Fd → Fd
taken f = record f { used = true; on_close = false }

pub bind-some :
    {A B : Type 0} (m : M A) (f : A → M B) (vm vm' : Vm) (a : A) (r : Option (B × Vm))
    → m vm ≡ some (a, vm')
    → f a vm' ≡ r
    → (m >>= f) vm ≡ r
bind-some m f vm vm' a r e e' = rw (◌>>=◌, e) e'

alloc_fd-Found :
    (vm : Vm) (i : ℕ) (k : Found vm i)
    → vm.used_fds + 1 < 2 ^ 32
    → alloc_fd vm
      ≡ some (i, record vm { fds = set k.table i (taken k.unused.fd); used_fds = vm.used_fds + 1 })
unfolding alloc_fd fd_at set_fd
alloc_fd-Found vm i k small =
    bind-some grow_fds _ vm (record vm { fds = k.table }) k.begin_fd _ k.searched
      (rw (◌>>=◌, ◌>>◌, asks, fd_at, k.found, k.unused.at)
        (ap (λ n. some (i, record vm { fds = set k.table i (taken k.unused.fd); used_fds = n }))
          (omega arith)))

-- Where `used_fds` counts the descriptors in use, `alloc_fd` never aborts: it gives a descriptor that was not
-- in use, which is in use then; the others in the table stay as they are, and `used_fds` still
-- counts the ones in use. The number of them is below 2^32 - 1.
pub alloc_fd_lem :
    (vm : Vm)
    → IsCounted vm
    → vm.used_fds + 1 < 2 ^ 32
    → (i : ℕ) × (after : Vm) × (f : Fd) × (alloc_fd vm ≡ some (i, after))
      × ((g : Fd) → get_elem? vm.fds i ≡ some g → g.used ≡ false)
      × (get_elem? after.fds i ≡ some f)
      × (f.used ≡ true)
      × ((j : ℕ) (g : Fd) → j ≢ i → get_elem? vm.fds j ≡ some g → get_elem? after.fds j ≡ some g)
      × IsCounted after
alloc_fd_lem vm h small =
    let (i, k) = find vm h in
    let f = taken k.unused.fd in
    (
      i,
      record vm { fds = set k.table i f; used_fds = vm.used_fds + 1 },
      f,
      alloc_fd-Found vm i k small,
      k.new,
      get_elem?-set k.table i k.unused.fd f k.unused.at,
      refl,
      (λ j g ne e. get_elem?-set_other k.table i j f ne ∙ k.kept j g e),
      omega (
        arith,
        h,
        k.count,
        count_used-set k.table i k.unused.fd f k.unused.at k.unused.unused refl,
      ),
    )
