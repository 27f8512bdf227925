-- ===== src/Syscall/Timers/Arrays.antt =====
-- Counting and overwriting in the array of timers of src/timers.c.

use bvgz_vm.Common.{
  ℕ, zero, suc, ◌+◌, ◌≤◌, ◌<◌, ◌≡◌, refl, Bool, some, List, [], ◌∷◌, if◌then◌else◌, length,
  get_elem?, set, arith,
}
use bvgz_vm.Vm.{Timer}
use bvgz_vm.Syscall.Timers.{first}

-- The number of elements with the property.
abbrev pub count {ℓ} : {A : Type ℓ} → (A → Bool) → List A → ℕ
count q [] = 0
count q (x ∷ xs) = (if q x then 1 else 0) + count q xs

abbrev pub hits {ℓ} : {A : Type ℓ} → (A → Bool) → A → ℕ
hits q x = if q x then 1 else 0

pub length-first : (n : ℕ) (ts : List Timer) → n ≤ length ts → length (first n ts) ≡ n
unfolding first
length-first zero ts h = refl
length-first (suc n) [] h = absurd (omega arith)
length-first (suc n) (t ∷ ts) h = omega (arith, length-first n ts (omega arith))

pub first_all : (ts : List Timer) → first (length ts) ts ≡ ts
unfolding first
first_all [] = refl
first_all (t ∷ ts) = rw (first_all ts)

pub length-set {ℓ} : {A : Type ℓ} (xs : List A) (i : ℕ) (v : A) → length (set xs i v) ≡ length xs
length-set [] i v = refl
length-set (x ∷ xs) zero v = refl
length-set (x ∷ xs) (suc i) v = omega (arith, length-set xs i v)

pub get_elem?-set_below {ℓ} :
    {A : Type ℓ} (xs : List A) (i j : ℕ) (v : A) → j < i → get_elem? (set xs i v) j ≡ get_elem? xs j
get_elem?-set_below [] i j v h = refl
get_elem?-set_below (x ∷ xs) zero j v h = absurd (omega arith)
get_elem?-set_below (x ∷ xs) (suc i) zero v h = refl
get_elem?-set_below (x ∷ xs) (suc i) (suc j) v h = get_elem?-set_below xs i j v (omega arith)

pub get_elem?_within {ℓ} :
    {A : Type ℓ} (xs : List A) (i : ℕ) → i < length xs → (a : A) × (get_elem? xs i ≡ some a)
get_elem?_within [] i h = absurd (omega arith)
get_elem?_within (x ∷ xs) zero h = (x, refl)
get_elem?_within (x ∷ xs) (suc i) h = get_elem?_within xs i (omega arith)

pub count-first-suc :
    (q : Timer → Bool) (m : ℕ) (ts : List Timer) (t : Timer)
    → get_elem? ts m ≡ some t
    → count q (first (suc m) ts) ≡ count q (first m ts) + hits q t
unfolding first
count-first-suc q m [] t e = cc
count-first-suc q zero (u ∷ ts) t e = ground arith
count-first-suc q (suc m) (u ∷ ts) t e = omega (arith, count-first-suc q m ts t e)

pub count-first-set :
    (q : Timer → Bool) (m i : ℕ) (ts : List Timer) (t u : Timer)
    → i < m
    → get_elem? ts i ≡ some t
    → count q (first m (set ts i u)) + hits q t ≡ count q (first m ts) + hits q u
unfolding first
count-first-set q zero i ts t u h e = absurd (omega arith)
count-first-set q (suc m) i [] t u h e = cc
count-first-set q (suc m) zero (v ∷ ts) t u h e = ground arith
count-first-set q (suc m) (suc i) (v ∷ ts) t u h e =
    omega (arith, count-first-set q m i ts t u (omega arith) e)

pub get_elem?-first :
    (n j : ℕ) (ts : List Timer) (t : Timer)
    → get_elem? (first n ts) j ≡ some t
    → (j < n) × (get_elem? ts j ≡ some t)
unfolding first
get_elem?-first zero j ts t e = cc
get_elem?-first (suc n) j [] t e = cc
get_elem?-first (suc n) zero (u ∷ ts) t e = (omega arith, e)
get_elem?-first (suc n) (suc j) (u ∷ ts) t e =
    let (lt, e') = get_elem?-first n j ts t e in (omega arith, e')
