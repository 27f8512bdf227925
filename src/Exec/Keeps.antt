-- ===== src/Exec/Keeps.antt =====
-- What no run of the machine changes.
pub mod Handlers
pub mod Runs
pub mod Timers
pub mod Decoding
pub mod Events
pub mod Syscalls
use bvgz_vm.Common.{
  ℕ, ◌≤◌, ◌≡◌, refl, ◌∙◌, Bool, true, false, Option, none, some, arith, if◌then◌else◌,
}
use bvgz_vm.Memory.{copy, store, load}
use bvgz_vm.Vm.{
  Vm, Proc, M, pure, undefined, ◌>>=◌, ◌>>◌, gets, asks, modify, raise, lref, set_lref,
  with_exception, with_error, set_error,
}
use bvgz_vm.Vm.Procedures.{this_proc, set_this_proc, delete_current_procedure}
use bvgz_vm.Instn.{
  Instn, arg_value, read_arg, write_arg, Arg, imm, ref, union_value, member, is_imm, imm_size, arg,
}
use bvgz_vm.Instn.Access.{deref_mem_ptr, memcpy}

-- The code is the same, and the machine counts no more memory than there is.
pub record Keep (before after : Vm) : Type 0 where
  pub code : after.code ≡ before.code
  pub within : before.memsz ≤ before.memory.size → after.memsz ≤ after.memory.size

abbrev pub Outcome : {A : Type 0} → Vm → Option (A × Vm) → Type 0
Outcome before none = Unit
Outcome before (some (a, after)) = Keep before after

pub record Keeps {A : Type 0} (m : M A) : Type 0 where
  pub run : (vm : Vm) → Outcome vm (m vm)

pub Keep-refl : (vm : Vm) → Keep vm vm
Keep-refl vm = record { code = refl; within = λ h. h }

pub Outcome-trans :
    {A : Type 0} (a b : Vm) (r : Option (A × Vm)) → Keep a b → Outcome b r → Outcome a r
Outcome-trans a b none k o = tt
Outcome-trans a b (some (x, c)) k o = record {
  code = o.code ∙ k.code;
  within = λ h. o.within (k.within h);
}

pub pure-Keeps : {A : Type 0} (a : A) → Keeps (pure a)
pure-Keeps a = record { run = Keep-refl }

pub undefined-Keeps : {A : Type 0} → Keeps {A = A} undefined
undefined-Keeps = record { run = λ vm. tt }

pub bind-Keeps :
    {A B : Type 0} {m : M A} {f : A → M B} → Keeps m → ((a : A) → Keeps (f a)) → Keeps (m >>= f)
bind-Keeps {A} {B} {m} {f} k l = record { run = λ vm. go vm (m vm) (k.run vm) }
  where
    go :
        (vm : Vm) (r : Option (A × Vm))
        → Outcome vm r
        → Outcome vm (elim r [ none ↦ none | some (a, vm') ↦ f a vm' ])
    go vm none o = tt
    go vm (some (a, vm')) o = Outcome-trans vm vm' (f a vm') o ((l a).run vm')

pub cond-Keeps :
    {A : Type 0} (b : Bool) {m n : M A} → Keeps m → Keeps n → Keeps (if b then m else n)
cond-Keeps true k l = k
cond-Keeps false k l = l

pub lref-Keeps : (n r : ℕ) → Keeps (lref n r)
unfolding lref load
lref-Keeps n r = record { run = λ vm. ground arith }

pub set_lref-Keeps : (n r v : ℕ) → Keeps (set_lref n r v)
unfolding set_lref store
set_lref-Keeps n r v = record { run = λ vm. ground arith }

pub read_arg-Keeps : (n : ℕ) (a : Arg) → Keeps (read_arg n a)
unfolding read_arg
read_arg-Keeps n (imm v) = undefined-Keeps
read_arg-Keeps n (ref a) = lref-Keeps n a

pub write_arg-Keeps : (n : ℕ) (a : Arg) (v : ℕ) → Keeps (write_arg n a v)
unfolding write_arg
write_arg-Keeps n (imm x) v = undefined-Keeps
write_arg-Keeps n (ref a) v = set_lref-Keeps n a v

pub union_value-Keeps : (n : ℕ) (a : Arg) → Keeps (union_value n a)
union_value-Keeps n (imm v) = pure-Keeps (member n v)
union_value-Keeps n (ref a) = undefined-Keeps

pub arg_value-Keeps : (instn : Instn) (i : ℕ) → Keeps (arg_value instn i)
unfolding arg_value
arg_value-Keeps instn i =
    cond-Keeps (is_imm instn.code i) (union_value-Keeps (imm_size instn.arg_sizes i) (arg instn i))
      (read_arg-Keeps 8 (arg instn i))

pub gets-Keeps : {A : Type 0} (f : Vm → A) → Keeps (gets f)
gets-Keeps f = record { run = Keep-refl }

pub asks-Keeps : {A : Type 0} (f : Vm → Option A) → Keeps (asks f)
asks-Keeps f = record { run = λ vm. go vm (f vm) }
  where
    go :
        {A : Type 0} (vm : Vm) (o : Option A)
        → Outcome vm (elim o [ none ↦ none | some a ↦ some (a, vm) ])
    go vm none = tt
    go vm (some a) = Keep-refl vm

pub option-Keeps :
    {A B : Type 0} (o : Option A) {m : M B} {f : A → M B}
    → Keeps m
    → ((a : A) → Keeps (f a))
    → Keeps (elim o [ none ↦ m | some a ↦ f a ])
option-Keeps none k l = k
option-Keeps (some a) k l = l a

pub bind_option-Keeps :
    {A B : Type 0} {m : M (Option A)} (k : Option A → M B)
    → Keeps m
    → Keeps (k none)
    → ((a : A) → Keeps (k (some a)))
    → Keeps (m >>= k)
bind_option-Keeps k h n t = bind-Keeps h (go k n t)
  where
    go :
        {A B : Type 0} (k : Option A → M B)
        → Keeps (k none)
        → ((a : A) → Keeps (k (some a)))
        → (o : Option A) → Keeps (k o)
    go k n t none = n
    go k n t (some a) = t a

pub seq-Keeps : {B : Type 0} {m : M (Unit {0})} {n : M B} → Keeps m → Keeps n → Keeps (m >> n)
seq-Keeps k l = bind-Keeps k (λ _. l)

pub modify-Keeps : (f : Vm → Vm) → ((vm : Vm) → Keep vm (f vm)) → Keeps (modify f)
modify-Keeps f k = record { run = k }

pub raise-Keeps : (e : ℕ) → Keeps (raise e)
raise-Keeps e = modify-Keeps (with_exception e) (λ vm. record { code = refl; within = λ h. h })

pub set_error-Keeps : (e : ℕ) → Keeps (set_error e)
set_error-Keeps e = modify-Keeps (with_error e) (λ vm. record { code = refl; within = λ h. h })

pub deref_mem_ptr-Keeps : (r size : ℕ) → Keeps (deref_mem_ptr r size)
unfolding deref_mem_ptr
deref_mem_ptr-Keeps r size = record { run = λ vm. ground arith }

pub this_proc-Keeps : Keeps this_proc
unfolding this_proc
this_proc-Keeps = record { run = λ vm. ground arith }

pub set_this_proc-Keeps : (p : Proc) → Keeps (set_this_proc p)
unfolding set_this_proc
set_this_proc-Keeps p = record { run = λ vm. ground arith }

pub delete_current_procedure-Keeps : Keeps delete_current_procedure
unfolding delete_current_procedure
delete_current_procedure-Keeps = record { run = λ vm. ground arith }

pub memcpy-Keeps : (d s : Arg) (n : ℕ) → Keeps (memcpy d s n)
unfolding copy
memcpy-Keeps (imm x) s n = record { run = λ vm. tt }
memcpy-Keeps (ref d) (imm y) n = record { run = λ vm. tt }
memcpy-Keeps (ref d) (ref s) n = record { run = λ vm. ground arith }

pub assert_id-Keeps : (id : ℕ) → Keeps (modify (λ vm. record vm { assert_id = id }))
assert_id-Keeps id = record { run = λ vm. record { code = refl; within = λ h. h } }

pub ruleset keep_rules = (
  pure-Keeps, undefined-Keeps, bind_option-Keeps, bind-Keeps, seq-Keeps, cond-Keeps, option-Keeps,
  gets-Keeps, asks-Keeps, raise-Keeps, set_error-Keeps, assert_id-Keeps, lref-Keeps, set_lref-Keeps,
  read_arg-Keeps, write_arg-Keeps, arg_value-Keeps, deref_mem_ptr-Keeps, this_proc-Keeps,
  set_this_proc-Keeps, memcpy-Keeps, delete_current_procedure-Keeps,
)
