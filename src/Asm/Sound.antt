-- ===== src/Asm/Sound.antt =====
-- What every operation of src/parser.c keeps: the memory in use stands in its block, and each
-- instruction is one of the table with as many arguments as it takes, sized by their types.
pub mod Arg
pub mod Instruction
pub mod Memory
pub mod Data
pub mod Directive
pub mod Lines
use bvgz_vm.Common.{
  ℕ, ◌%◌, ◌^◌, ◌≤◌, ◌<◌, ◌≡◌, Bool, true, false, List, [], ◌∷◌, Option, none, some, length,
  get_elem?, All, if◌then◌else◌,
}
use bvgz_vm.Memory.{Block}
use bvgz_vm.Vm.{minus_one32}
use bvgz_vm.Instn.Table.{InstnDef, instn_defs}
use bvgz_vm.Codegen.{PrsInstn, ◌>>=◌}
use bvgz_vm.Codegen.Emission.{AllSized}
use bvgz_vm.Asm.{Parse}

-- Whole steps of an even size keep the size of the block even.
abbrev pub IsFitting : Block → (memsz : ℕ) → Type 0
IsFitting b memsz = (memsz ≤ b.size) × (b.size < 2 ^ 32) × (b.size % 2 ≡ 0)

abbrev pub IsEntry : InstnDef → Type 0
IsEntry d = get_elem? instn_defs d.opcode ≡ some d

abbrev pub IsAssembled : PrsInstn → Type 0
IsAssembled p =
    IsEntry p.instn
    × (length p.args ≡ p.instn.arg_count)
    × AllSized p.args
    × (p.mem_offset ≡ minus_one32)

abbrev pub IsSound : Parse → Type 0
IsSound r = IsFitting r.memory r.memsz × All IsAssembled r.instns

module _ {ℓ κ} {A : Type ℓ} where
  -- Where there is a result, it has the property.
  abbrev pub Ensures : (A → Type κ) → Option A → Type κ
  Ensures P none = Unit
  Ensures P (some a) = P a

  pub Ensures-eq : (P : A → Type κ) (m : Option A) (a : A) → Ensures P m → m ≡ some a → P a
  Ensures-eq P m a h e = rw e at h

  pub cond-Ensures :
      (P : A → Type κ) (b : Bool) (m n : Option A)
      → Ensures P m
      → Ensures P n
      → Ensures P (if b then m else n)
  cond-Ensures P true m n h k = h
  cond-Ensures P false m n h k = k

pub weaken-Ensures {ℓ κ μ} :
    {A : Type ℓ} (P : A → Type κ) (Q : A → Type μ) (m : Option A)
    → Ensures P m
    → ((a : A) → P a → Q a)
    → Ensures Q m
weaken-Ensures P Q none h k = tt
weaken-Ensures P Q (some a) h k = k a h

pub bind-Ensures {ℓ κ μ ν} :
    {A : Type ℓ} {B : Type μ} (P : A → Type κ) (Q : B → Type ν) (m : Option A) (f : A → Option B)
    → Ensures P m
    → ((a : A) → P a → Ensures Q (f a))
    → Ensures Q (m >>= f)
bind-Ensures P Q none f h k = tt
bind-Ensures P Q (some a) f h k = k a h

-- A step of which nothing is asked, and one behind it.
pub any-Ensures {ℓ μ ν} :
    {A : Type ℓ} {B : Type μ} (Q : B → Type ν) (m : Option A) (f : A → Option B)
    → ((a : A) → Ensures Q (f a))
    → Ensures Q (m >>= f)
any-Ensures Q none f k = tt
any-Ensures Q (some a) f k = k a
