-- ===== src/Instn.antt =====
-- Decoded instructions and their operands: src/instns/instn.h and `arg_value` of
-- src/instns/instn_impl.h. The handlers are in the children.
pub mod Table
pub mod Alu
pub mod Words
pub mod Arith
pub mod Bitwise
pub mod Logic
pub mod Access
pub mod Calls
pub mod Pointers
pub mod Control
use bvgz_vm.Common.{
  ℕ, zero, suc, ◌+◌, ◌*◌, ◌/◌, ◌%◌, ◌^◌, Bool, Option, none, some, ◌==◌, if◌then◌else◌,
}
use bvgz_vm.Vm.{M, Vm, pure, undefined, ◌>>=◌, ◌>>◌, lref, set_lref}

-- One member of the union `args[i]`: an immediate value, or a pointer `vm->memory + offset`.
pub data Arg : Type 0 where
  imm : ℕ → Arg
  ref : ℕ → Arg

-- `instn_t`
pub record Instn : Type 0 where
  pub code : ℕ
  pub arg_sizes : ℕ
  pub arg0 : Arg
  pub arg1 : Arg
  pub arg2 : Arg

-- `args[index]`
abbrev pub arg : Instn → ℕ → Arg
arg instn zero = instn.arg0
arg instn (suc zero) = instn.arg1
arg instn _ = instn.arg2

-- `code & 1 << index`
abbrev pub is_imm : ℕ → ℕ → Bool
is_imm code index = code / 2 ^ index % 2 == 1

-- `1 << ((arg_sizes >> (2 * index)) & 3)`
abbrev pub imm_size : ℕ → ℕ → ℕ
imm_size arg_sizes index = 2 ^ (arg_sizes / 4 ^ index % 4)

-- The member of the union that the `switch` reads.
abbrev pub member : ℕ → ℕ → ℕ
member size v =
    if size == 1
    then v % 2 ^ 8
    else if size == 2
    then v % 2 ^ 16
    else if size == 4
    then v % 2 ^ 32
    else v

-- A host pointer read as a number has no value in the model, and a number no pointer.
abbrev pub union_value : ℕ → Arg → M ℕ
union_value size (imm v) = pure (member size v)
union_value size (ref a) = undefined

-- `lref64(instn->args[i].ptr)` and its kin, as a value and as a target
unfoldable pub read_arg : ℕ → Arg → M ℕ
read_arg n (imm v) = undefined
read_arg n (ref a) = lref n a

unfoldable pub write_arg : ℕ → Arg → ℕ → M (Unit {0})
write_arg n (imm v) x = undefined
write_arg n (ref a) x = set_lref n a x

unfoldable pub arg_value : Instn → ℕ → M ℕ
arg_value instn index =
    if is_imm instn.code index
    then union_value (imm_size instn.arg_sizes index) (arg instn index)
    else read_arg 8 (arg instn index)
