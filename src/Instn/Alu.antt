-- ===== src/Instn/Alu.antt =====
-- The instructions of src/instns/instn_impl_arith.c, instn_impl_rel.c, instn_impl_bitw.c and
-- instn_impl_logc.c that compute one value from two: what they mean, and that the handlers do it.
use Prim.Native.Nat.{bit_and, bit_or, bit_xor}
use mathlib.Core.Path.{subst}
use bvgz_vm.Common.{
  ℕ, ◌+◌, ◌-◌, ◌*◌, ◌/◌, ◌%◌, ◌^◌, ◌≤◌, ◌<◌, ◌≡◌, ◌||◌, Option, none, some, arith, ltb, leb, ◌==◌,
  if◌then◌else◌, ◌∙◌,
}
use bvgz_vm.Vm.{Vm, proceed, pure, ◌>>◌}
use bvgz_vm.Vm.Access.{written, Assigned, written-Assigned, set_lref-written}
use bvgz_vm.Instn.{Instn, ref, arg_value, read_arg, write_arg}
use bvgz_vm.Instn.Table
use bvgz_vm.Instn.Table.{Op}
use bvgz_vm.Exec.{run_op}
use bvgz_vm.Syscall.{Host}

pub data Alu : Type 0 where
  add sub mul div modulo eq ne gt lt ge le l_and l_or and or xor shl shr : Alu

-- The handler with three operands.
abbrev pub three : Alu → Op
three add = Table.op_add_3
three sub = Table.op_sub_3
three mul = Table.op_mul_3
three div = Table.op_div_3
three modulo = Table.op_mod_3
three eq = Table.op_eq_3
three ne = Table.op_ne_3
three gt = Table.op_gt_3
three lt = Table.op_lt_3
three ge = Table.op_ge_3
three le = Table.op_le_3
three l_and = Table.op_l_and_3
three l_or = Table.op_l_or_3
three and = Table.op_and_3
three or = Table.op_or_3
three xor = Table.op_xor_3
three shl = Table.op_shl_3
three shr = Table.op_shr_3

-- The value, by the manual: `none` where the instruction stops or is undefined.
abbrev pub meaning : Alu → ℕ → ℕ → Option ℕ
meaning add a b = some (if ltb (a + b) (2 ^ 64) then a + b else a + b - 2 ^ 64)
meaning sub a b = some (if leb b a then a - b else 2 ^ 64 - (b - a))
meaning mul a b = some (a * b % 2 ^ 64)
meaning div a b = if b == 0 then none else some (a / b)
meaning modulo a b = if b == 0 then none else some (a % b)
meaning eq a b = some (if a == b then 1 else 0)
meaning ne a b = some (if a == b then 0 else 1)
meaning gt a b = some (if leb a b then 0 else 1)
meaning lt a b = some (if leb b a then 0 else 1)
meaning ge a b = some (if ltb a b then 0 else 1)
meaning le a b = some (if ltb b a then 0 else 1)
meaning l_and a b = some (if a == 0 || b == 0 then 0 else 1)
meaning l_or a b = some (if a + b == 0 then 0 else 1)
meaning and a b = some (bit_and a b)
meaning or a b = some (bit_or a b)
meaning xor a b = some (bit_xor a b)
meaning shl a b = if ltb b 64 then some (a * 2 ^ b % 2 ^ 64) else none
meaning shr a b = if ltb b 64 then some (a / 2 ^ b) else none

module _ (host : Host) (instn : Instn) (vm : Vm) (d a b : ℕ) where
  pub write_arg-written :
      instn.arg0 ≡ ref d
      → d + 8 ≤ vm.memory.size
      → (v : ℕ) → write_arg 8 instn.arg0 v vm ≡ some (tt, written 8 d v vm)
  unfolding write_arg
  write_arg-written dest fits v = rw dest (set_lref-written 8 d vm fits v)

  -- The handlers, once their operands are read.
  three-eval :
      (o : Alu) (v : ℕ)
      → arg_value instn 1 vm ≡ some (a, vm)
      → arg_value instn 2 vm ≡ some (b, vm)
      → a < 2 ^ 64
      → b < 2 ^ 64
      → meaning o a b ≡ some v
      → run_op host (three o) instn vm ≡ (do write_arg 8 instn.arg0 v; pure proceed) vm
  unfolding run_op
  three-eval add v p q ha hb e = ground arith
  three-eval sub v p q ha hb e = ground arith
  three-eval div v p q ha hb e = ground arith
  three-eval l_and v p q ha hb e = ground arith
  three-eval l_or v p q ha hb e = ground arith
  three-eval shl v p q ha hb e = ground arith
  three-eval o v p q ha hb e = ground arith

-- The handler with two operands, of the operations that have one.
abbrev pub two : Alu → Option Op
two add = some Table.op_add_2
two sub = some Table.op_sub_2
two mul = some Table.op_mul_2
two div = some Table.op_div_2
two modulo = some Table.op_mod_2
two l_and = some Table.op_l_and_2
two l_or = some Table.op_l_or_2
two and = some Table.op_and_2
two or = some Table.op_or_2
two xor = some Table.op_xor_2
two shl = some Table.op_shl_2
two shr = some Table.op_shr_2
two _ = none

module _ (host : Host) (instn : Instn) (vm : Vm) (d a b : ℕ) where
  -- An instruction with three operands whose sources are read as 64-bit words, and have a value
  -- by the manual, and whose destination is a reference to eight bytes of the memory: it goes on,
  -- it stores the value there, and it changes nothing else.
  pub three-Assigned :
      (o : Alu) (v : ℕ)
      → arg_value instn 1 vm ≡ some (a, vm)
      → arg_value instn 2 vm ≡ some (b, vm)
      → a < 2 ^ 64
      → b < 2 ^ 64
      → meaning o a b ≡ some v
      → instn.arg0 ≡ ref d
      → d + 8 ≤ vm.memory.size
      → (vm' : Vm) × (run_op host (three o) instn vm ≡ some (proceed, vm')) × Assigned d v vm vm'
  three-Assigned o v p q ha hb e dest fits = (
    written 8 d v vm,
    three-eval host instn vm d a b o v p q ha hb e
        ∙ cc (write_arg-written host instn vm d a b dest fits v),
    written-Assigned d v vm fits,
  )

-- A predicate of the form with two operands, where there is one.
abbrev OnTwo : Alu → (Op → Type 0) → Type 0
OnTwo o P = elim (two o) [ none ↦ Unit | some op ↦ P op ]

module _ (host : Host) (i j : Instn) (vm : Vm) (a b : ℕ) where
  two-three_aux :
      (o : Alu)
      → i.arg0 ≡ j.arg0
      → read_arg 8 i.arg0 vm ≡ some (a, vm)
      → arg_value j 1 vm ≡ some (a, vm)
      → arg_value i 1 vm ≡ some (b, vm)
      → arg_value j 2 vm ≡ some (b, vm)
      → OnTwo o (λ op. run_op host op i vm ≡ run_op host (three o) j vm)
  unfolding run_op
  two-three_aux add d p q r s = ground arith
  two-three_aux o d p q r s = ground arith

  -- The form of an operation with two operands does what the form with three does on the same
  -- destination, where the first source of the one with three has the value of the destination
  -- and the second sources have the same value; exceptions and undefined shifts are included.
  pub two-three :
      (o : Alu) (op : Op)
      → two o ≡ some op
      → i.arg0 ≡ j.arg0
      → read_arg 8 i.arg0 vm ≡ some (a, vm)
      → arg_value j 1 vm ≡ some (a, vm)
      → arg_value i 1 vm ≡ some (b, vm)
      → arg_value j 2 vm ≡ some (b, vm)
      → run_op host op i vm ≡ run_op host (three o) j vm
  two-three o op e d p q r s =
      subst
        (λ t. elim t [ none ↦ Unit | some op' ↦ run_op host op' i vm ≡ run_op host (three o) j vm ])
        e (two-three_aux o d p q r s)
