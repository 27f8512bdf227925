-- ===== src/Vm/CallStack.antt =====
-- The call stack of src/vm.c: pushing and popping entries within the block that holds them.
use bvgz_vm.Common.{
  ℕ, suc, ◌+◌, ◌*◌, ◌^◌, ◌≤◌, ◌<◌, ◌≡◌, refl, none, some, List, ◌∷◌, arith, ltb, length,
  if◌then◌else◌,
}
use bvgz_vm.Vm.{Proc, Fcall}
use bvgz_vm.Vm.Procedures.{
  fcall_sz, func_stack_alloc_sz, push_call_stack, pop_call_stack, shrink_call_stack, fresh_proc,
}

-- The block has room for `cstack_alloc` entries, which are more than the live ones. The bound keeps
-- the next growth within `uint32_t`.
pub record IsSound (p : Proc) : Type 0 where
  pub block : p.cstack_bytes ≡ fcall_sz * p.cstack_alloc
  pub live : length p.cstack ≤ p.cstack_alloc
  pub room : p.cstack_alloc + func_stack_alloc_sz < 2 ^ 32

pub fresh_proc-IsSound : (iptr : ℕ) → IsSound (fresh_proc iptr)
fresh_proc-IsSound iptr = record { block = refl; live = omega arith; room = omega arith }

-- The procedure after a push.
abbrev pub pushed : Proc → (retval args ret_address : ℕ) → Proc
pushed p retval args ret_address =
    let entry : Fcall = record { retval = retval; args = args; ret_address = ret_address } in
    if ltb p.cstack_alloc (length p.cstack + 1)
    then record p {
      cstack = entry ∷ p.cstack;
      cstack_alloc = p.cstack_alloc + func_stack_alloc_sz;
      cstack_bytes = fcall_sz * (p.cstack_alloc + func_stack_alloc_sz);
    }
    else record p { cstack = entry ∷ p.cstack }

module _ (p : Proc) (sound : IsSound p) (retval args ret_address : ℕ) where
  pub push-pushed :
      push_call_stack p retval args ret_address ≡ some (pushed p retval args ret_address)
  unfolding push_call_stack
  push-pushed = ground arith

  pub pushed_fits :
      (length (pushed p retval args ret_address).cstack
        ≤ (pushed p retval args ret_address).cstack_alloc)
      × ((pushed p retval args ret_address).cstack_bytes
          ≡ fcall_sz * (pushed p retval args ret_address).cstack_alloc)
  pushed_fits = ground arith

pub pushed_cstack :
    (p : Proc) (retval args ret_address : ℕ)
    → (pushed p retval args ret_address).cstack
      ≡ record { retval = retval; args = args; ret_address = ret_address } ∷ p.cstack
pushed_cstack p retval args ret_address = ground arith

-- A pop from a sound stack gives the return address of the top entry and leaves the others.
pub pop-top :
    (p : Proc) (top : Fcall) (rest : List Fcall)
    → p.cstack ≡ top ∷ rest
    → fcall_sz * suc (length rest) ≤ p.cstack_bytes
    → pop_call_stack p ≡ some (top.ret_address, shrink_call_stack p rest)
unfolding pop_call_stack
pop-top p top rest e h = ground arith

pub shrink_cstack : (p : Proc) (rest : List Fcall) → (shrink_call_stack p rest).cstack ≡ rest
unfolding shrink_call_stack
shrink_cstack p rest = ground arith

-- A pop that gives memory back leaves a block of as many bytes as there should be entries: where
-- a sound stack has two entries or more, has 96 entries of room too many behind the first pop,
-- and has more entries left than the block has bytes for, the next pop reads behind the block.
pub pop_twice_faults :
    (p : Proc) (top below : Fcall) (rest : List Fcall)
    → IsSound p
    → p.cstack ≡ top ∷ below ∷ rest
    → length (below ∷ rest) + 96 ≤ p.cstack_alloc
    → p.cstack_alloc < fcall_sz * length (below ∷ rest) + func_stack_alloc_sz
    → (q : Proc) × (pop_call_stack p ≡ some (top.ret_address, q)) × (pop_call_stack q ≡ none)
unfolding pop_call_stack shrink_call_stack
pop_twice_faults p top below rest sound e shrinks big =
    (shrink_call_stack p (below ∷ rest), ground arith, ground arith)
