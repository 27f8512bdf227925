-- ===== src/Vm/Access.antt =====
-- What the accesses `lref` and `set_lref` of the machine's memory do where they stay in its block.
use bvgz_vm.Common.{ℕ, ◌+◌, ◌%◌, ◌^◌, ◌≤◌, ◌<◌, ◌≡◌, refl, ◌⊎◌, inl, inr, some, arith, none}
use bvgz_vm.Memory.{load, store, read_le, write_le}
use bvgz_vm.Memory.Access.{write_le-below, write_le-above, read_le-write_le}
use bvgz_vm.Vm.{Vm, lref, set_lref}

-- The state with the `n` bytes at `d` overwritten.
abbrev pub written : (n d v : ℕ) → Vm → Vm
written n d v vm = record vm {
  memory = record (vm.memory) { cell = write_le n v vm.memory.cell d };
}

module _ (n d : ℕ) (vm : Vm) (fits : d + n ≤ vm.memory.size) where
  pub set_lref-written : (v : ℕ) → set_lref n d v vm ≡ some (tt, written n d v vm)
  unfolding set_lref store
  set_lref-written v = ground arith

  pub lref-read_le : lref n d vm ≡ some (read_le n vm.memory.cell d, vm)
  unfolding lref load
  lref-read_le = ground arith

module _ (n d v : ℕ) (vm : Vm) where
  -- The word is read back, cut to its width.
  pub lref-written :
      d + n ≤ vm.memory.size → lref n d (written n d v vm) ≡ some (v % 256 ^ n, written n d v vm)
  lref-written fits =
      rw (lref-read_le n d (written n d v vm) fits, read_le-write_le n v vm.memory.cell d)

  pub written_elsewhere :
      (q : ℕ) → (q < d) ⊎ (d + n ≤ q) → (written n d v vm).memory.cell q ≡ vm.memory.cell q
  written_elsewhere q (inl h) = write_le-below n v vm.memory.cell d q h
  written_elsewhere q (inr h) = write_le-above n v vm.memory.cell d q h

-- Behind the block there is nothing to read or to write.
pub set_lref_outside : (n d v : ℕ) (vm : Vm) → vm.memory.size < d + n → set_lref n d v vm ≡ none
unfolding set_lref store
set_lref_outside n d v vm h = ground arith

-- What an instruction with a destination leaves: the word at `d`, and nothing else, has changed.
pub record Assigned (d v : ℕ) (before after : Vm) : Type 0 where
  pub value : lref 8 d after ≡ some (v % 2 ^ 64, after)
  pub elsewhere : (q : ℕ) → (q < d) ⊎ (d + 8 ≤ q) → after.memory.cell q ≡ before.memory.cell q
  pub size : after.memory.size ≡ before.memory.size
  pub frame : after ≡ record before { memory = after.memory }

pub written-Assigned :
    (d v : ℕ) (vm : Vm) → d + 8 ≤ vm.memory.size → Assigned d v vm (written 8 d v vm)
written-Assigned d v vm fits = record {
  value = lref-written 8 d v vm fits;
  elsewhere = written_elsewhere 8 d v vm;
  size = refl;
  frame = refl;
}
