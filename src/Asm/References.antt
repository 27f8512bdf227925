-- ===== src/Asm/References.antt =====
-- `resolve_data_label_refs` and `resolve_entry_point` of src/parser.c, which the assembler calls behind
-- `parse_to_bytecode`.
pub mod Laws
use bvgz_vm.Common.{
  ℕ, zero, suc, ◌+◌, ◌-◌, ◌%◌, ◌^◌, Bool, true, false, not, ◌&&◌, ◌||◌, List, [], ◌∷◌, ◌++◌, Option,
  none, some, leb, ltb, ◌==◌, length, get_elem?, if◌then◌else◌,
}
use bvgz_vm.Vm.{minus_one32}
use bvgz_vm.Memory.{Block, store}
use bvgz_vm.Codegen.{◌>>=◌, Label, PrsInstn}
use bvgz_vm.Asm.{Parse, LabelRef, report_error}

-- What a label stands for: its offset in the memory, or that of its instruction in the code, which
-- may not be known yet. A label that no instruction follows is read behind the array.
pub data Resolved : Type 0 where
  address : ℕ → Resolved
  unresolved : Resolved

unfoldable pub resolve_label : List PrsInstn → Label → Option Resolved
resolve_label instns label =
    if label.is_mem_ref then some (address label.offset) else elim (get_elem? instns label.offset) [
      | none ↦ none
      | some p ↦ some (if p.mem_offset == minus_one32 then unresolved else address p.mem_offset)
    ]

-- `for (list_t* n = result->label_refs; n; n = n->next)`; false stands for the result -1
unfoldable pub resolve_refs : List LabelRef → Parse → Option (Bool × Parse)
unfolding resolve_label
resolve_refs [] r = some (true, r)
resolve_refs (ref ∷ refs) r = elim (r.labels ref.label) [
  | none ↦ some (false, report_error r)
  | some label ↦ elim (resolve_label r.instns label) [
    | none ↦ none
    | some unresolved ↦ some (false, report_error r)
    | some (address value) ↦
        store (if ref.size == 4 then 4 else 8) value r.memory ref.write_offset >>= λ b.
        resolve_refs refs (record r { memory = b })
  ]
]

unfoldable pub resolve_data_label_refs : Parse → Option (Bool × Parse)
unfolding resolve_refs
resolve_data_label_refs r = resolve_refs r.label_refs r

unfoldable pub resolve_entry_point : (entry_label : List ℕ) → Parse → ℕ
resolve_entry_point entry_label r = elim (r.labels entry_label) [
  | none ↦ minus_one32
  | some elbl ↦ if elbl.is_mem_ref then minus_one32 else elbl.offset
]
