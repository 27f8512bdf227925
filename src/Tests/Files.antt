-- ===== src/Tests/Files.antt =====
-- An image of the small machine, and the opcodes of a small table.
use bvgz_vm.Common.{ℕ, ◌<◌, ◌≡◌, refl, some, Bool, get_elem?, List, [], ◌∷◌, arith}
use bvgz_vm.Vm.{Vm}
use bvgz_vm.Vm.Procedures.{make_vm}
use bvgz_vm.Image.{Output, write_bvgz_image_direct, read_bvgz_image}
use bvgz_vm.Image.Laws.{read_bvgz_image-write_bvgz_image_direct}
use bvgz_vm.Instn.Table.{InstnDef, op_nop_0, op_add_3, setup_instn_defs}
use bvgz_vm.Instn.Table.Order.{IsSorted, count_defs, setup_instn_defs_order}
use bvgz_vm.Tests.{cells, program}

read_bvgz_image-write_bvgz_image_direct_example :
    (fp : Output) × (vm : Vm) × (write_bvgz_image_direct
        (record { bytes = []; room = 200 })
        program
        16
        cells
        64
        4
        1
      ≡ some fp)
    × (read_bvgz_image (λ q. 170) fp.bytes ≡ some vm)
    × (vm ≡ record (make_vm (λ q. 170) 16 64 4) { code = vm.code; memory = vm.memory })
    × ((vm.code.size ≡ 16) × (vm.memory.size ≡ 64))
    × ((q : ℕ) → q < 16 → vm.code.cell q ≡ program q)
    × ((q : ℕ) → q < 64 → vm.memory.cell q ≡ cells q)
read_bvgz_image-write_bvgz_image_direct_example =
    read_bvgz_image-write_bvgz_image_direct program cells 16 64 4 1 200 (λ q. 170) (omega arith)
      (omega arith) (omega arith) (omega arith) (omega arith) refl (omega arith)

abbrev nop_entry : InstnDef
nop_entry = record { name = 110 ∷ []; opcode = 0; arg_count = 0; flags = 0; handler = op_nop_0 }

abbrev add_entry : InstnDef
add_entry = record { name = 97 ∷ []; opcode = 0; arg_count = 3; flags = 0; handler = op_add_3 }

abbrev small_table : List InstnDef
small_table = nop_entry ∷ add_entry ∷ []

setup_instn_defs_order_example :
    ((i : ℕ) (d : InstnDef) → get_elem? (setup_instn_defs small_table) i ≡ some d → d.opcode ≡ i)
    × IsSorted (setup_instn_defs small_table)
    × ((q : InstnDef → Bool)
        → ((d : InstnDef) (n : ℕ) → q (record d { opcode = n }) ≡ q d)
        → count_defs q (setup_instn_defs small_table) ≡ count_defs q small_table)
setup_instn_defs_order_example = setup_instn_defs_order small_table (omega arith)
