-- ===== src/Exec/Keeps/Decoding.antt =====
-- Decoding an instruction keeps the code and the bound of the memory.
use bvgz_vm.Common.{ℕ, zero, suc, refl, List}
use bvgz_vm.Vm.{Proc, modify}
use bvgz_vm.Instn.{Instn}
use bvgz_vm.Instn.Table.{InstnDef}
use bvgz_vm.Decode.{decode_instn, decode_sizes, decode_args, decode_arg, fetch}
use bvgz_vm.Exec.{vm_current_procedure, vm_decode_instn}
use bvgz_vm.Exec.Keeps.{Keeps, keep_rules}

pub fetch-Keeps : (n at : ℕ) → Keeps (fetch n at)
unfolding fetch
fetch-Keeps n at = search keep_rules

pub decode_arg-Keeps : (i iptr offset : ℕ) (instn : Instn) → Keeps (decode_arg i iptr offset instn)
unfolding decode_arg
decode_arg-Keeps i iptr offset instn = search (keep_rules, fetch-Keeps) depth 12

pub decode_args-Keeps :
    (k i iptr offset : ℕ) (instn : Instn) → Keeps (decode_args k i iptr offset instn)
unfolding decode_args
decode_args-Keeps zero i iptr offset instn = search keep_rules
decode_args-Keeps (suc k) i iptr offset instn =
    search (keep_rules, decode_arg-Keeps, decode_args-Keeps k) depth 12

pub decode_sizes-Keeps : (iptr offset : ℕ) (instn : Instn) → Keeps (decode_sizes iptr offset instn)
unfolding decode_sizes
decode_sizes-Keeps iptr offset instn = search (keep_rules, fetch-Keeps) depth 12

pub decode_instn-Keeps :
    (defs : List InstnDef) (iptr : ℕ) (instn : Instn) → Keeps (decode_instn defs iptr instn)
unfolding decode_instn
decode_instn-Keeps defs iptr instn =
    search (keep_rules, fetch-Keeps, decode_sizes-Keeps, decode_args-Keeps) depth 14

pub set_iptr-Keeps : (iptr : ℕ) → Keeps (modify (λ vm. record vm { iptr = iptr }))
set_iptr-Keeps iptr = record { run = λ vm. record { code = refl; within = λ h. h } }

pub vm_decode_instn-Keeps :
    (defs : List InstnDef) (proc : Proc) (instn : Instn) → Keeps (vm_decode_instn defs proc instn)
unfolding vm_decode_instn
vm_decode_instn-Keeps defs proc instn =
    search (keep_rules, set_iptr-Keeps, decode_instn-Keeps) depth 14

pub vm_current_procedure-Keeps : Keeps vm_current_procedure
unfolding vm_current_procedure
vm_current_procedure-Keeps = search keep_rules depth 14
