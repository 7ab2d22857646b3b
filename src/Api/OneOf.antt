-- ===== src/Api/OneOf.antt =====
-- `OneOfSystem`: `validate` and `GetSystem` (api/v1beta1/node.go), `AssignSystem`
-- (api/v1beta1/lab_types.go) and the registry of node types (api/v1beta1/system.go).
pub mod Laws
use knl.Common.{
  ℕ, zero, suc, ◌+◌, String, Bool, true, false, not, Option, none, some, is_nil, List, [], ◌∷◌, eqb,
  ltb, if◌then◌else◌, ◌==◌, Result, ok, err,
}
use knl.Names.{NodeType, get_node_type_via_name}
use knl.Api.{OneOfSystem, System, Srvm, SrSim, SrLinux, GeneralPod, GeneralVm}

pub data OneOfError : Type 0 where
  only_one none_specified : OneOfError

-- whether each field, in order, is not nil
abbrev specified : OneOfSystem → List Bool
specified o =
    not (is_nil o.vsim)
    ∷ not (is_nil o.vsri)
    ∷ not (is_nil o.magc)
    ∷ not (is_nil o.vm)
    ∷ not (is_nil o.srl)
    ∷ not (is_nil o.pod)
    ∷ not (is_nil o.srsim)
    ∷ []

unfoldable pub count_specified : ℕ → List Bool → Result OneOfError Unit
count_specified n [] = if eqb n 0 then err none_specified else ok tt
count_specified n (false ∷ fs) = count_specified n fs
count_specified n (true ∷ fs) =
    let rest = count_specified (n + 1) fs in if ltb 1 (n + 1) then err only_one else rest

-- `OneOfSystem.validate`
unfoldable pub validate : OneOfSystem → Result OneOfError Unit
unfolding count_specified
validate o = count_specified 0 (specified o)

abbrev or_next {ℓ} : {A : Type ℓ} → Option A → Option A → Option A
or_next none b = b
or_next (some a) b = some a

abbrev as_system : {A : Type 0} → (A → System) → String → Option A → Option (System × String)
as_system make name none = none
as_system make name (some a) = some (make a, name)

-- `GetSystem`: the first field that is not nil, and its name; `none` is a nil `System`
unfoldable pub get_system : OneOfSystem → Option (System × String)
get_system o = or_next (as_system System.vsim "VSIM" o.vsim) (
    or_next (as_system System.vsri "VSRI" o.vsri) (
      or_next (as_system System.magc "MAGC" o.magc) (
        or_next (as_system System.vm "VM" o.vm) (
          or_next (as_system System.srl "SRL" o.srl) (
            or_next (as_system System.pod "Pod" o.pod) (as_system System.srsim "SRSIM" o.srsim))))))

-- `AssignSystem`: the field of the system's type
unfoldable pub assign_system : System → OneOfSystem → OneOfSystem
assign_system (System.vsim s) o = record o { vsim = some s }
assign_system (System.vsri s) o = record o { vsri = some s }
assign_system (System.magc s) o = record o { magc = some s }
assign_system (System.vm s) o = record o { vm = some s }
assign_system (System.srl s) o = record o { srl = some s }
assign_system (System.pod s) o = record o { pod = some s }
assign_system (System.srsim s) o = record o { srsim = some s }

-- `new(OneOfSystem)`
abbrev pub empty_one_of : OneOfSystem
empty_one_of = record {
  vsim = none;
  vsri = none;
  magc = none;
  vm = none;
  srl = none;
  pod = none;
  srsim = none;
}

abbrev pub empty_srvm : Srvm
empty_srvm = record {
  chassis = none;
  image = none;
  disk_size = none;
  license = none;
  uuid = none;
  dedicate = none;
}

abbrev pub empty_srsim : SrSim
empty_srsim = record { image = none; chassis = none; lic_secret = none }

abbrev pub empty_srl : SrLinux
empty_srl = record {
  image = none;
  chassis = none;
  lic_secret = none;
  req_memory = none;
  req_cpu = none;
}

abbrev pub empty_pod : GeneralPod
empty_pod = record {
  image = none;
  command = none;
  privileged = none;
  pvc_size = none;
  req_memory = none;
  req_cpu = none;
}

abbrev pub empty_vm : GeneralVm
empty_vm = record {
  req_memory = none;
  req_cpu = none;
  disk_size = none;
  pin_cpu = none;
  huge_page = none;
  image = none;
  init_method = none;
  ports = none;
  username = none;
  password = none;
}

-- `GetNewSystemViaType`, with the entries that the `init` functions register
unfoldable pub get_new_system_via_type : NodeType → Option System
get_new_system_via_type t =
    if t == "vsim"
    then some (System.vsim empty_srvm)
    else if t == "vsri"
    then some (System.vsri empty_srvm)
    else if t == "magc"
    then some (System.magc empty_srvm)
    else if t == "srsim"
    then some (System.srsim empty_srsim)
    else if t == "srl"
    then some (System.srl empty_srl)
    else if t == "vm"
    then some (System.vm empty_vm)
    else if t == "pod"
    then some (System.pod empty_pod)
    else none

unfoldable pub get_new_system_via_name : String → Option System
unfolding get_new_system_via_type get_node_type_via_name
get_new_system_via_name name = get_new_system_via_type (get_node_type_via_name name)
