-- ===== src/LoadDef.antt =====
-- `LoadDef` (api/v1beta1/knlconfig_types.go): the defaults of the operator's configuration, filled
-- into each node by `FillNilPointers`, here at each struct type that occurs.
pub mod Reflect
use knl.Common.{
  String, ◌==◌, if◌then◌else◌, Option, none, some, List, [], ◌∷◌, Map, Result, ok, err, panic,
  ◌>>=◌,
}
use knl.Api.{
  SrChassis, Srvm, SrSim, SrLinux, GeneralPod, GeneralVm, System, OneOfSystem, KnlConfigSpec,
}
use knl.Api.OneOf.{get_system, assign_system}

-- a pointer that is no pointer to a struct, or a map
abbrev pub fill_ptr : {A : Type 0} → Option A → Option A → Option A
fill_ptr (some d) s = some d
fill_ptr none s = s

abbrev pub empty_chassis : SrChassis
empty_chassis = record { type = none; model = none; cards = none; sfm = none; chassis_mac = none }

unfoldable pub fill_chassis_ptrs : SrChassis → SrChassis → SrChassis
fill_chassis_ptrs d s = record {
  type = fill_ptr d.type s.type;
  model = fill_ptr d.model s.model;
  cards = fill_ptr d.cards s.cards;
  sfm = fill_ptr d.sfm s.sfm;
  chassis_mac = fill_ptr d.chassis_mac s.chassis_mac;
}

-- a pointer to a struct: a nil destination becomes a new struct if the source is not nil
unfoldable pub fill_chassis_field : Option SrChassis → Option SrChassis → Option SrChassis
unfolding fill_chassis_ptrs
fill_chassis_field d none = d
fill_chassis_field none (some s) = some (fill_chassis_ptrs empty_chassis s)
fill_chassis_field (some d) (some s) = some (fill_chassis_ptrs d s)

unfoldable pub fill_srvm : Srvm → Srvm → Srvm
unfolding fill_chassis_field
fill_srvm d s = record {
  chassis = fill_chassis_field d.chassis s.chassis;
  image = fill_ptr d.image s.image;
  disk_size = fill_ptr d.disk_size s.disk_size;
  license = fill_ptr d.license s.license;
  uuid = fill_ptr d.uuid s.uuid;
  dedicate = fill_ptr d.dedicate s.dedicate;
}

unfoldable pub fill_srsim : SrSim → SrSim → SrSim
unfolding fill_chassis_field
fill_srsim d s = record {
  image = fill_ptr d.image s.image;
  chassis = fill_chassis_field d.chassis s.chassis;
  lic_secret = fill_ptr d.lic_secret s.lic_secret;
}

unfoldable pub fill_srl : SrLinux → SrLinux → SrLinux
fill_srl d s = record {
  image = fill_ptr d.image s.image;
  chassis = fill_ptr d.chassis s.chassis;
  lic_secret = fill_ptr d.lic_secret s.lic_secret;
  req_memory = fill_ptr d.req_memory s.req_memory;
  req_cpu = fill_ptr d.req_cpu s.req_cpu;
}

unfoldable pub fill_pod : GeneralPod → GeneralPod → GeneralPod
fill_pod d s = record {
  image = fill_ptr d.image s.image;
  command = fill_ptr d.command s.command;
  privileged = fill_ptr d.privileged s.privileged;
  pvc_size = fill_ptr d.pvc_size s.pvc_size;
  req_memory = fill_ptr d.req_memory s.req_memory;
  req_cpu = fill_ptr d.req_cpu s.req_cpu;
}

unfoldable pub fill_vm : GeneralVm → GeneralVm → GeneralVm
fill_vm d s = record {
  req_memory = fill_ptr d.req_memory s.req_memory;
  req_cpu = fill_ptr d.req_cpu s.req_cpu;
  disk_size = fill_ptr d.disk_size s.disk_size;
  pin_cpu = fill_ptr d.pin_cpu s.pin_cpu;
  huge_page = fill_ptr d.huge_page s.huge_page;
  image = fill_ptr d.image s.image;
  init_method = fill_ptr d.init_method s.init_method;
  ports = fill_ptr d.ports s.ports;
  username = fill_ptr d.username s.username;
  password = fill_ptr d.password s.password;
}

abbrev fill_from : {A : Type 0} → (A → A → A) → A → Option A → A
fill_from fill d none = d
fill_from fill d (some s) = fill d s

-- the node filled from the field of the default node that has its type; nil defaults are skipped
unfoldable pub fill_system : System → OneOfSystem → System
unfolding fill_srvm fill_srsim fill_srl fill_pod fill_vm
fill_system (System.vsim d) def = System.vsim (fill_from fill_srvm d def.vsim)
fill_system (System.vsri d) def = System.vsri (fill_from fill_srvm d def.vsri)
fill_system (System.magc d) def = System.magc (fill_from fill_srvm d def.magc)
fill_system (System.vm d) def = System.vm (fill_from fill_vm d def.vm)
fill_system (System.srl d) def = System.srl (fill_from fill_srl d def.srl)
fill_system (System.pod d) def = System.pod (fill_from fill_pod d def.pod)
fill_system (System.srsim d) def = System.srsim (fill_from fill_srsim d def.srsim)

-- the error carries the name of the node
pub data LoadError : Type 0 where
  type_not_specified : String → LoadError

unfoldable pub load_nodes : OneOfSystem → Map OneOfSystem → Result LoadError (Map OneOfSystem)
unfolding fill_system
load_nodes def [] = ok []
load_nodes def ((name, node) ∷ nodes) = elim (get_system node) [
  | none ↦ err (type_not_specified name)
  | some (sys, field) ↦ do
    rest ← load_nodes def nodes
    ok ((name, assign_system (fill_system sys def) node) ∷ rest)
]

-- `LoadDef`; with a nil `DefaultNode` the reflection panics at the first node
unfoldable pub load_def : Option OneOfSystem → Map OneOfSystem → Result LoadError (Map OneOfSystem)
unfolding load_nodes
load_def (some def) nodes = load_nodes def nodes
load_def none [] = ok []
load_def none ((name, node) ∷ nodes) = elim (get_system node) [
  | none ↦ err (type_not_specified name)
  | some _ ↦ panic
]
