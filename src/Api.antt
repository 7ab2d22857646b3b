-- ===== src/Api.antt =====
-- The API types: the fields of a lab's specification and of its node types (api/v1beta1/lab_types.go,
-- node.go, link.go, sr.go, srvm.go, srsim.go, srl.go, vmpc.go, generalpod.go, knlconfig_types.go).
-- Pointers are `Option`. A `resource.Quantity` is the text that it was parsed from. The card map of
-- a chassis is shared where a struct is copied, so it is a reference into a store of card maps.
pub mod Defaults
pub mod OneOf
use knl.Common.{ℕ, String, Bool, Option, List, Map, ◌==◌, if◌then◌else◌, eqb}
use knl.Names.{NodeType}

abbrev pub Quantity : Type 0
Quantity = String

-- kubevirt's `Port`
pub record Port : Type 0 where
  pub name : String
  pub protocol : String
  pub port : ℕ

pub record Xiom : Type 0 where
  pub model : Option String
  pub mdas : List String

pub record SrCard : Type 0 where
  pub model : Option String
  pub sys_info : Option String
  pub mdas : Option (List String)
  pub xiom : Map Xiom
  pub req_memory : Option Quantity
  pub req_cpu : Option Quantity
  pub listen_ports : Option (List Port)

-- the address of a `map[string]*SRCard`
abbrev pub CardsRef : Type 0
CardsRef = ℕ

-- the card maps by their address
abbrev pub Store : Type 0
Store = CardsRef → Map SrCard

abbrev pub write : CardsRef → Map SrCard → Store → Store
write r m store q = if eqb r q then m else store q

pub record SrChassis : Type 0 where
  pub type : Option NodeType
  pub model : Option String
  pub cards : Option CardsRef
  pub sfm : Option String
  pub chassis_mac : Option String

pub record Srvm : Type 0 where
  pub chassis : Option SrChassis
  pub image : Option String
  pub disk_size : Option Quantity
  pub license : Option String
  pub uuid : Option String
  pub dedicate : Option Bool

pub record SrSim : Type 0 where
  pub image : Option String
  pub chassis : Option SrChassis
  pub lic_secret : Option String

pub record SrLinux : Type 0 where
  pub image : Option String
  pub chassis : Option String
  pub lic_secret : Option String
  pub req_memory : Option Quantity
  pub req_cpu : Option Quantity

pub record GeneralPod : Type 0 where
  pub image : Option String
  pub command : Option String
  pub privileged : Option Bool
  pub pvc_size : Option Quantity
  pub req_memory : Option Quantity
  pub req_cpu : Option Quantity

pub record GeneralVm : Type 0 where
  pub req_memory : Option Quantity
  pub req_cpu : Option Quantity
  pub disk_size : Option Quantity
  pub pin_cpu : Option Bool
  pub huge_page : Option Bool
  pub image : Option String
  pub init_method : Option String
  pub ports : Option (List Port)
  pub username : Option String
  pub password : Option String

-- The values behind the `System` interface. `VSIM`, `VSRI` and `MAGC` have the fields of `SRVM`.
pub data System : Type 0 where
  vsim vsri magc : Srvm → System
  vm : GeneralVm → System
  srl : SrLinux → System
  pod : GeneralPod → System
  srsim : SrSim → System

pub record OneOfSystem : Type 0 where
  pub vsim : Option Srvm
  pub vsri : Option Srvm
  pub magc : Option Srvm
  pub vm : Option GeneralVm
  pub srl : Option SrLinux
  pub pod : Option GeneralPod
  pub srsim : Option SrSim

pub record Connector : Type 0 where
  pub node_name : Option String
  pub port_id : Option String
  pub addrs : List String
  pub routes : List String
  pub mac : Option String

pub record Link : Type 0 where
  pub connectors : List Connector

pub record LabSpec : Type 0 where
  pub node_list : Map OneOfSystem
  pub link_list : Map Link

pub record KnlConfigSpec : Type 0 where
  pub sftp_sever : Option String
  pub vxlan_grp_addr : Option String
  pub vxlan_default_dev : Option String
  pub vx_dev_map : Map String
  pub pvc_storage_class : Option String
  pub sr_cpm_loader_image : Option String
  pub sr_iom_loader_image : Option String
  pub side_car_hook_img : Option String
  pub default_node : Option OneOfSystem
