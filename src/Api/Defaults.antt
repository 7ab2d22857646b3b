-- ===== src/Api/Defaults.antt =====
-- The application's defaults: `SetToAppDefVal` of each node type and `DefKNLConfig`
-- (api/v1beta1/sr.go, srvm.go, srsim.go, srl.go, vmpc.go, generalpod.go, knlconfig_types.go).
-- A default with a card map takes the address at which its new map stands.
use knl.Common.{ℕ, String, false, Option, none, some, List, [], ◌∷◌, ◌==◌, if◌then◌else◌, Map}
use knl.Names.{NodeType}
use knl.Api.{
  Port, SrCard, SrChassis, Srvm, SrSim, SrLinux, GeneralPod, GeneralVm, OneOfSystem, KnlConfigSpec,
  CardsRef, Store, write,
}
use knl.Api.OneOf.{empty_srvm, empty_srl, empty_pod, empty_vm, empty_srsim}

abbrev pub tcp_port : String → ℕ → Port
tcp_port name port = record { name = name; protocol = "TCP"; port = port }

abbrev pub get_iom_vm_listen_ports : List Port
get_iom_vm_listen_ports = tcp_port "dummy" 1 ∷ []

abbrev pub get_cpm_vm_listen_ports : List Port
get_cpm_vm_listen_ports =
    tcp_port "ssh" 22
    ∷ tcp_port "netconf" 830
    ∷ tcp_port "gnmi" 57400
    ∷ record { name = "radiuscoa"; protocol = "UDP"; port = 3799 }
    ∷ []

-- a card that a default makes: its model, MDAs, memory, CPU and ports
abbrev new_card :
    String → Option (List String) → Option String → Option String → Option (List Port) → SrCard
new_card model mdas memory cpu ports = record {
  model = some model;
  sys_info = none;
  mdas = mdas;
  xiom = [];
  req_memory = memory;
  req_cpu = cpu;
  listen_ports = ports;
}

-- the card map of `DefaultSIMChassis`
unfoldable pub default_sim_cards : NodeType → Map SrCard
default_sim_cards nt =
    let mdas = some ("me10-10gb-sfp+" ∷ "me-isa2-ms" ∷ []) in
    if nt == "vsim"
    then ("A", new_card "cpm5" none (some "4Gi") (some "2") (some get_cpm_vm_listen_ports))
      ∷ ("1", new_card "iom4-e" mdas (some "4Gi") (some "2") (some get_iom_vm_listen_ports))
      ∷ []
    else ("A", new_card "cpm5" none (some "4Gi") none none)
      ∷ ("1", new_card "iom4-e" mdas (some "4Gi") none none)
      ∷ []

-- `DefaultSIMChassis`, whose card map stands at `ref`
unfoldable pub default_sim_chassis : NodeType → CardsRef → SrChassis
default_sim_chassis nt ref = record {
  type = some nt;
  model = some "SR-7";
  cards = some ref;
  sfm = some "m-sfm5-7";
  chassis_mac = none;
}

unfoldable pub default_vsri_cards : Map SrCard
default_vsri_cards =
    (
      "A",
      new_card "cpm-v" (some ("m20-v" ∷ "isa-tunnel-v" ∷ [])) (some "6Gi") (some "2")
          (some get_cpm_vm_listen_ports),
    )
    ∷ []

-- `DefaultVSRIChassis`
unfoldable pub default_vsri_chassis : CardsRef → SrChassis
default_vsri_chassis ref = record {
  type = some "vsri";
  model = some "VSR-I";
  cards = some ref;
  sfm = none;
  chassis_mac = none;
}

unfoldable pub default_magc_cards : Map SrCard
default_magc_cards =
    ("A", new_card "cpm-v" none (some "16Gi") (some "2") (some get_cpm_vm_listen_ports))
    ∷ (
      "1",
      new_card "iom-v" (some ("m20-v" ∷ [])) (some "8Gi") (some "4") (some get_iom_vm_listen_ports),
    )
    ∷ (
      "2",
      new_card "iom-v-mg" (some ("isa-ms-v" ∷ [])) (some "32Gi") (some "8")
          (some get_iom_vm_listen_ports),
    )
    ∷ []

-- `DefaultMAGCChassis`
unfoldable pub default_magc_chassis : CardsRef → SrChassis
default_magc_chassis ref = record {
  type = some "magc";
  model = some "VSR";
  cards = some ref;
  sfm = none;
  chassis_mac = none;
}

-- `setToAppDefVal` of a new SRVM, then the chassis and the license of its type
unfoldable pub srvm_app_default : SrChassis → String → Srvm
srvm_app_default chassis license = record empty_srvm {
  disk_size = some "1.5Gi";
  dedicate = some false;
  chassis = some chassis;
  license = some license;
}

unfoldable pub srsim_app_default : SrChassis → SrSim
srsim_app_default chassis = record empty_srsim { chassis = some chassis }

unfoldable pub srl_app_default : SrLinux
srl_app_default = record empty_srl { chassis = some "ixr-d3l"; req_memory = some "4Gi" }

unfoldable pub pod_app_default : GeneralPod
pod_app_default = record empty_pod { pvc_size = some "100Mi" }

unfoldable pub vm_app_default : GeneralVm
vm_app_default = record empty_vm {
  req_cpu = some "2.0";
  req_memory = some "4Gi";
  pin_cpu = some false;
  huge_page = some false;
  username = some "lab";
  password = some "lab123";
  init_method = some "cloud-init";
  ports = some (tcp_port "ssh" 22 ∷ []);
}

-- the loop of `DefKNLConfig` over the fields of `OneOfSystem`
unfoldable pub def_one_of : OneOfSystem
unfolding default_sim_chassis default_vsri_chassis default_magc_chassis srvm_app_default
    srsim_app_default srl_app_default pod_app_default vm_app_default
def_one_of = record {
  vsim = some (srvm_app_default (default_sim_chassis "vsim" 0) "vsimlic");
  vsri = some (srvm_app_default (default_vsri_chassis 1) "vsrlic");
  magc = some (srvm_app_default (default_magc_chassis 2) "magclic");
  vm = some vm_app_default;
  srl = some srl_app_default;
  pod = some pod_app_default;
  srsim = some (srsim_app_default (default_sim_chassis "srsim" 3));
}

-- `DefKNLConfig`; its card maps stand at the addresses 0 to 3
unfoldable pub def_knl_config : KnlConfigSpec
unfolding def_one_of
def_knl_config = record {
  sftp_sever = some "knl-sftp-service.knl-system.svc.cluster.local:22";
  vxlan_grp_addr = some "ff18::100";
  vxlan_default_dev = none;
  vx_dev_map = [];
  pvc_storage_class = none;
  sr_cpm_loader_image = none;
  sr_iom_loader_image = none;
  side_car_hook_img = some "ghcr.io/hujun-open/knl/knlsidecar:latest";
  default_node = some def_one_of;
}

-- the card maps that `DefKNLConfig` makes
unfoldable pub def_store : Store
unfolding default_sim_cards default_vsri_cards default_magc_cards
def_store = write 0 (default_sim_cards "vsim") (
    write 1 default_vsri_cards
      (write 2 default_magc_cards (write 3 (default_sim_cards "srsim") (λ _. []))))
