-- ===== src/Tests/Machines.antt =====
-- The theorems on virtual machines and on the sidecar hook, at concrete inputs.
use knl.Common.{
  if◌then◌else◌, ℕ, ◌≡◌, ◌↔◌, inl, refl, String, ◌<>◌, ◌==◌, Bool, true, Option, none, some, List,
  [], ◌∷◌, Map, lookup, ok, All,
}
use knl.Names.{get_k8lan_name, is_cpm, parse_srvm_name_new, is_integrated_chassis_via_sysinfo}
use knl.Text.{to_lower, trim_space}
use knl.Api.{Connector, KnlConfigSpec, SrCard, Srvm, Quantity}
use knl.Api.Defaults.{def_knl_config}
use knl.Api.OneOf.{empty_srvm}
use knl.Defaulter.Slots.{get_sorted_key_slice}
use knl.Lans.Ensure.{Spokes}
use knl.Sidecar.{
  Vmi as HookVmi, ftp_svr_cfg, server_config, define_vsros, define_typed, on_define_domain,
}
use knl.Sidecar.Edit.{
  Interface, Disk, Domain, Volume, is_port, keep_ports, set_sysinfo, set_disk, set_devices,
  edit_vsros, get_telnet_console, vsros_cpu,
}
use knl.Sidecar.Laws.{AreKept, keep_ports_iff}
use knl.Sidecar.Outcome.{IsWritten, on_define_domain-IsWritten}
use knl.Vm.{Network, Nic, Vmi, multus, plugin}
use knl.Vm.Spokes.{port_of, port_links}
use knl.Vm.Build.{
  Access, get_vmi, card_vmi, net, fabric, main_volume, annotations_of, ftp_path_map, memory_request,
}
use knl.Vm.Laws.{
  network_names, nic_names, at_slot, spokes_of, port_links-at_slot, IsConsistent,
  get_vmi-IsConsistent,
}

abbrev port_nic : Interface String
port_nic = record { alias = some "ua-klan1-0"; model = some "e1000"; rest = "" }

abbrev veth_nic : Interface String
veth_nic = record { alias = some "ua-vxlandev1"; model = none; rest = "" }

ports_example :
    (keep_ports (veth_nic ∷ port_nic ∷ []) ≡ ok (record port_nic { model = some "virtio" } ∷ []))
    ↔ AreKept (veth_nic ∷ port_nic ∷ []) (record port_nic { model = some "virtio" } ∷ [])
ports_example =
    keep_ports_iff (veth_nic ∷ port_nic ∷ []) (record port_nic { model = some "virtio" } ∷ [])

abbrev disk : Disk String
disk = record {
  target = some (record { dev = "vda"; rest = "" });
  source = some (record { file = some ("/disk.img", some "x"); rest = "" });
  address = some "pci";
  model = "";
  driver = some (record { type = ""; error_policy = "stop"; discard = "unmap"; rest = "" });
  rest = "";
}

abbrev domain : Domain String
domain = record {
  cpu = none;
  devices = some (record {
    disks = disk ∷ [];
    controllers = "usb" ∷ [];
    interfaces = veth_nic ∷ port_nic ∷ [];
    mem_balloon = some "b";
    consoles = [];
    rest = "";
  });
  sys_info =
      record {
        smbios = some (
          some (
              record { name = "uuid"; value = "1" }
              ∷ record { name = "product"; value = "None" }
              ∷ []),
          "",
        );
        rest = "";
      }
      ∷ [];
  machine = some (some "q35");
  features = some "acpi";
  sec_label = [];
  rest = "";
}

abbrev edited : Domain String
edited = record {
  cpu = some (inl vsros_cpu);
  devices = some (record {
    disks =
        record {
          target = some (record { dev = "hda"; rest = "" });
          source = some (record { file = some ("/disk.img", none); rest = "" });
          address = none;
          model = "virtio";
          driver = some (record { type = "qcow2"; error_policy = ""; discard = ""; rest = "" });
          rest = "";
        }
        ∷ [];
    controllers = [];
    interfaces = record port_nic { model = some "virtio" } ∷ [];
    mem_balloon = none;
    consoles = get_telnet_console;
    rest = "";
  });
  sys_info =
      record {
        smbios = some (
          some (
              record { name = "uuid"; value = "1" }
              ∷ record { name = "product"; value = "TIMOS" }
              ∷ []),
          "",
        );
        rest = "";
      }
      ∷ [];
  machine = some (some "pc");
  features = none;
  sec_label = inl "none" ∷ [];
  rest = "";
}

abbrev volumes : List Volume
volumes = record { container_disk = some "image" } ∷ []

edited_run : edit_vsros "TIMOS" volumes domain ≡ ok edited
unfolding edit_vsros set_devices set_disk keep_ports is_port set_sysinfo
edited_run = refl

abbrev instance_of : HookVmi
instance_of = record {
  labels = ("chassis.kubenetlab.net/type", " vSIM") ∷ [];
  annotations =
      ("smbios.vm.kubevirt.io/vSROSSysinfo", "TIMOS")
      ∷ ("kubenetlab.net/sftpsvr", "h")
      ∷ ("kubenetlab.net/sftpuser", "u")
      ∷ ("kubenetlab.net/sftppasswd", "p")
      ∷ ("kubenetlab.net/ftppathmap", "{}")
      ∷ [];
  volumes = volumes;
}

abbrev decode_vmi : String → Option HookVmi
decode_vmi text = if text == "vmi" then some instance_of else none

abbrev unmarshal : String → Option (Domain String)
unmarshal text = if text == "xml" then some domain else none

abbrev marshal : Domain String → Option String
marshal d = some "edited"

abbrev is_path_map : String → Bool
is_path_map text = text == "{}"

written :
    (on_define_domain decode_vmi unmarshal marshal is_path_map "vmi" "xml").0
    ≡ some (ftp_svr_cfg "{}" "u" "p" "h")
unfolding on_define_domain define_typed define_vsros server_config lookup to_lower trim_space
written = refl

written_example :
    IsWritten decode_vmi unmarshal marshal is_path_map "vmi" (ftp_svr_cfg "{}" "u" "p" "h")
written_example =
    on_define_domain-IsWritten decode_vmi unmarshal marshal is_path_map "vmi" "xml"
      (ftp_svr_cfg "{}" "u" "p" "h") written

abbrev connector : String → Connector
connector port = record {
  node_name = some "vsim-1";
  port_id = some port;
  addrs = [];
  routes = [];
  mac = none;
}

-- two links of a node, on two cards
abbrev two_spokes : Spokes
two_spokes = record {
  spoke_map = ("vsim-1", ("link2", "klan2-0" ∷ []) ∷ ("link1", "klan1-0" ∷ []) ∷ []) ∷ [];
  spoke_connector_map = ("klan1-0", connector "1") ∷ ("klan2-0", connector "2") ∷ [];
  spoke_link_map = ("klan1-0", "link1") ∷ ("klan2-0", "link2") ∷ [];
}

abbrev nad_name : String → String → String
nad_name lan spoke = lan <> "-" <> spoke

abbrev port_networks : List Network
port_networks = record { name = "klan2-0"; source = multus "lab-link2-klan2-0" } ∷ []

abbrev port_nics : List Nic
port_nics = record { name = "klan2-0"; ports = []; binding = plugin "macvtap" } ∷ []

ports_run : port_links nad_name "lab" "2" two_spokes "vsim-1" ≡ ok (port_networks, port_nics)
unfolding port_links port_of lookup get_sorted_key_slice get_k8lan_name
ports_run = refl

slot_example :
    (network_names port_networks ≡ at_slot two_spokes "2" (spokes_of two_spokes "vsim-1"))
    × ((nic_names port_nics ≡ at_slot two_spokes "2" (spokes_of two_spokes "vsim-1"))
        × All
            (λ spoke. (port : String) × (port_of two_spokes spoke ≡ ok port))
            (spokes_of two_spokes "vsim-1"))
slot_example =
    port_links-at_slot nad_name "lab" "2" two_spokes "vsim-1" port_networks port_nics ports_run

abbrev card : SrCard
card = record {
  model = some "iom-1";
  sys_info = some "chassis=sr-7 slot=2 card=iom-1";
  mdas = none;
  xiom = [];
  req_memory = some "4Gi";
  req_cpu = some "2";
  listen_ports = some [];
}

abbrev srvm : Srvm
srvm = record empty_srvm {
  chassis = some (record {
    type = some "vsim";
    model = some "sr-7";
    cards = some 0;
    sfm = none;
    chassis_mac = none;
  });
  image = some "filesvr:25.7";
  dedicate = some true;
}

abbrev gconf : KnlConfigSpec
gconf = record def_knl_config { sr_iom_loader_image = some "loader" }

abbrev no_json : Map String → String
no_json m = "{}"

abbrev two_cores : Quantity → ℕ
two_cores q = 2

abbrev same_memory : Quantity → Quantity
same_memory q = q

abbrev access : Access
access = record { lic_path = "/knlroot/lic/lab-vsim-1"; user = "u"; password = "p" }

built :
    (vmi : Vmi) × (get_vmi nad_name no_json two_cores same_memory gconf two_spokes "lab"
        "knl-system" srvm
        (("2", card) ∷ [])
        "vsim-1"
        "2"
        access
      ≡ ok vmi)
unfolding get_vmi card_vmi net port_links fabric main_volume annotations_of ftp_path_map
    memory_request lookup is_cpm port_of get_sorted_key_slice parse_srvm_name_new
    is_integrated_chassis_via_sysinfo def_knl_config
built = (_, refl)

built-IsConsistent_example : IsConsistent built.0
built-IsConsistent_example =
    get_vmi-IsConsistent nad_name no_json two_cores same_memory gconf two_spokes "lab" "knl-system"
      srvm (("2", card) ∷ []) "vsim-1" "2" access built.0 built.1
