-- ===== src/Tests/Pods.antt =====
-- The theorems on pods, over a cluster that is a list.
use knl.Common.{
  ℕ, ◌≤◌, ◌<◌, ◌≡◌, ◌≢◌, ◌↔◌, refl, arith, pos, String, ◌<>◌, Option, none, some, List, [], ◌∷◌,
  Map, lookup, insert, Result, ok, length, get_elem?,
}
use knl.Text.{to_lower, itoa}
use knl.Names.{is_cpm, get_pod_name, get_k8lan_name}
use knl.Mac.{parse_mac}
use knl.Api.{Connector, System, OneOfSystem, KnlConfigSpec, Store, SrCard}
use knl.Api.Defaults.{def_knl_config}
use knl.Api.OneOf.{empty_one_of, empty_srl, empty_pod, get_system}
use knl.Cluster.{create_if_not_exists_or_remove}
use knl.Cluster.Interface.{Object, ApiError, Client}
use knl.Cluster.ListClient.{find, list_client, list_client-IsLawful}
use knl.Defaulter.Slots.{get_sorted_key_slice}
use knl.Kube.{
  Resource, ParsedLab, ContextValue, parsed, get_parsed_lab, Action, from, ◌>>=◌, EnsureError,
  ensure_object, new_base_pod, collection,
}
use knl.Kube.Laws.{IsSafe}
use knl.Lans.Ensure.{Spokes}
use knl.Pods.Ensure.{
  ensure_srl, ensure_cfs, ensure_cards, ensure_srsim, ensure_nads, ensure_pod, ensure_spoke_nads,
}
use knl.Pods.General.{get_root_pvc, general_pod, pod_entry, address_nad, pod_prefixes, pod_routes}
use knl.Pods.Index.{get_node_sort_index_place}
use knl.Pods.Nets.{LanNames, Nets, annotate, node_nets}
use knl.Pods.Networks.{IsNetworked, node_nets-IsNetworked}
use knl.Pods.Nodes.{
  ArePods, Packages, ensure_nodes, ensure_system, HasPods, ensure_nodes-HasPods,
  ensure_nodes-IsSafe,
}
use knl.Pods.Srl.{
  get_config_map_from_srl_chassis, get_node_sort_index, get_base_mac, get_etc_pvc, srl_pod,
  srl_entry, index_from, upper_hex_int, upper_hex,
}
use knl.Pods.SrSim.{get_cf_pvc, card_env, card_container, sim_pod, sim_entry}
use knl.Validate.Srl.{get_srl_chassis_via_type_str, chassis_dict}
use knl.Vm.{get_obj_meta}
use knl.Tests.Configs.{parsers}

abbrev pub cluster : Client Resource
cluster = list_client Resource

abbrev pub names : LanNames
names = record {
  get_def_nad_name = λ lan spoke. lan <> "-" <> spoke;
  get_addr_nad_name = λ lan spoke. lan <> "-" <> spoke <> "-addr";
  get_dp_resource_name = λ lan spoke. lan <> "." <> spoke;
}

abbrev pub packages : Packages
packages = record {
  parsers = parsers;
  names = names;
  yaml = λ chassis. some chassis.base_mac;
  split_words = λ text. text ∷ [];
  gen_nad = λ lan spoke ns prefixes routes. record {
    meta = record { name = lan <> "-" <> spoke <> "-addr"; ns = ns; labels = []; annotations = [] };
    config = "";
  };
}

abbrev pub gconf : KnlConfigSpec
gconf = record def_knl_config { pvc_storage_class = some "nfs"; vxlan_default_dev = some "eth0" }

abbrev pub own : Object Resource → Result ApiError (Object Resource)
own o = ok o

own-keeps : (o o' : Object Resource) → own o ≡ ok o' → o'.name ≡ o.name
own-keeps o o' h = ground (arith, h)

abbrev pub no_vms : ContextValue → String → System → Action (List (String × Object Resource)) Unit
no_vms ctx node sys = from (ok tt)

abbrev end : String → Option String → List String → Connector
end node port addrs = record {
  node_name = some node;
  port_id = port;
  addrs = addrs;
  routes = [];
  mac = none;
}

-- a link between an SR Linux, a general pod and an SR-SIM
abbrev three_spokes : Spokes
three_spokes = record {
  spoke_map =
      ("srl-1", ("link1", "klan1-0" ∷ "klan1-3" ∷ []) ∷ [])
      ∷ ("pod-1", ("link1", "klan1-1" ∷ []) ∷ [])
      ∷ ("srsim-1", ("link1", "klan1-2" ∷ []) ∷ [])
      ∷ [];
  spoke_connector_map =
      ("klan1-0", end "srl-1" none [])
      ∷ ("klan1-1", end "pod-1" none ("10.0.0.1/24" ∷ []))
      ∷ ("klan1-2", end "srsim-1" (some "e1-1-1") [])
      ∷ ("klan1-3", end "srl-1" (some "e1-7") [])
      ∷ [];
  spoke_link_map =
      ("klan1-0", "link1")
      ∷ ("klan1-1", "link1")
      ∷ ("klan1-2", "link1")
      ∷ ("klan1-3", "link1")
      ∷ [];
}

abbrev cpm : SrCard
cpm = record {
  model = some "cpm-1";
  sys_info = none;
  mdas = none;
  xiom = [];
  req_memory = some "4Gi";
  req_cpu = some "2";
  listen_ports = none;
}

abbrev pub cards : Store
cards ref = ("A", cpm) ∷ []

abbrev pub three_nodes : Map OneOfSystem
three_nodes =
    (
      "srl-1",
      record empty_one_of {
        srl = some (record empty_srl {
          image = some "srl:25";
          chassis = some "ixr-d2l";
          lic_secret = some "lic";
        });
      },
    )
    ∷ (
      "pod-1",
      record empty_one_of {
        pod = some (record empty_pod { image = some "debian"; pvc_size = some "100Mi" });
      },
    )
    ∷ (
      "srsim-1",
      record empty_one_of {
        srsim = some (record {
          image = some "srsim:25";
          chassis = some (record {
            type = some "srsim";
            model = some "sr-7";
            cards = some 0;
            sfm = none;
            chassis_mac = some "FA:AC:00:00:00:01";
          });
          lic_secret = some "lic";
        });
      },
    )
    ∷ []

abbrev lab : ParsedLab
lab = record {
  name = "lab";
  ns = "knl-system";
  uid = "1";
  spec = record { node_list = three_nodes; link_list = [] };
  connector_map = [];
  spokes = three_spokes;
}

abbrev made : List (String × Object Resource) × Result EnsureError Unit
made = ensure_nodes packages gconf "knl-system" cards cluster own no_vms (parsed lab) three_nodes []

nodes_run : made.1 ≡ ok tt
unfolding ensure_nodes ensure_system from ◌>>=◌ ensure_srl ensure_pod ensure_srsim ensure_object
    get_config_map_from_srl_chassis get_node_sort_index create_if_not_exists_or_remove find
    get_system get_etc_pvc srl_pod srl_entry node_nets lookup get_srl_chassis_via_type_str
    chassis_dict to_lower get_root_pvc general_pod pod_entry ensure_nads ensure_spoke_nads
    address_nad pod_prefixes pod_routes get_cf_pvc card_env card_container sim_pod sim_entry
    ensure_cards ensure_cfs is_cpm get_sorted_key_slice get_parsed_lab new_base_pod get_obj_meta
    collection get_pod_name insert annotate get_k8lan_name get_base_mac index_from upper_hex_int
    upper_hex
nodes_run = refl

are_pods : ArePods three_nodes
unfolding get_system
are_pods = (
  λ sys field h. ground (arith, h),
  (λ sys field h. ground (arith, h), (λ sys field h. ground (arith, h), tt)),
)

pods_example : HasPods packages gconf "knl-system" cards cluster own no_vms made.0 lab three_nodes
pods_example =
    ensure_nodes-HasPods packages gconf "knl-system" cards cluster own no_vms
      (list_client-IsLawful Resource) own-keeps lab three_nodes [] are_pods nodes_run

unchanged_example :
    IsSafe cluster
      (ensure_nodes packages gconf "knl-system" cards cluster own no_vms (parsed lab) three_nodes)
unchanged_example =
    ensure_nodes-IsSafe packages gconf "knl-system" cards cluster own no_vms
      (list_client-IsLawful Resource) own-keeps (parsed lab) three_nodes are_pods

srl_nets : (n : Nets) × (node_nets names "lab" three_spokes (srl_entry names) "srl-1" ≡ ok n)
unfolding node_nets srl_entry lookup insert get_sorted_key_slice get_k8lan_name itoa
srl_nets = (_, refl)

srl_text : srl_nets.0.text ≡ "lab-link1-klan1-0@e1-1,lab-link1-klan1-3@e1-7,"
unfolding srl_nets node_nets srl_entry lookup insert get_sorted_key_slice get_k8lan_name itoa
srl_text = refl

nets_example : IsNetworked names "lab" three_spokes (srl_entry names) "srl-1" srl_nets.0
nets_example =
    node_nets-IsNetworked names "lab" three_spokes (srl_entry names) "srl-1" srl_nets.0 srl_nets.1

place_example :
    (k : ℕ) × (get_node_sort_index lab.spec "srl-1" ≡ pos k)
    × (get_elem? (get_sorted_key_slice three_nodes) k ≡ some "srl-1")
    × (k < length three_nodes)
    × ((parse_mac (get_base_mac (get_node_sort_index lab.spec "srl-1")) ≢ none) ↔ (16 ≤ k))
unfolding lookup
place_example = get_node_sort_index_place lab.spec "srl-1" refl (omega arith)
