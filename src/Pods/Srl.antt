-- ===== src/Pods/Srl.antt =====
-- SR Linux: `getEtcPVC`, `getConfigMapFromSRLChassis` and the pod that `Ensure` builds (api/v1beta1/srl.go), and
-- `GetNodeSortIndex` (api/v1beta1/lab_types.go). `yaml.Marshal` is a parameter.
use Prim.Native.Char.{Char}
use Prim.Native.String.{char_at, ◌∷◌ as ◌+∷◌}
use knl.Common.{
  ℕ, zero, suc, ◌+◌, ◌/◌, ◌%◌, ℤ, pos, negsuc, eqb, String, ◌<>◌, ◌==◌, true, if◌then◌else◌, Option,
  none, some, List, [], ◌∷◌, ◌++◌, Map, Result, ok, err, panic, ◌>>=◌,
}
use knl.Text.{itoa}
use knl.Api.{LabSpec, SrLinux, Quantity, Connector, KnlConfigSpec}
use knl.Chassis.{deref}
use knl.Defaulter.Slots.{get_sorted_key_slice}
use knl.Kube.{
  Container, VolumeMount, PodVolume, claim_source, secret_source, config_map_source, empty_dir, Pod,
  Claim, ConfigMap, ParsedLab, EnsureError, new_base_pod,
}
use knl.Pods.Nets.{LanNames, Nets, node_nets, annotate}
use knl.Validate.Imports.{Parsers}
use knl.Validate.Srl.{SrlChassis, get_srl_chassis_via_type_str}
use knl.Vm.{get_obj_meta}

unfoldable pub index_from : ℕ → String → List String → ℤ
index_from i node [] = negsuc 0
index_from i node (name ∷ names) =
    let rest = index_from (i + 1) node names in if name == node then pos i else rest

-- `GetNodeSortIndex`: -1 if there is no such node
unfoldable pub get_node_sort_index : LabSpec → String → ℤ
unfolding index_from get_sorted_key_slice
get_node_sort_index spec node = index_from 0 node (get_sorted_key_slice spec.node_list)

unfoldable pub upper_digit : ℕ → Char
upper_digit d = char_at "0123456789ABCDEF" d

-- the digits of `n` in front of `out`; each round divides by 16, so `n` rounds are enough
unfoldable pub emit_upper : ℕ → ℕ → String → String
unfolding upper_digit
emit_upper zero n out = out
emit_upper (suc f) n out =
    let rest = emit_upper f (n / 16) (upper_digit (n % 16) +∷ out) in if eqb n 0 then out else rest

-- `%X` of a number that is not negative
unfoldable pub upper_hex : ℕ → String
unfolding emit_upper
upper_hex n = if eqb n 0 then "0" else emit_upper n n ""

unfoldable pub upper_hex_int : ℤ → String
unfolding upper_hex
upper_hex_int (pos n) = upper_hex n
upper_hex_int (negsuc n) = "-" <> upper_hex (n + 1)

-- `getBaseMAC`
unfoldable pub get_base_mac : ℤ → String
unfolding upper_hex_int
get_base_mac i = "FA:FA:" <> upper_hex_int i <> ":00:00:00"

-- the requests of a container, from those that are given
abbrev pub requests_of : Option Quantity → Option Quantity → Map Quantity
requests_of none none = []
requests_of (some cpu) none = ("cpu", cpu) ∷ []
requests_of none (some memory) = ("memory", memory) ∷ []
requests_of (some cpu) (some memory) = ("cpu", cpu) ∷ ("memory", memory) ∷ []

abbrev pub mount : String → String → VolumeMount
mount name path = record { name = name; mount_path = path; sub_path = "" }

-- the text of a spoke: without a port, the interface of its number
unfoldable pub srl_entry : LanNames → ℕ → String → String → Connector → Result EnsureError String
unfolding itoa
srl_entry names i lan spoke c = elim c.port_id [
  | some port ↦ ok (names.get_def_nad_name lan spoke <> "@" <> port)
  | none ↦ ok (names.get_def_nad_name lan spoke <> "@e1-" <> itoa i)
]

-- the container that copies the files from the claim
abbrev pub init_container : String → Container
init_container image = record {
  name = "sync-srl-etc";
  image = image;
  command =
      "sh" ∷ "-c" ∷ "rm -rf /etc/opt/srlinux/*; rsync -rptgoD /persis-etc/ /etc/opt/srlinux/" ∷ [];
  security_context =
      some (record { privileged = some true; run_as_user = some 0; run_as_group = some 0 });
  volume_mounts = mount "persis-etc" "/persis-etc/" ∷ mount "etc" "/etc/opt/srlinux/" ∷ [];
  env = [];
  limits = [];
  requests = [];
  pre_stop = [];
}

abbrev pub license_mounts : Option String → List VolumeMount
license_mounts none = []
license_mounts (some secret) =
    record { name = "lic"; mount_path = "/opt/srlinux/etc/license.key"; sub_path = "license" } ∷ []

abbrev pub license_volumes : Option String → List PodVolume
license_volumes none = []
license_volumes (some secret) = record { name = "lic"; source = secret_source secret } ∷ []

abbrev pub srl_container : SrLinux → String → Nets → Container
srl_container srl image nets = record {
  name = "main";
  image = image;
  command =
      "/tini" ∷ "--" ∷ "fixuid" ∷ "-q" ∷ "/entrypoint.sh" ∷ "sudo" ∷ "bash"
      ∷ "/opt/srlinux/bin/sr_linux" ∷ [];
  security_context =
      some (record { privileged = some true; run_as_user = none; run_as_group = none });
  volume_mounts =
      (record { name = "topo"; mount_path = "/tmp/topology.yml"; sub_path = "topology.yml" }
        ∷ mount "etc" "/etc/opt/srlinux/"
        ∷ mount "persis-etc" "/persis-etc/"
        ∷ [])
      ++ license_mounts srl.lic_secret;
  env = [];
  limits = nets.limits;
  requests = requests_of srl.req_cpu srl.req_memory;
  pre_stop = "sh" ∷ "-c" ∷ "rm -rf /persis-etc/*;rsync -rptgoD /etc/opt/srlinux/ /persis-etc/" ∷ [];
}

abbrev pub srl_volumes : SrLinux → String → String → List PodVolume
srl_volumes srl topology etc =
    (record { name = "topo"; source = config_map_source topology }
      ∷ record { name = "etc"; source = empty_dir "100Mi" }
      ∷ record { name = "persis-etc"; source = claim_source etc }
      ∷ [])
    ++ license_volumes srl.lic_secret

-- the pod, from "create pod" on; the config map and the claim go by their names
unfoldable pub srl_pod :
    LanNames → ParsedLab → SrLinux → String → String → String → Result EnsureError Pod
unfolding new_base_pod node_nets srl_entry annotate
srl_pod names lab srl node topology etc = do
  image ← deref srl.image
  nets ← node_nets names lab.name lab.spokes (srl_entry names) node
  ok (
      annotate nets.text (record (new_base_pod lab.name node lab.ns image "srl") {
        init_containers = init_container image ∷ [];
        containers = srl_container srl image nets ∷ [];
        volumes = srl_volumes srl topology etc;
      }))

-- `getEtcPVC`
unfoldable pub get_etc_pvc : KnlConfigSpec → String → String → String → Result EnsureError Claim
unfolding get_obj_meta
get_etc_pvc gconf ns node lab = do
  class ← deref gconf.pvc_storage_class
  ok (record {
    meta = get_obj_meta (lab <> "-" <> node <> "-etc") lab ns node "srl";
    storage_class = class;
    storage = "100Mi";
  })

-- `panic(err)` on an error
abbrev pub unwrap : {E F A : Type 0} → Result E A → Result F A
unwrap (ok a) = ok a
unwrap (err e) = panic
unwrap panic = panic

module _ (P : Parsers) (yaml : SrlChassis → Option String) where
  -- `getConfigMapFromSRLChassis`, which panics on an error
  unfoldable pub get_config_map_from_srl_chassis :
      SrLinux → String → String → String → ℤ → Result EnsureError ConfigMap
  unfolding get_srl_chassis_via_type_str get_base_mac get_obj_meta
  get_config_map_from_srl_chassis srl ns node lab index = do
    type ← deref srl.chassis
    chassis ← unwrap (get_srl_chassis_via_type_str P type)
    text ← deref (yaml (record chassis { base_mac = get_base_mac index }))
    ok (record {
      meta = get_obj_meta (lab <> "-" <> node <> "-topo") lab ns node "srl";
      values = ("topology.yml", text) ∷ [];
    })
