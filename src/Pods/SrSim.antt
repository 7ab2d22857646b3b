-- ===== src/Pods/SrSim.antt =====
-- SR-SIM: `getCFPVC` and the parts of the pod that `Ensure` builds (api/v1beta1/srsim.go).
use knl.Common.{
  ℕ, ◌+◌, String, ◌<>◌, ◌==◌, true, if◌then◌else◌, Option, none, some, List, [], ◌∷◌, ◌++◌, Map,
  Result, ok, panic, ◌>>=◌,
}
use knl.Text.{itoa, to_lower, trim_space}
use knl.Names.{is_cpm}
use knl.Api.{SrSim, SrCard, SrChassis, Xiom, Quantity, Connector, KnlConfigSpec}
use knl.Chassis.{deref, get_default_mda_slot}
use knl.Kube.{
  EnvVar, Container, VolumeMount, PodVolume, claim_source, secret_source, Pod, Claim, EnsureError,
  ParsedLab, new_base_pod,
}
use knl.Pods.Nets.{LanNames, node_nets, annotate}
use knl.Pods.Srl.{mount, requests_of}
use knl.Vm.{get_obj_meta}

abbrev pub env : String → String → EnvVar
env name value = record { name = name; value = value }

-- the variables of MDAs, from the number `k` on
mda_env : String → ℕ → List String → List EnvVar
unfolding itoa
mda_env prefix k [] = []
mda_env prefix k (mda ∷ mdas) = env (prefix <> itoa k) mda ∷ mda_env prefix (k + 1) mdas

-- the variables of the XIOMs of a card
xiom_env : Map Xiom → Result EnsureError (List EnvVar)
unfolding mda_env
xiom_env [] = ok []
xiom_env ((slot, xiom) ∷ xioms) = do
  model ← deref xiom.model
  rest ← xiom_env xioms
  ok (
      env ("NOKIA_SROS_XIOM_" <> slot) model
        ∷ mda_env ("NOKIA_SROS_MDA_" <> slot <> "_") 1 xiom.mdas
      ++ rest)

abbrev pub sfm_env : Option String → List EnvVar
unfolding trim_space
sfm_env none = []
sfm_env (some sfm) = if trim_space sfm == "" then [] else env "NOKIA_SROS_SFM" sfm ∷ []

abbrev pub card_mda_env : Option (List String) → List EnvVar
unfolding mda_env
card_mda_env none = []
card_mda_env (some mdas) = mda_env "NOKIA_SROS_MDA_" 1 mdas

abbrev pub mac_env : Option String → List EnvVar
mac_env none = []
mac_env (some mac) = env "NOKIA_SROS_SYSTEM_BASE_MAC" mac ∷ []

-- the variables of a card's container
unfoldable pub card_env : SrChassis → String → SrCard → Result EnsureError (List EnvVar)
unfolding xiom_env is_cpm mda_env trim_space
card_env chassis slot card = do
  model ← deref chassis.model
  card_model ← deref card.model
  xioms ← xiom_env card.xiom
  ok (
      (env "NOKIA_SROS_CHASSIS" model
        ∷ env "NOKIA_SROS_SLOT" slot
        ∷ env "NOKIA_SROS_CARD" card_model
        ∷ [])
      ++ sfm_env chassis.sfm
      ++ xioms
      ++ card_mda_env card.mdas
      ++ (if is_cpm slot then mac_env chassis.chassis_mac else []))

-- `getCFPVCName`
unfoldable pub get_cf_pvc_name : String → String → String → ℕ → String
unfolding to_lower itoa
get_cf_pvc_name node lab slot id = to_lower (lab <> "-" <> node <> "-cf-" <> slot <> "-" <> itoa id)

-- `getCFPVC`
unfoldable pub get_cf_pvc :
    KnlConfigSpec → String → String → String → String → ℕ → Result EnsureError Claim
unfolding get_cf_pvc_name get_obj_meta
get_cf_pvc gconf ns node lab slot id = do
  class ← deref gconf.pvc_storage_class
  ok (record {
    meta = get_obj_meta (get_cf_pvc_name node lab slot id) lab ns node "srsim";
    storage_class = class;
    storage = "64Mi";
  })

abbrev pub cf_mount : Claim → ℕ → VolumeMount
cf_mount pvc i = mount pvc.meta.name ("/cf" <> itoa i)

abbrev pub cf_volume : Claim → PodVolume
cf_volume pvc = record { name = pvc.meta.name; source = claim_source pvc.meta.name }

-- the container of a card; `cfs` are the mounts of its compact flashes
unfoldable pub card_container :
    String → String → SrCard → List EnvVar → List VolumeMount → Container
unfolding to_lower
card_container image slot card vars cfs = record {
  name = to_lower ("slot-" <> slot);
  image = image;
  command = [];
  security_context =
      some (record { privileged = some true; run_as_user = none; run_as_group = none });
  volume_mounts =
      record { name = "lic"; mount_path = "/nokia/license/license.txt"; sub_path = "license" }
      ∷ cfs;
  env = vars;
  limits = [];
  requests = requests_of card.req_cpu card.req_memory;
  pre_stop = [];
}

-- the volume of the license
abbrev pub license_volume : String → PodVolume
license_volume secret = record { name = "lic"; source = secret_source secret }

-- `pod.Spec.Containers[0].Resources.Limits`, which panics if there is no container
abbrev pub set_limits : Map Quantity → List Container → Result EnsureError (List Container)
set_limits limits [] = panic
set_limits limits (c ∷ cs) = ok (record c { limits = limits } ∷ cs)

-- the text of a spoke: without a port, the port of its number on the first card
unfoldable pub sim_entry :
    LanNames → SrChassis → Map SrCard → ℕ → String → String → Connector → Result EnsureError String
unfolding itoa get_default_mda_slot
sim_entry names chassis cards i lan spoke c = elim c.port_id [
  | some port ↦ ok (names.get_def_nad_name lan spoke <> "@" <> port)
  | none ↦ do
    slot ← get_default_mda_slot chassis cards
    ok (names.get_def_nad_name lan spoke <> "@e" <> slot <> "-1-" <> itoa i)
]

-- The pod, with its containers and the volumes of the compact flashes, from "volumes" on.
unfoldable pub sim_pod :
    LanNames
    → ParsedLab
    → SrSim
    → String
    → String
    → SrChassis
    → Map SrCard
    → List Container
    → List PodVolume
    → Result EnsureError Pod
unfolding new_base_pod node_nets sim_entry annotate
sim_pod names lab srsim node image chassis cards containers volumes = do
  secret ← deref srsim.lic_secret
  nets ← node_nets names lab.name lab.spokes (sim_entry names chassis cards) node
  limited ← set_limits nets.limits containers
  ok (
      annotate nets.text (record (new_base_pod lab.name node lab.ns image "srsim") {
        containers = limited;
        volumes = volumes ++ (license_volume secret ∷ []);
      }))
