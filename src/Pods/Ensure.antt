-- ===== src/Pods/Ensure.antt =====
-- `Ensure` of SR Linux (api/v1beta1/srl.go), SR-SIM (api/v1beta1/srsim.go) and general pods
-- (api/v1beta1/generalpod.go), as actions on the cluster. None reads its argument `forceRemoval`.
use knl.Common.{
  ℕ, String, true, false, if◌then◌else◌, Option, List, [], ◌∷◌, ◌++◌, Map, lookup, Result, ok,
}
use knl.Names.{is_cpm, get_k8lan_name}
use knl.Api.{SrLinux, SrSim, SrCard, SrChassis, GeneralPod, KnlConfigSpec}
use knl.Chassis.{deref, is_empty}
use knl.Cluster.Interface.{Object, ApiError, Client}
use knl.Kube.{
  Resource, Container, VolumeMount, PodVolume, ParsedLab, Action, from, ◌>>=◌, ◌>>◌, ensure_object,
  pod_target, claim_target, config_map_target, nad_target,
}
use knl.Pods.General.{get_root_pvc, general_pod, address_nad}
use knl.Pods.Nets.{LanNames, lan_of}
use knl.Pods.Srl.{get_config_map_from_srl_chassis, get_node_sort_index, get_etc_pvc, srl_pod}
use knl.Pods.SrSim.{get_cf_pvc, cf_mount, cf_volume, card_env, card_container, sim_pod}
use knl.Validate.Imports.{Parsers}
use knl.Validate.Srl.{SrlChassis}
use knl.Vm.{Nad}
use knl.Vm.Spokes.{or_nil}

module _ (names : LanNames) (gconf : KnlConfigSpec) (C : Client Resource)
    (set_owner : Object Resource → Result ApiError (Object Resource)) (lab : ParsedLab)
    (node : String) where
  -- `SRLinux.Ensure`, behind the check of the context
  unfoldable pub ensure_srl :
      (P : Parsers) → (SrlChassis → Option String) → SrLinux → Action C.St Unit
  unfolding get_config_map_from_srl_chassis get_node_sort_index ensure_object get_etc_pvc srl_pod
  ensure_srl P yaml srl = do
    topology ← from (
        get_config_map_from_srl_chassis P yaml srl lab.ns node lab.name
          (get_node_sort_index lab.spec node))
    ensure_object C set_owner lab "topology configmap" (config_map_target topology) true
    etc ← from (get_etc_pvc gconf lab.ns node lab.name)
    ensure_object C set_owner lab "etc pvc" (claim_target etc) false
    pod ← from (srl_pod names lab srl node topology.meta.name etc.meta.name)
    ensure_object C set_owner lab "SRL pod" (pod_target pod) true

  -- the loop over the compact flashes of a CPM
  unfoldable pub ensure_cfs : String → List ℕ → Action C.St (List VolumeMount × List PodVolume)
  unfolding get_cf_pvc ensure_object
  ensure_cfs slot [] = from (ok ([], []))
  ensure_cfs slot (i ∷ is) = do
    pvc ← from (get_cf_pvc gconf lab.ns node lab.name slot i)
    ensure_object C set_owner lab "cf card pvc" (claim_target pvc) false
    (mounts, volumes) ← ensure_cfs slot is
    from (ok (cf_mount pvc i ∷ mounts, cf_volume pvc ∷ volumes))

  -- the compact flashes of a card: three for a CPM
  abbrev pub card_cfs : String → List ℕ
  card_cfs slot = if is_cpm slot then 1 ∷ 2 ∷ 3 ∷ [] else []

  -- the loop over the cards: a container for each, and the volumes
  unfoldable pub ensure_cards :
      String → SrChassis → Map SrCard → Action C.St (List Container × List PodVolume)
  unfolding ensure_cfs card_env card_container is_cpm
  ensure_cards image chassis [] = from (ok ([], []))
  ensure_cards image chassis ((slot, card) ∷ cards) = do
    vars ← from (card_env chassis slot card)
    (mounts, volumes) ← ensure_cfs slot (card_cfs slot)
    (containers, more) ← ensure_cards image chassis cards
    from (ok (card_container image slot card vars mounts ∷ containers, volumes ++ more))

  -- `SRSim.Ensure`, behind the check of the context; `cards` is the card map of the chassis
  unfoldable pub ensure_srsim : Map SrCard → SrSim → Action C.St Unit
  unfolding ensure_cards sim_pod ensure_object
  ensure_srsim cards srsim = do
    image ← from (deref srsim.image)
    chassis ← from (deref srsim.chassis)
    (containers, volumes) ← ensure_cards image chassis cards
    pod ← from (sim_pod names lab srsim node image chassis cards containers volumes)
    ensure_object C set_owner lab "SRL pod" (pod_target pod) true

  module _ (P : Parsers)
      (gen_nad : String → String → String → List P.Prefix → List (P.Prefix × P.Addr) → Nad)
      (my_namespace : String) where
    -- the attachments with addresses, for the spokes of a link
    unfoldable pub ensure_spoke_nads : List String → Action C.St Unit
    unfolding address_nad ensure_object lookup get_k8lan_name
    ensure_spoke_nads [] = from (ok tt)
    ensure_spoke_nads (spoke ∷ more) =
        from (deref (lookup spoke lab.spokes.spoke_connector_map)) >>= λ c.
        elim (is_empty c.addrs) [
          | true ↦ ensure_spoke_nads more
          | false ↦ do
            nad ←
                from (address_nad P gen_nad my_namespace (lan_of lab.name lab.spokes spoke) spoke c)
            ensure_object C set_owner lab "general pod nad" (nad_target nad) true
            ensure_spoke_nads more
        ]

    -- the same for each link, in the order of the map
    unfoldable pub ensure_nads : Map (List String) → Action C.St Unit
    unfolding ensure_spoke_nads
    ensure_nads [] = from (ok tt)
    ensure_nads ((link, spokes) ∷ links) = ensure_spoke_nads spokes >> ensure_nads links

    -- `GeneralPod.Ensure`, behind the check of the context
    unfoldable pub ensure_pod : (String → List String) → GeneralPod → Action C.St Unit
    unfolding get_root_pvc ensure_object ensure_nads general_pod lookup
    ensure_pod split gpod = do
      size ← from (deref gpod.pvc_size)
      root ← from (get_root_pvc gconf lab.ns node lab.name size)
      ensure_object C set_owner lab "etc pvc" (claim_target root) false
      image ← from (deref gpod.image)
      ensure_nads (or_nil (lookup node lab.spokes.spoke_map))
      pod ← from (general_pod names split lab gpod image node root.meta.name)
      ensure_object C set_owner lab "general pod" (pod_target pod) true
