-- ===== src/Pods/Safe.antt =====
-- No `Ensure` of a pod changes an object that is there.
use knl.Common.{
  inl, inr, ℕ, String, Bool-cases, true, false, Option, List, [], ◌∷◌, Map, lookup, Result,
}
use knl.Api.{SrLinux, SrSim, SrCard, SrChassis, GeneralPod, KnlConfigSpec}
use knl.Chassis.{is_empty}
use knl.Cluster.Interface.{Object, ApiError, Client, IsLawful}
use knl.Kube.{Resource, ParsedLab, pod_target, claim_target, config_map_target, nad_target}
use knl.Kube.Laws.{IsSafe, from-IsSafe, >>=-IsSafe, ensure_object-IsSafe}
use knl.Pods.Ensure.{
  ensure_srl, ensure_cfs, ensure_cards, ensure_srsim, ensure_spoke_nads, ensure_nads, ensure_pod,
}
use knl.Pods.Nets.{LanNames}
use knl.Validate.Imports.{Parsers}
use knl.Validate.Srl.{SrlChassis}
use knl.Vm.{Nad}
use knl.Vm.Spokes.{or_nil}

module _ (names : LanNames) (gconf : KnlConfigSpec) (C : Client Resource) (L : IsLawful C)
    (set_owner : Object Resource → Result ApiError (Object Resource)) (lab : ParsedLab)
    (node : String) where
  pub ensure_srl-IsSafe :
      (P : Parsers) (yaml : SrlChassis → Option String) (srl : SrLinux)
      → IsSafe C (ensure_srl names gconf C set_owner lab node P yaml srl)
  unfolding ensure_srl
  ensure_srl-IsSafe P yaml srl = >>=-IsSafe (from-IsSafe _) λ topology.
      >>=-IsSafe
        (ensure_object-IsSafe C L set_owner lab "topology configmap" (config_map_target topology)
          true)
        λ _. >>=-IsSafe (from-IsSafe _) λ etc.
          >>=-IsSafe (ensure_object-IsSafe C L set_owner lab "etc pvc" (claim_target etc) false)
            λ _.
              >>=-IsSafe (from-IsSafe _)
                λ pod. ensure_object-IsSafe C L set_owner lab "SRL pod" (pod_target pod) true

  pub ensure_cfs-IsSafe :
      (slot : String) (is : List ℕ) → IsSafe C (ensure_cfs names gconf C set_owner lab node slot is)
  unfolding ensure_cfs
  ensure_cfs-IsSafe slot [] = from-IsSafe _
  ensure_cfs-IsSafe slot (i ∷ is) = >>=-IsSafe (from-IsSafe _) λ pvc.
      >>=-IsSafe (ensure_object-IsSafe C L set_owner lab "cf card pvc" (claim_target pvc) false)
        λ _. >>=-IsSafe (ensure_cfs-IsSafe slot is) λ r. from-IsSafe _

  pub ensure_cards-IsSafe :
      (image : String) (chassis : SrChassis) (cards : Map SrCard)
      → IsSafe C (ensure_cards names gconf C set_owner lab node image chassis cards)
  unfolding ensure_cards
  ensure_cards-IsSafe image chassis [] = from-IsSafe _
  ensure_cards-IsSafe image chassis ((slot, card) ∷ cards) = >>=-IsSafe (from-IsSafe _) λ vars.
      >>=-IsSafe (ensure_cfs-IsSafe slot _)
        λ r. >>=-IsSafe (ensure_cards-IsSafe image chassis cards) λ r. from-IsSafe _

  pub ensure_srsim-IsSafe :
      (cards : Map SrCard) (srsim : SrSim)
      → IsSafe C (ensure_srsim names gconf C set_owner lab node cards srsim)
  unfolding ensure_srsim
  ensure_srsim-IsSafe cards srsim = >>=-IsSafe (from-IsSafe _) λ image.
      >>=-IsSafe (from-IsSafe _) λ chassis.
        >>=-IsSafe (ensure_cards-IsSafe image chassis cards) λ r.
          >>=-IsSafe (from-IsSafe _)
            λ pod. ensure_object-IsSafe C L set_owner lab "SRL pod" (pod_target pod) true

  module _ (P : Parsers)
      (gen_nad : String → String → String → List P.Prefix → List (P.Prefix × P.Addr) → Nad)
      (my_namespace : String) where
    ensure_spoke_nads-IsSafe :
        (spokes : List String)
        → IsSafe C
            (ensure_spoke_nads names gconf C set_owner lab node P gen_nad my_namespace spokes)
    unfolding ensure_spoke_nads
    ensure_spoke_nads-IsSafe [] = from-IsSafe _
    ensure_spoke_nads-IsSafe (spoke ∷ more) = >>=-IsSafe (from-IsSafe _) λ c.
        elim (Bool-cases (is_empty c.addrs)) [
          | inl t ↦ rw t (ensure_spoke_nads-IsSafe more)
          | inr f ↦ rw f (
              >>=-IsSafe (from-IsSafe _) λ nad.
                >>=-IsSafe
                  (ensure_object-IsSafe C L set_owner lab "general pod nad" (nad_target nad) true)
                  λ _. ensure_spoke_nads-IsSafe more)
        ]

    pub ensure_nads-IsSafe :
        (links : Map (List String))
        → IsSafe C (ensure_nads names gconf C set_owner lab node P gen_nad my_namespace links)
    unfolding ensure_nads
    ensure_nads-IsSafe [] = from-IsSafe _
    ensure_nads-IsSafe ((link, spokes) ∷ links) =
        >>=-IsSafe (ensure_spoke_nads-IsSafe spokes) λ _. ensure_nads-IsSafe links

    pub ensure_pod-IsSafe :
        (split : String → List String) (gpod : GeneralPod)
        → IsSafe C (ensure_pod names gconf C set_owner lab node P gen_nad my_namespace split gpod)
    unfolding ensure_pod
    ensure_pod-IsSafe split gpod = >>=-IsSafe (from-IsSafe _) λ size.
        >>=-IsSafe (from-IsSafe _) λ root.
          >>=-IsSafe (ensure_object-IsSafe C L set_owner lab "etc pvc" (claim_target root) false)
            λ _. >>=-IsSafe (from-IsSafe _) λ image.
              >>=-IsSafe (ensure_nads-IsSafe (or_nil (lookup node lab.spokes.spoke_map))) λ _.
                >>=-IsSafe (from-IsSafe _)
                  λ pod. ensure_object-IsSafe C L set_owner lab "general pod" (pod_target pod) true
