-- ===== src/Pods/Gives.antt =====
-- The steps of `Ensure` of SR Linux, SR-SIM and general pods (api/v1beta1/srl.go, srsim.go, generalpod.go).
use knl.Common.{
  refl, map, ◌≡◌, sym, true, false, ℕ, String, ◌<>◌, Option, some, List, [], ◌∷◌, ◌++◌, Map, Result,
  ok, ok_inj, All, All-map, All-append,
}
use knl.Api.{SrLinux, SrSim, SrCard, SrChassis, GeneralPod, KnlConfigSpec}
use knl.Cluster.Interface.{Object, ApiError, Client, IsLawful}
use knl.Kube.{
  Resource, ParsedLab, pod_target, claim_target, config_map_target, Pod, PodVolume, Container,
  claim_source, secret_source,
}
use knl.Kube.Gives.{
  IsGiving, from_then, from_last, object_then, IsStable, object_last, none-IsStable,
  IsThere-IsStable, >>=-IsGiving, IsSafe-IsGiving,
}
use knl.Pods.Cards.{named_mount, named_volume, AreCards}
use knl.Pods.Ensure.{card_cfs, ensure_srl, ensure_cfs, ensure_cards, ensure_srsim, ensure_pod}
use knl.Pods.General.{general_pod}
use knl.Pods.Nets.{LanNames}
use knl.Pods.SrSim.{card_container, license_volume, sim_pod, cf_volume}
use knl.Pods.Shapes.{
  has_volume, has_volume-first, has_volume-next, has_volume-last, has_volume-left, has_volume-right,
  sim_pod-IsShaped, cf_meta, MountsFit, srl_pod-IsShaped, general_pod-IsShaped, topology_meta,
  etc_meta, root_meta, deref-some,
}
use knl.Pods.Safe.{ensure_nads-IsSafe}
use knl.Pods.Srl.{srl_pod, get_node_sort_index}
use knl.Validate.Imports.{Parsers}
use knl.Validate.Srl.{SrlChassis}
use knl.Vm.{Nad}
use knl.Pods.Runnable.{
  IsRunnable, SourcesThere, Extends-SourcesThere, license_source, IsShaped-IsRunnable,
}

module _ (C : Client Resource) (names : LanNames) (gconf : KnlConfigSpec) (L : IsLawful C)
    (set_owner : Object Resource → Result ApiError (Object Resource))
    (keeps : (o o' : Object Resource) → set_owner o ≡ ok o' → o'.name ≡ o.name) (lab : ParsedLab)
    (node : String) where
  -- When `Ensure` of SR Linux succeeds, the cluster has a pod of the node's name, and all that the
  -- pod that `Ensure` built needs to start.
  pub ensure_srl-IsGiving :
      (P : Parsers) (yaml : SrlChassis → Option String) (srl : SrLinux)
      → IsGiving
          (λ _. Unit)
          (ensure_srl names gconf C set_owner lab node P yaml srl)
          (λ _ st.
            (pod : Pod) × (srl_pod names lab srl node
                (lab.name <> "-" <> node <> "-topo")
                (lab.name <> "-" <> node <> "-etc")
              ≡ ok pod)
            × IsRunnable C st pod)
  unfolding ensure_srl
  ensure_srl-IsGiving P yaml srl = from_then λ topology e1.
      object_then C L set_owner keeps lab "topology configmap" (config_map_target topology) true
        (none-IsStable C)
        λ _. from_then λ etc e2.
          object_then C L set_owner keeps lab "etc pvc" (claim_target etc) false
            (IsThere-IsStable C _ _ _ (none-IsStable C))
            λ _. from_then λ pod e3.
              object_last C L set_owner keeps lab "SRL pod" (pod_target pod) true
                (IsThere-IsStable C _ _ _ (IsThere-IsStable C _ _ _ (none-IsStable C)))
                λ st ((_, t), c) there.
                  let (tn, tm) =
                    topology_meta P yaml srl lab.ns node lab.name
                      (get_node_sort_index lab.spec node) topology e1 in
                  let (cn, cm) = etc_meta gconf lab.ns node lab.name etc e2 in
                  let built = rw (tm, cm) at e3 in
                  (
                    pod,
                    built,
                    IsShaped-IsRunnable C st lab.ns _ pod
                        (srl_pod-IsShaped names lab node srl _ _ pod built) there
                        (
                          rw (tn, tm) at t,
                          (tt, (rw (cn, cm) at c, license_source C st lab.ns srl.lic_secret)),
                        ),
                  )

  -- the compact flashes of a CPM are there, and the mounts fit
  ensure_cfs-IsGiving :
      (slot : String) (is : List ℕ) (P : C.St → Type 0)
      → IsStable C P
      → IsGiving P (ensure_cfs names gconf C set_owner lab node slot is) (λ r st.
        P st
        × (SourcesThere C st lab.ns r.1 × All (λ m. has_volume m.name r.1 ≡ true) r.0)
        × ((r.0 ≡ map (named_mount lab.name node slot) is)
            × (r.1 ≡ map (named_volume lab.name node slot) is)))
  unfolding ensure_cfs
  ensure_cfs-IsGiving slot [] P stable =
      from_last λ a st e p. rw (sym (ok_inj e)) (p, (tt, tt), (refl, refl))
  ensure_cfs-IsGiving slot (i ∷ is) P stable = from_then λ pvc e1.
      object_then C L set_owner keeps lab "cf card pvc" (claim_target pvc) false stable λ _.
        >>=-IsGiving (ensure_cfs-IsGiving slot is _ (IsThere-IsStable C P _ _ stable)) λ r.
          from_last λ a st e ((p, c), (sources, fits), (mounts, volumes)). rw (sym (ok_inj e)) (
            p,
            (
              (rw (cf_meta gconf lab.ns node lab.name slot i pvc e1).0 at c, sources),
              (
                has_volume-first pvc.meta.name (claim_source pvc.meta.name) r.1,
                All-map (λ m. has_volume m.name r.1 ≡ true) _
                    (λ m h. has_volume-next m.name (cf_volume pvc) r.1 h) r.0 fits,
              ),
            ),
            (
              rw (mounts, (cf_meta gconf lab.ns node lab.name slot i pvc e1).1) refl,
              rw (volumes, (cf_meta gconf lab.ns node lab.name slot i pvc e1).1) refl,
            ),
          )

  -- the containers of all cards, with the volumes of the compact flashes
  ensure_cards-IsGiving :
      (image : String) (chassis : SrChassis) (cards : Map SrCard) (P : C.St → Type 0)
      → IsStable C P
      → IsGiving P (ensure_cards names gconf C set_owner lab node image chassis cards) (λ r st.
        P st
        × (SourcesThere C st lab.ns r.1
            × ((secret : String) → All (MountsFit (r.1 ++ (license_volume secret ∷ []))) r.0))
        × AreCards lab.name node image chassis cards r.0 r.1)
  unfolding ensure_cards card_container AreCards
  ensure_cards-IsGiving image chassis [] P stable =
      from_last λ a st e p. rw (sym (ok_inj e)) (p, (tt, λ secret. tt), (refl, refl))
  ensure_cards-IsGiving image chassis ((slot, card) ∷ cards) P stable = from_then λ vars e1.
      >>=-IsGiving
        (ensure_cfs-IsGiving slot (card_cfs names gconf C set_owner lab node slot) P stable)
        λ r.
          >>=-IsGiving
            (ensure_cards-IsGiving image chassis cards _ λ st st' ext (p, (sources, fits), named). (
              stable st st' ext p,
              (Extends-SourcesThere C st st' ext lab.ns r.1 sources, fits),
              named,
            ))
            λ r'.
              from_last
                λ a st e ((p, (sources, fits), (mounts, volumes)), (more, others), cards_named).
                  rw (sym (ok_inj e)) (
                    p,
                    (
                      All-append _ r.1 r'.1 sources more,
                      λ secret. (
                        (
                          has_volume-last "lic" (r.1 ++ r'.1) (secret_source secret),
                          All-map (λ m. has_volume m.name r.1 ≡ true) _
                              (λ m h.
                                has_volume-left m.name (r.1 ++ r'.1) _
                                  (has_volume-left m.name r.1 r'.1 h))
                              r.0 fits,
                        ),
                        All-map (MountsFit (r'.1 ++ (license_volume secret ∷ []))) _
                            (λ c.
                              All-map
                                (λ m.
                                  has_volume m.name (r'.1 ++ (license_volume secret ∷ [])) ≡ true)
                                _
                                (λ m. has_volume-right m.name r.1 r'.1 (license_volume secret ∷ []))
                                c.volume_mounts)
                            r'.0 (others secret),
                      ),
                    ),
                    (vars, r'.0, r'.1, e1, rw mounts refl, rw volumes refl, cards_named),
                  )

  -- `Ensure` of SR-SIM, in the same way; the containers and volumes are those of its cards
  pub ensure_srsim-IsGiving :
      (cards : Map SrCard) (srsim : SrSim)
      → IsGiving
          (λ _. Unit)
          (ensure_srsim names gconf C set_owner lab node cards srsim)
          (λ _ st.
            (image : String) × (chassis : SrChassis) × (cs : List Container) × (vs : List PodVolume)
            × (pod : Pod) × (srsim.image ≡ some image)
            × (srsim.chassis ≡ some chassis)
            × AreCards lab.name node image chassis cards cs vs
            × (sim_pod names lab srsim node image chassis cards cs vs ≡ ok pod)
            × IsRunnable C st pod)
  unfolding ensure_srsim
  ensure_srsim-IsGiving cards srsim = from_then λ image e1. from_then λ chassis e2.
      >>=-IsGiving (ensure_cards-IsGiving image chassis cards _ (none-IsStable C)) λ r.
        from_then λ pod e3.
          object_last C L set_owner keeps lab "SRL pod" (pod_target pod) true
            (λ st st' ext (p, (sources, fits), named).
              (tt, (Extends-SourcesThere C st st' ext lab.ns r.1 sources, fits), named))
            λ st (p, (sources, fits), named) there.
              let (secret, shaped) =
                sim_pod-IsShaped names lab srsim node image chassis cards r.0 r.1 pod e3 fits in
              (
                image,
                chassis,
                r.0,
                r.1,
                pod,
                deref-some srsim.image image e1,
                deref-some srsim.chassis chassis e2,
                named,
                e3,
                IsShaped-IsRunnable C st lab.ns _ pod shaped there
                    (All-append _ r.1 (license_volume secret ∷ []) sources (tt, tt)),
              )

  -- `Ensure` of a general pod, in the same way; the attachments come in between
  pub ensure_pod-IsGiving :
      (P : Parsers)
      (gen_nad : String → String → String → List P.Prefix → List (P.Prefix × P.Addr) → Nad)
      (my_namespace : String) (split : String → List String) (gpod : GeneralPod)
      → IsGiving
          (λ _. Unit)
          (ensure_pod names gconf C set_owner lab node P gen_nad my_namespace split gpod)
          (λ _ st.
            (pod : Pod) × (image : String) × (gpod.image ≡ some image)
            × (general_pod names split lab gpod image node (lab.name <> "-" <> node <> "-root")
                ≡ ok pod)
            × IsRunnable C st pod)
  unfolding ensure_pod
  ensure_pod-IsGiving P gen_nad my_namespace split gpod = from_then λ size e1. from_then λ root e2.
      object_then C L set_owner keeps lab "etc pvc" (claim_target root) false (none-IsStable C) λ _.
        from_then λ image e3.
          >>=-IsGiving
            (IsSafe-IsGiving C L set_owner keeps _ (IsThere-IsStable C _ _ _ (none-IsStable C))
              (ensure_nads-IsSafe names gconf C L set_owner lab node P gen_nad my_namespace _))
            λ _. from_then λ pod e4.
              object_last C L set_owner keeps lab "general pod" (pod_target pod) true
                (IsThere-IsStable C _ _ _ (none-IsStable C))
                λ st (_, c) there.
                  let (cn, cm) = root_meta gconf lab.ns node lab.name size root e2 in
                  let built = rw cm at e4 in
                  (
                    pod,
                    image,
                    deref-some gpod.image image e3,
                    built,
                    IsShaped-IsRunnable C st lab.ns _ pod
                        (general_pod-IsShaped names split lab gpod image node _ pod built) there
                        (rw (cn, cm) at c, tt),
                  )
