-- ===== src/Pods/Nodes.antt =====
-- `Ensure` of a node, whatever its system, and the loop of the lab reconciler over the nodes
-- (internal/controller/lab_controller.go, from "create nodes" on). `Ensure` of the virtual machines is a parameter here.
use knl.Common.{
  All, ◌≡◌, sym, String, ◌<>◌, Bool, true, false, Option, none, some, List, [], ◌∷◌, Map, Result,
  ok, ok_inj,
}
use knl.Api.{System, OneOfSystem, KnlConfigSpec, SrSim, SrCard, SrChassis, Store}
use knl.Api.OneOf.{get_system}
use knl.Chassis.{deref}
use knl.Cluster.Interface.{Object, ApiError, Client, IsLawful}
use knl.Defaulter.Slots.{cards_of}
use knl.Kube.{
  Resource, ParsedLab, ContextValue, parsed, get_parsed_lab, Action, from, ◌>>=◌, ◌>>◌, Pod,
  Container, PodVolume,
}
use knl.Kube.Gives.{
  IsGiving, from_then, from_last, weaken, framed, >>=-IsGiving, IsStable, none-IsStable,
}
use knl.Kube.Laws.{from_then-IsSafe, IsSafe, from-IsSafe, >>=-IsSafe}
use knl.Pods.Cards.{AreCards}
use knl.Pods.Ensure.{ensure_srl, ensure_srsim, ensure_pod}
use knl.Pods.General.{general_pod}
use knl.Pods.Nets.{LanNames}
use knl.Pods.Gives.{ensure_srl-IsGiving, ensure_pod-IsGiving, ensure_srsim-IsGiving}
use knl.Pods.Runnable.{IsRunnable, Extends-IsRunnable}
use knl.Pods.Safe.{ensure_srl-IsSafe, ensure_srsim-IsSafe, ensure_pod-IsSafe}
use knl.Pods.Srl.{srl_pod}
use knl.Pods.SrSim.{sim_pod}
use knl.Pods.Shapes.{deref-some}
use knl.Validate.Imports.{Parsers}
use knl.Validate.Srl.{SrlChassis}
use knl.Vm.{Nad}

-- the card map of the chassis
abbrev pub sim_cards : Store → SrSim → Map SrCard
sim_cards store srsim = elim srsim.chassis [ none ↦ [] | some c ↦ cards_of c.cards store ]

-- whether a system becomes a pod
abbrev pub is_pod_system : System → Bool
is_pod_system (System.srl _) = true
is_pod_system (System.pod _) = true
is_pod_system (System.srsim _) = true
is_pod_system _ = false

-- every node that has a system becomes a pod
abbrev pub ArePods : Map OneOfSystem → Type 0
ArePods nodes =
    All
      (λ entry.
        (sys : System) (field : String)
        → get_system entry.1 ≡ some (sys, field)
        → is_pod_system sys ≡ true)
      nodes

-- The imported packages, as far as `Ensure` uses them.
pub record Packages : Type 1 where
  pub parsers : Parsers
  pub names : LanNames
  pub yaml : SrlChassis → Option String
  pub split_words : String → List String
  pub gen_nad :
      String → String → String → List parsers.Prefix → List (parsers.Prefix × parsers.Addr) → Nad

module _ (K : Packages) (gconf : KnlConfigSpec) (my_namespace : String) (store : Store)
    (C : Client Resource) (set_owner : Object Resource → Result ApiError (Object Resource))
    (ensure_vm : ContextValue → String → System → Action C.St Unit) where
  -- `sys.Ensure`; that of the pods starts with the check of the context
  unfoldable pub ensure_system : ContextValue → String → System → Action C.St Unit
  unfolding ensure_srl ensure_pod ensure_srsim get_parsed_lab
  ensure_system ctx node (System.srl srl) = from (get_parsed_lab ctx) >>= λ lab.
      ensure_srl K.names gconf C set_owner lab node K.parsers K.yaml srl
  ensure_system ctx node (System.pod gpod) = from (get_parsed_lab ctx) >>= λ lab.
      ensure_pod K.names gconf C set_owner lab node K.parsers K.gen_nad my_namespace K.split_words
        gpod
  ensure_system ctx node (System.srsim srsim) = from (get_parsed_lab ctx) >>= λ lab.
      ensure_srsim K.names gconf C set_owner lab node (sim_cards store srsim) srsim
  ensure_system ctx node sys = ensure_vm ctx node sys

  -- the loop over the nodes; a node without a system is a nil `System`
  unfoldable pub ensure_nodes : ContextValue → Map OneOfSystem → Action C.St Unit
  unfolding ensure_system get_system
  ensure_nodes ctx [] = from (ok tt)
  ensure_nodes ctx ((name, node) ∷ nodes) = do
    (sys, field) ← from (deref (get_system node))
    ensure_system ctx name sys
    ensure_nodes ctx nodes

  -- the pod that `Ensure` builds for a node
  unfoldable pub IsBuilt : ParsedLab → String → System → Pod → Type 0
  IsBuilt lab node (System.srl srl) p =
      srl_pod K.names lab srl node (lab.name <> "-" <> node <> "-topo")
        (lab.name <> "-" <> node <> "-etc")
      ≡ ok p
  IsBuilt lab node (System.pod gpod) p =
      (image : String) × (gpod.image ≡ some image)
      × (general_pod K.names K.split_words lab gpod image node (lab.name <> "-" <> node <> "-root")
          ≡ ok p)
  IsBuilt lab node (System.srsim srsim) p =
      (image : String) × (chassis : SrChassis) × (cs : List Container) × (vs : List PodVolume)
      × (srsim.image ≡ some image)
      × (srsim.chassis ≡ some chassis)
      × AreCards lab.name node image chassis (sim_cards store srsim) cs vs
      × (sim_pod K.names lab srsim node image chassis (sim_cards store srsim) cs vs ≡ ok p)
  IsBuilt lab node sys p = Unit

  -- the pod of a node that becomes one is there with all that it needs
  abbrev HasPod : C.St → ParsedLab → String → System → Type 0
  HasPod st lab node sys =
      is_pod_system sys ≡ true → (p : Pod) × IsBuilt lab node sys p × IsRunnable C st p

  -- Each node has one system at least, and the pod of it, if it becomes one.
  unfoldable pub HasPods : C.St → ParsedLab → Map OneOfSystem → Type 0
  HasPods st lab [] = Unit
  HasPods st lab ((name, node) ∷ nodes) =
      ((sys : System) × (field : String) × (get_system node ≡ some (sys, field))
        × HasPod st lab name sys)
      × HasPods st lab nodes

  module _ (L : IsLawful C)
      (keeps : (o o' : Object Resource) → set_owner o ≡ ok o' → o'.name ≡ o.name) where
    ensure_system-IsSafe :
        (ctx : ContextValue) (node : String) (sys : System)
        → is_pod_system sys ≡ true
        → IsSafe C (ensure_system ctx node sys)
    unfolding ensure_system
    ensure_system-IsSafe ctx node (System.srl srl) q =
        >>=-IsSafe (from-IsSafe _)
          λ lab. ensure_srl-IsSafe K.names gconf C L set_owner lab node K.parsers K.yaml srl
    ensure_system-IsSafe ctx node (System.pod gpod) q = >>=-IsSafe (from-IsSafe _) λ lab.
        ensure_pod-IsSafe K.names gconf C L set_owner lab node K.parsers K.gen_nad my_namespace
          K.split_words gpod
    ensure_system-IsSafe ctx node (System.srsim srsim) q = >>=-IsSafe (from-IsSafe _) λ lab.
        ensure_srsim-IsSafe K.names gconf C L set_owner lab node (sim_cards store srsim) srsim
    ensure_system-IsSafe ctx node (System.vsim s) q = cc
    ensure_system-IsSafe ctx node (System.vsri s) q = cc
    ensure_system-IsSafe ctx node (System.magc s) q = cc
    ensure_system-IsSafe ctx node (System.vm s) q = cc

    -- The loop over nodes that all become pods changes no object that is there, whatever it returns. The
    -- client follows its documented laws, and setting the owner keeps the name.
    pub ensure_nodes-IsSafe :
        (ctx : ContextValue) (nodes : Map OneOfSystem)
        → ArePods nodes
        → IsSafe C (ensure_nodes ctx nodes)
    unfolding ensure_nodes
    ensure_nodes-IsSafe ctx [] pods = from-IsSafe _
    ensure_nodes-IsSafe ctx ((name, node) ∷ nodes) (pod, pods) = from_then-IsSafe λ r e.
        >>=-IsSafe (ensure_system-IsSafe ctx name r.0 (pod r.0 r.1 (deref-some _ r e)))
          λ _. ensure_nodes-IsSafe ctx nodes pods

    ensure_system-HasPod :
        (lab : ParsedLab) (node : String) (sys : System)
        → IsGiving
            (λ _. Unit)
            (ensure_system (parsed lab) node sys)
            (λ _ st. HasPod st lab node sys)
    unfolding ensure_system IsBuilt get_parsed_lab
    ensure_system-HasPod lab node (System.srl srl) = from_then λ l e. rw (sym (ok_inj e)) (
        weaken (ensure_srl-IsGiving C K.names gconf L set_owner keeps lab node K.parsers K.yaml srl)
          λ a st h q. h)
    ensure_system-HasPod lab node (System.pod gpod) = from_then λ l e. rw (sym (ok_inj e)) (
        weaken
          (ensure_pod-IsGiving C K.names gconf L set_owner keeps lab node K.parsers K.gen_nad
            my_namespace K.split_words gpod)
          λ a st (p, image, e1, e2, runnable) q. (p, (image, e1, e2), runnable))
    ensure_system-HasPod lab node (System.srsim srsim) = from_then λ l e. rw (sym (ok_inj e)) (
        weaken
          (ensure_srsim-IsGiving C K.names gconf L set_owner keeps lab node (sim_cards store srsim)
            srsim)
          λ a st (image, chassis, cs, vs, p, e1, e2, named, e3, runnable) q.
            (p, (image, chassis, cs, vs, e1, e2, named, e3), runnable))
    ensure_system-HasPod lab node (System.vsim s) = record { gives = λ st a p h q. cc }
    ensure_system-HasPod lab node (System.vsri s) = record { gives = λ st a p h q. cc }
    ensure_system-HasPod lab node (System.magc s) = record { gives = λ st a p h q. cc }
    ensure_system-HasPod lab node (System.vm s) = record { gives = λ st a p h q. cc }

    HasPods-IsGiving :
        (lab : ParsedLab) (nodes : Map OneOfSystem) (P : C.St → Type 0)
        → ArePods nodes
        → IsStable C P
        → IsGiving P (ensure_nodes (parsed lab) nodes) (λ _ st. P st × HasPods st lab nodes)
    unfolding ensure_nodes HasPods
    HasPods-IsGiving lab [] P pods stable = from_last λ a st e p. (p, tt)
    HasPods-IsGiving lab ((name, node) ∷ nodes) P (pod_system, pods) stable = from_then λ r e.
        >>=-IsGiving
          (framed C L set_owner keeps P stable
            (ensure_system-IsSafe (parsed lab) name r.0 (pod_system r.0 r.1 (deref-some _ r e)))
            (ensure_system-HasPod lab name r.0))
          λ _.
            weaken
              (HasPods-IsGiving lab nodes _ pods λ st st' ext (p, pod). (
                stable st st' ext p,
                λ q.
                    let (built_pod, built, runnable) = pod q in
                    (built_pod, built, Extends-IsRunnable C st st' built_pod ext runnable),
              ))
              λ a st ((p, pod), more). (p, ((r.0, r.1, deref-some _ r e, pod), more))

    -- When the loop over nodes that all become pods succeeds, each node has a system, and in the cluster
    -- a pod of its name, and the claims and the config map that the volumes of the pod built for it
    -- name; each mount of that pod names one of its volumes. The pod built for an SR-SIM has the
    -- containers of its cards, with the claims of the compact flashes of each CPM. The client follows
    -- its documented laws, and setting the owner keeps the name.
    pub ensure_nodes-HasPods :
        (lab : ParsedLab) (nodes : Map OneOfSystem) (st : C.St)
        → ArePods nodes
        → (ensure_nodes (parsed lab) nodes st).1 ≡ ok tt
        → HasPods (ensure_nodes (parsed lab) nodes st).0 lab nodes
    ensure_nodes-HasPods lab nodes st pods h =
        ((HasPods-IsGiving lab nodes (λ _. Unit) pods (none-IsStable C)).gives st tt tt h).1
