-- ===== src/Reconcile/Reads.antt =====
-- Runs of the lab reconciler (internal/controller/lab_controller.go) that read a lab, and what they change.
use mathlib.Core.Option.{some_inj}
use knl.Common.{
  ◌≡◌, refl, sym, ap, ◌∙◌, String, Bool, true, some, keys, Result, ok, err, panic, All, All-map,
}
use knl.Alloc.Bits.{BitSet}
use knl.Api.{System, KnlConfigSpec, Store}
use knl.Cluster.Interface.{Object, ApiError, Client, IsLawful}
use knl.Kube.{Resource, of_lab, LabBody, ContextValue, Action, collection}
use knl.Lans.{Lan}
use knl.Lans.Release.{IsFree}
use knl.Names.{get_k8lan_name}
use knl.Pods.Nodes.{Packages}
use knl.Reconcile.{
  Finalizers, ReconcileError, labs, create_parsed, updated, by_deletion, reconcile_resource,
  reconcile, parse_lab,
}
use knl.Reconcile.LanClient.{lan_client, seen}
use knl.Reconcile.Laws.{apart}

pub updated_state : {S : Type 0} (r : S × Result ApiError Unit) → (updated r).0 ≡ r.0
updated_state (st, ok _) = refl
updated_state (st, err _) = refl
updated_state (st, panic) = refl

-- no LAN of the lab's links has the finalizer
abbrev pub AreFree : (C : Client Resource) → Finalizers → C.St → String → String → LabBody → Type 0
AreFree C F st ns name lab =
    All (λ link. IsFree (lan_client C) F.contains st ns (get_k8lan_name name link))
      (keys lab.spec.link_list)

-- only the lab of the name is changed
abbrev pub KeepsOthers : (C : Client Resource) → C.St → C.St → String → String → Type 0
KeepsOthers C st next ns name =
    (ns' other : String)
    → ((ns' ≡ labs ns) × (other ≡ name) → ⊥)
    → C.view next ns' other ≡ C.view st ns' other

module _ (K : Packages) (B : BitSet) (F : Finalizers) (gconf : KnlConfigSpec)
    (my_namespace : String) (store : Store) (C : Client Resource)
    (set_owner : Object Resource → Result ApiError (Object Resource))
    (set_lan_owner : Lan → Result ApiError Lan)
    (ensure_vm : ContextValue → String → System → Action C.St Unit) where
  -- the run is one that makes the links and nodes of a lab that is stored with the finalizer
  abbrev pub Creates : C.St × Result ReconcileError Unit → String → String → LabBody → Type 0
  Creates run ns name lab =
      (st' : C.St) × (o' : Object Resource) × (C.view st' (labs ns) name ≡ some o')
      × (F.contains o'.finalizers ≡ true)
      × (run
          ≡ create_parsed K B F gconf my_namespace store C set_owner set_lan_owner ensure_vm st'
              (parse_lab ns o' lab))

module _ (K : Packages) (B : BitSet) (F : Finalizers) (gconf : KnlConfigSpec)
    (my_namespace : String) (store : Store) (C : Client Resource)
    (set_owner : Object Resource → Result ApiError (Object Resource))
    (set_lan_owner : Lan → Result ApiError Lan)
    (ensure_vm : ContextValue → String → System → Action C.St Unit) (L : IsLawful C) where
  -- a run that reads the lab is the run on the lab that is there
  pub reads :
      (st : C.St) (ns name : String) (o o' : Object Resource) (lab : LabBody) (deleting : Bool)
      → C.view st (labs ns) name ≡ some o
      → C.get st (labs ns) name ≡ ok o'
      → o.body ≡ of_lab lab
      → lab.deleting ≡ deleting
      → reconcile K B F gconf my_namespace store C set_owner set_lan_owner ensure_vm st ns name
        ≡ by_deletion K B F gconf my_namespace store C set_owner set_lan_owner ensure_vm st ns o lab
            deleting
  unfolding reconcile reconcile_resource
  reads st ns name o o' lab deleting there e body flag =
      let same : o' ≡ o = some_inj.0 (sym (L.get_found st (labs ns) name o' e) ∙ there) in
      let run : reconcile K B F gconf my_namespace store C set_owner set_lan_owner ensure_vm st ns
            name
          ≡ reconcile_resource K B F gconf my_namespace store C set_owner set_lan_owner ensure_vm st
              ns o' o'.body =
        rw (reconcile, e) refl in
      run
      ∙ ap
          (λ x.
            reconcile_resource K B F gconf my_namespace store C set_owner set_lan_owner ensure_vm st
              ns x x.body)
          same
      ∙ ap
          (reconcile_resource K B F gconf my_namespace store C set_owner set_lan_owner ensure_vm st
            ns o)
          body
      ∙ ap
          (by_deletion K B F gconf my_namespace store C set_owner set_lan_owner ensure_vm st ns o
            lab)
          flag

  -- an update of a lab changes no LAN
  pub update-AreFree :
      (st : C.St) (ns name : String) (lab : LabBody) (o : Object Resource)
      → AreFree C F st ns name lab
      → AreFree C F (C.update st (labs ns) o).0 ns name lab
  unfolding IsFree
  update-AreFree st ns name lab o =
      All-map (λ link. IsFree (lan_client C) F.contains st ns (get_k8lan_name name link)) _
        (λ link free lan e. free lan (
          sym (
            ap seen (
              L.update_others st (labs ns) o (collection ns "lans") (get_k8lan_name name link)
                (λ (q, _). apart ns ns q)))
          ∙ e))
        (keys lab.spec.link_list)
