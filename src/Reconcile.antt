-- ===== src/Reconcile.antt =====
-- The lab reconciler: `Reconcile` (internal/controller/lab_controller.go). The finalizer functions of the
-- controller library and the `Ensure` of the virtual machines are parameters.
pub mod LanClient
pub mod Laws
pub mod Reads
pub mod Runs
use knl.Common.{
  ◌>>=◌, String, Bool, true, false, if◌then◌else◌, Option, none, some, List, [], ◌∷◌, Map, Result,
  ok, err, panic,
}
use knl.Alloc.Bits.{BitSet}
use knl.Api.{LabSpec, System, KnlConfigSpec, Store}
use knl.Cluster.Interface.{Object, ApiError, not_found, api_failed, Client}
use knl.Kube.{
  Resource, of_lab, LabBody, ParsedLab, ContextValue, parsed, Action, EnsureError, collection,
}
use knl.Lans.{Lan, LanError, delete_external_resources}
use knl.Lans.Ensure.{Spokes, ensure_links}
use knl.Pods.Nodes.{Packages, ensure_nodes}
use knl.Reconcile.LanClient.{lan_client}
use knl.Vm.General.{connector_map}

pub data ReconcileError : Type 0 where
  get_failed update_failed : ApiError → ReconcileError
  release_failed : LanError → ReconcileError

-- `controllerutil.ContainsFinalizer`, `AddFinalizer` and `RemoveFinalizer`, of the operator's finalizer
pub record Finalizers : Type 0 where
  pub contains : List String → Bool
  pub add : List String → List String
  pub remove : List String → List String

abbrev pub no_spokes : Spokes
no_spokes = record { spoke_map = []; spoke_connector_map = []; spoke_link_map = [] }

-- `ParseLab`, for the lab of an object in a namespace
unfoldable pub parse_lab : String → Object Resource → LabBody → Result Unit ParsedLab
unfolding connector_map
parse_lab ns o lab = do
  m ← connector_map lab.spec.link_list []
  ok (record {
    name = o.name;
    ns = ns;
    uid = lab.uid;
    spec = lab.spec;
    connector_map = m;
    spokes = no_spokes;
  })

abbrev pub labs : String → String
labs ns = collection ns "labs"

abbrev pub updated : {S : Type 0} → S × Result ApiError Unit → S × Result ReconcileError Unit
updated (st, ok _) = (st, ok tt)
updated (st, err e) = (st, err (update_failed e))
updated (st, panic) = (st, panic)

module _ (K : Packages) (B : BitSet) (F : Finalizers) (gconf : KnlConfigSpec)
    (my_namespace : String) (store : Store) (C : Client Resource)
    (set_owner : Object Resource → Result ApiError (Object Resource))
    (set_lan_owner : Lan → Result ApiError Lan)
    (ensure_vm : ContextValue → String → System → Action C.St Unit) where
  -- the nodes, once the links are there; an error is logged, and not returned
  unfoldable pub create_nodes : C.St → ParsedLab → C.St × Result ReconcileError Unit
  unfolding ensure_nodes
  create_nodes st lab =
      let (next, r) =
        ensure_nodes K gconf my_namespace store C set_owner ensure_vm (parsed lab)
          lab.spec.node_list st in
      elim r [ ok _ ↦ (next, ok tt) | err e ↦ (next, ok tt) | panic ↦ (next, panic) ]

  -- the links and the nodes, from "reconcile logic here" on
  unfoldable pub create_all : C.St → ParsedLab → C.St × Result ReconcileError Unit
  unfolding ensure_links create_nodes
  create_all st lab =
      let (next, r) =
        ensure_links (lan_client C) set_lan_owner gconf lab.ns lab.name lab.uid B lab.spec.link_list
          st lab.spokes in
      elim r [
        | ok spokes ↦ create_nodes next (record lab { spokes = spokes })
        | err e ↦ (next, ok tt)
        | panic ↦ (next, panic)
      ]

  -- the same, once the lab is parsed, which may panic
  unfoldable pub create_parsed : C.St → Result Unit ParsedLab → C.St × Result ReconcileError Unit
  unfolding create_all
  create_parsed st (ok lab) = create_all st lab
  create_parsed st (err e) = (st, panic)
  create_parsed st panic = (st, panic)

  -- a lab that is not being deleted: its finalizer is stored first
  unfoldable pub reconcile_live :
      C.St → String → Object Resource → LabBody → C.St × Result ReconcileError Unit
  unfolding create_parsed parse_lab
  reconcile_live st ns o lab = elim (F.contains o.finalizers) [
    | true ↦ create_parsed st (parse_lab ns o lab)
    | false ↦
        let marked = record o { finalizers = F.add o.finalizers } in
        let (next, r) = updated (C.update st (labs ns) marked) in
        elim r [
          | ok _ ↦ create_parsed next (parse_lab ns marked lab)
          | err e ↦ (next, err e)
          | panic ↦ (next, panic)
        ]
  ]

  -- a lab that is being deleted: its finalizer goes last
  unfoldable pub reconcile_deleted :
      C.St → String → Object Resource → LabBody → C.St × Result ReconcileError Unit
  unfolding delete_external_resources
  reconcile_deleted st ns o lab = elim (F.contains o.finalizers) [
    | false ↦ (st, ok tt)
    | true ↦
        let (next, r) =
          delete_external_resources (lan_client C) F.remove st ns o.name lab.spec.link_list in
        elim r [
          | ok _ ↦
              updated (C.update next (labs ns) (record o { finalizers = F.remove o.finalizers }))
          | err e ↦ (next, err (release_failed e))
          | panic ↦ (next, panic)
        ]
  ]

  -- whether the deletion time is set
  unfoldable pub by_deletion :
      C.St → String → Object Resource → LabBody → Bool → C.St × Result ReconcileError Unit
  unfolding reconcile_live reconcile_deleted
  by_deletion st ns o lab false = reconcile_live st ns o lab
  by_deletion st ns o lab true = reconcile_deleted st ns o lab

  -- an answer that is no lab does not decode
  unfoldable pub reconcile_resource :
      C.St → String → Object Resource → Resource → C.St × Result ReconcileError Unit
  unfolding by_deletion
  reconcile_resource st ns o (of_lab lab) = by_deletion st ns o lab lab.deleting
  reconcile_resource st ns o _ = (st, err (get_failed api_failed))

  -- `Reconcile`
  unfoldable pub reconcile : C.St → String → String → C.St × Result ReconcileError Unit
  unfolding reconcile_resource
  reconcile st ns name = elim (C.get st (labs ns) name) [
    | ok o ↦ reconcile_resource st ns o o.body
    | err not_found ↦ (st, ok tt)
    | err api_failed ↦ (st, err (get_failed api_failed))
    | panic ↦ (st, panic)
  ]
