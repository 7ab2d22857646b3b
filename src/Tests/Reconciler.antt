-- ===== src/Tests/Reconciler.antt =====
-- The theorems on runs of the lab reconciler, over a cluster that is a list.
use knl.Common.{
  none, ◌≡◌, refl, ◌⊎◌, String, ◌==◌, Bool, true, false, if◌then◌else◌, List, [], ◌∷◌, Result, ok,
  panic,
}
use knl.Alloc.Bits.{list_bits}
use knl.Cluster.Interface.{Object, ApiError, Client}
use knl.Cluster.ListClient.{find, remove, deleting_client, deleting_client-IsLawful}
use knl.Names.{get_k8lan_name}
use knl.Kube.{of_lan, Resource, of_lab, LabBody, collection}
use knl.Lans.{new_lan, release_lan, delete_external_resources, Lan, finalizer_name}
use knl.Reconcile.{
  reconcile_resource, by_deletion, reconcile_deleted, Finalizers, labs, reconcile, ReconcileError,
}
use knl.Reconcile.Runs.{reconcile_hides_errors}
use knl.Tests.Labs.{readme_lab}
use knl.Tests.Pods.{packages, gconf, cards, own, no_vms}

-- a lab whose deletion time is set goes with its last finalizer
abbrev is_deleting : Resource → Bool
is_deleting (of_lab lab) = lab.deleting
is_deleting _ = false

abbrev cluster : Client Resource
cluster = deleting_client Resource is_deleting

-- finalizers as a list, of which only the operator's is asked for
abbrev has_finalizer : List String → Bool
has_finalizer [] = false
has_finalizer (f ∷ fs) = if f == finalizer_name then true else has_finalizer fs

abbrev without_finalizer : List String → List String
without_finalizer [] = []
without_finalizer (f ∷ fs) =
    let rest = without_finalizer fs in if f == finalizer_name then rest else f ∷ rest

abbrev finalizers : Finalizers
finalizers = record {
  contains = has_finalizer;
  add = λ fs. finalizer_name ∷ fs;
  remove = without_finalizer;
}

abbrev own_lan : Lan → Result ApiError Lan
own_lan lan = ok lan

abbrev body : Bool → LabBody
body deleting = record { uid = "1"; spec = readme_lab; deleting = deleting }

abbrev lab_object : Bool → List String → Object Resource
lab_object deleting fs = record {
  name = "lab";
  owners = [];
  finalizers = fs;
  body = of_lab (body deleting);
}

-- the LAN of the lab's link
abbrev lan_object : String → Object Resource
lan_object name = record {
  name = name;
  owners = [];
  finalizers = finalizer_name ∷ [];
  body = of_lan (new_lan.body);
}

abbrev holding : Object Resource → List (String × Object Resource)
holding o =
    (labs "knl-system", o)
    ∷ (collection "knl-system" "lans", lan_object (get_k8lan_name "lab" "link1"))
    ∷ []

abbrev run_on : Object Resource → List (String × Object Resource) × Result ReconcileError Unit
run_on o =
    reconcile packages list_bits finalizers gconf "knl-system" cards cluster own own_lan no_vms
      (holding o) "knl-system" "lab"

-- a lab that is being deleted, and has a link with a LAN
abbrev deleted : Object Resource
deleted = lab_object true (finalizer_name ∷ [])

-- the lab goes with its last finalizer
lab_goes : find (run_on deleted).0 (labs "knl-system") "lab" ≡ none
unfolding reconcile reconcile_resource by_deletion reconcile_deleted delete_external_resources
    release_lan find remove get_k8lan_name collection
lab_goes = refl

abbrev unmarked : Object Resource
unmarked = lab_object false []

abbrev live : Object Resource
live = lab_object false (finalizer_name ∷ [])

hidden_example : ((run_on live).1 ≡ ok tt) ⊎ ((run_on live).1 ≡ panic)
unfolding find collection
hidden_example =
    reconcile_hides_errors packages list_bits finalizers gconf "knl-system" cards cluster own
      own_lan no_vms (deleting_client-IsLawful Resource is_deleting) (holding live) "knl-system"
      "lab" live (body false) refl refl refl refl
