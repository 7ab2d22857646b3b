-- ===== src/Kube.antt =====
-- The objects that the operator makes, as the resources of one API server, and the effects of a
-- node's `Ensure` on the cluster (api/v1beta1/k8s.go, parsed_lab.go, common.go). The client is the interface of
-- Cluster.Interface, for the resources of all kinds: where it has a namespace stands the path
-- of the collection, which has the kind and the namespace.
pub mod Laws
pub mod Gives
use knl.Common.{
  ℕ, ℤ, String, ◌<>◌, Bool, true, false, Option, none, some, List, [], ◌∷◌, Map, insert, Result, ok,
  err, panic,
}
use knl.Names.{NodeType, get_pod_name}
use knl.Api.{LabSpec, Quantity}
use knl.Cluster.{ClusterError, create_if_not_exists_or_remove}
use knl.Cluster.Interface.{Object, ApiError, Client}
use knl.Lans.{LanSpec}
use knl.Lans.Ensure.{Spokes}
use knl.Vm.{Meta, get_obj_meta, Nad, DataVolume, Vmi}

pub record EnvVar : Type 0 where
  pub name : String
  pub value : String

pub record VolumeMount : Type 0 where
  pub name : String
  pub mount_path : String
  pub sub_path : String

pub record SecurityContext : Type 0 where
  pub privileged : Option Bool
  pub run_as_user : Option ℕ
  pub run_as_group : Option ℕ

-- `pre_stop` is the command of the hook, and `[]` where there is none.
pub record Container : Type 0 where
  pub name : String
  pub image : String
  pub command : List String
  pub security_context : Option SecurityContext
  pub volume_mounts : List VolumeMount
  pub env : List EnvVar
  pub limits : Map Quantity
  pub requests : Map Quantity
  pub pre_stop : List String

-- the source of a volume: a claim, a secret, a config map or an empty folder of a size
pub data PodVolumeSource : Type 0 where
  claim_source secret_source config_map_source empty_dir : String → PodVolumeSource

pub record PodVolume : Type 0 where
  pub name : String
  pub source : PodVolumeSource

pub record Pod : Type 0 where
  pub meta : Meta
  pub init_containers : List Container
  pub containers : List Container
  pub volumes : List PodVolume

-- a persistent volume claim, of access mode `ReadWriteOncePod`
pub record Claim : Type 0 where
  pub meta : Meta
  pub storage_class : String
  pub storage : Quantity

pub record ConfigMap : Type 0 where
  pub meta : Meta
  pub values : Map String

-- a lab, and whether its deletion time is set
pub record LabBody : Type 0 where
  pub uid : String
  pub spec : LabSpec
  pub deleting : Bool

-- the resources; a LAN stands for itself, without labels
pub data Resource : Type 0 where
  of_pod : Pod → Resource
  of_claim : Claim → Resource
  of_config_map : ConfigMap → Resource
  of_nad : Nad → Resource
  of_data_volume : DataVolume → Resource
  of_vmi : Vmi → Resource
  of_lan : LanSpec → Resource
  of_lab : LabBody → Resource

-- the path of the collection of a kind in a namespace
unfoldable pub collection : String → String → String
collection ns kind = kind <> "/" <> ns

-- An object that is made for a node: its kind, its metadata and the rest.
pub record Target : Type 0 where
  pub kind : String
  pub meta : Meta
  pub resource : Resource

abbrev pub pod_target : Pod → Target
pod_target p = record { kind = "pods"; meta = p.meta; resource = of_pod p }

abbrev pub claim_target : Claim → Target
claim_target c = record { kind = "persistentvolumeclaims"; meta = c.meta; resource = of_claim c }

abbrev pub config_map_target : ConfigMap → Target
config_map_target c = record { kind = "configmaps"; meta = c.meta; resource = of_config_map c }

abbrev pub nad_target : Nad → Target
nad_target n = record {
  kind = "network-attachment-definitions";
  meta = n.meta;
  resource = of_nad n;
}

abbrev pub data_volume_target : DataVolume → Target
data_volume_target d = record { kind = "datavolumes"; meta = d.meta; resource = of_data_volume d }

abbrev pub vmi_target : Vmi → Target
vmi_target v = record { kind = "virtualmachineinstances"; meta = v.meta; resource = of_vmi v }

abbrev pub object_of : Target → Object Resource
object_of t = record { name = t.meta.name; owners = []; finalizers = []; body = t.resource }

-- the place of a target: its collection and its name
abbrev pub place : Target → String
place t = collection t.meta.ns t.kind

-- `ParsedLab`; `SetOwnerFunc` is a parameter where it is used
pub record ParsedLab : Type 0 where
  pub name : String
  pub ns : String
  pub uid : String
  pub spec : LabSpec
  pub connector_map : Map (List String)
  pub spokes : Spokes

-- the value that a context has at `ParsedLabKey`
pub data ContextValue : Type 0 where
  no_value other_value : ContextValue
  parsed : ParsedLab → ContextValue

-- The errors of `Ensure`; the second carries what was to be created.
pub data EnsureError : Type 0 where
  no_parsed_lab not_parsed_lab : EnsureError
  creation : String → ClusterError → EnsureError

-- the checks that start every `Ensure`
unfoldable pub get_parsed_lab : ContextValue → Result EnsureError ParsedLab
get_parsed_lab no_value = err no_parsed_lab
get_parsed_lab other_value = err not_parsed_lab
get_parsed_lab (parsed lab) = ok lab

-- A call that changes the state. The state comes back after an error or a panic too.
abbrev pub Action : Type 0 → Type 0 → Type 0
Action S A = S → S × Result EnsureError A

unfoldable pub from : {S A : Type 0} → Result EnsureError A → Action S A
from r st = (st, r)

infixl 5 ◌>>=◌ ◌>>◌
unfoldable pub ◌>>=◌ : {S A B : Type 0} → Action S A → (A → Action S B) → Action S B
◌>>=◌ m f st =
    let (next, r) = m st in
    elim r [ ok a ↦ f a next | err e ↦ (next, err e) | panic ↦ (next, panic) ]

abbrev pub ◌>>◌ : {S A B : Type 0} → Action S A → Action S B → Action S B
m >> k = m >>= λ _. k

abbrev pub created :
    {S : Type 0} → String → S × Result ClusterError Unit → S × Result EnsureError Unit
created what (st, ok _) = (st, ok tt)
created what (st, err e) = (st, err (creation what e))
created what (st, panic) = (st, panic)

module _ (C : Client Resource)
    (set_owner : Object Resource → Result ApiError (Object Resource)) where
  -- `createIfNotExistsOrRemove` of a target, not removing, with the error of its caller
  unfoldable pub ensure_object : ParsedLab → String → Target → Bool → Action C.St Unit
  unfolding create_if_not_exists_or_remove
  ensure_object lab what target need_owner st = created what (
      create_if_not_exists_or_remove C st (place target) lab.uid set_owner (object_of target)
        need_owner false)

-- `NewBasePod`
unfoldable pub new_base_pod : String → String → String → String → NodeType → Pod
unfolding get_obj_meta get_pod_name insert
new_base_pod lab node ns image node_type =
    let meta = get_obj_meta (get_pod_name lab node) lab ns node node_type in
    record {
      meta = record meta { labels = insert "node.kubenetlab.net/name" node meta.labels };
      init_containers = [];
      containers =
          record {
            name = "main";
            image = image;
            command = [];
            security_context = none;
            volume_mounts = [];
            env = [];
            limits = [];
            requests = [];
            pre_stop = [];
          }
          ∷ [];
      volumes = [];
    }
