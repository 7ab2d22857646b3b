-- ===== src/Lans.antt =====
-- The layer-2 networks of a lab: `EnsureLinks` (api/v1beta1/link.go), which makes a LAN object for
-- each link, and `deleteExternalResources` (internal/controller/lab_controller.go), which takes the
-- operator's finalizer off them when the lab is deleted.
pub mod Delete
pub mod Release
pub mod Ensure
pub mod Views
pub mod Unique
use knl.Common.{
  ℕ, zero, suc, ◌+◌, String, ◌<>◌, Bool, true, false, if◌then◌else◌, Option, none, some, List, [],
  ◌∷◌, ◌++◌, map, Map, lookup, insert, keys, Result, ok, err, panic, ◌>>=◌, length, get_elem?,
}
use knl.Text.{itoa}
use knl.Names.{get_k8lan_name, get_spoke_name}
use knl.Api.{Connector, Link, LabSpec, KnlConfigSpec}
use knl.Alloc.{AllocError, get_available_vnis}
use knl.Alloc.Bits.{BitSet}
use knl.Cluster.{ClusterError, create_if_not_exists_or_remove}
use knl.Cluster.Interface.{Owner, Object, ApiError, not_found, api_failed, Client}
use knl.Defaulter.Slots.{get_sorted_key_slice}

-- the specification of a LAN
pub record LanSpec : Type 0 where
  pub ns : Option String
  pub bridge_name : Option String
  pub vx_lan_name : Option String
  pub vni : Option ℕ
  pub default_vx_dev : String
  pub vx_dev_map : Map String
  pub vx_port : Option ℕ
  pub vx_lan_grp : Option String
  pub spoke_list : List String

abbrev pub Lan : Type 0
Lan = Object LanSpec

abbrev pub finalizer_name : String
finalizer_name = "lab.kubenetlab.net/finalizer"

abbrev pub vx_lan_port : ℕ
vx_lan_port = 48622

abbrev pub get_k8lan_br_name : String
get_k8lan_br_name = "k8slanbr"

unfoldable pub get_k8lan_vx_name : ℕ → String
unfolding itoa
get_k8lan_vx_name vni = "klanvx" <> itoa vni

-- `new(k8slan.LAN)`
abbrev pub new_lan : Lan
new_lan = record {
  name = "";
  owners = [];
  finalizers = [];
  body = record {
    ns = none;
    bridge_name = none;
    vx_lan_name = none;
    vni = none;
    default_vx_dev = "";
    vx_dev_map = [];
    vx_port = none;
    vx_lan_grp = none;
    spoke_list = [];
  };
}

-- The errors of the two functions; all but the first carry the name of a LAN, the last that of a link.
pub data LanError : Type 0 where
  no_vnis : AllocError → LanError
  unexpected_get finalizer_check finalizer_removal : String → LanError
  lan_creation : String → ClusterError → LanError

module _ (C : Client LanSpec) (remove_finalizer : List String → List String) where
  -- one round of the loop; `lan` stands in the namespace `ns`
  abbrev pub update_lan : C.St → String → String → Lan → C.St × Result LanError Unit
  update_lan st ns name lan =
      let (next, outcome) =
        C.update st ns (record lan { finalizers = remove_finalizer lan.finalizers }) in
      elim outcome [
        | ok _ ↦ (next, ok tt)
        | err _ ↦ (next, err (finalizer_removal name))
        | panic ↦ (next, panic)
      ]

  -- a LAN that is not found is left as the new object that `Get` was to fill
  unfoldable pub release_lan : C.St → String → String → C.St × Result LanError Unit
  release_lan st ns name = elim (C.get st ns name) [
    | ok lan ↦ update_lan st ns name lan
    | err not_found ↦ update_lan st "" name new_lan
    | err api_failed ↦ (st, err (finalizer_check name))
    | panic ↦ (st, panic)
  ]

  -- `deleteExternalResources`
  unfoldable pub delete_external_resources :
      C.St → String → String → Map Link → C.St × Result LanError Unit
  unfolding release_lan get_k8lan_name
  delete_external_resources st ns lab [] = (st, ok tt)
  delete_external_resources st ns lab ((link, _) ∷ links) =
      let (next, outcome) = release_lan st ns (get_k8lan_name lab link) in
      elim outcome [
        | ok _ ↦ delete_external_resources next ns lab links
        | err e ↦ (next, err e)
        | panic ↦ (next, panic)
      ]
