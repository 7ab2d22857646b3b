-- ===== src/Lans/Ensure.antt =====
-- `EnsureLinks` (api/v1beta1/link.go).
use knl.Common.{
  ℕ, ◌+◌, String, true, false, Option, none, some, List, [], ◌∷◌, ◌++◌, map, Map, lookup, insert,
  Result, ok, err, panic, ◌>>=◌, length,
}
use knl.Names.{get_k8lan_name, get_spoke_name}
use knl.Api.{Connector, Link, KnlConfigSpec}
use knl.Alloc.{get_available_vnis}
use knl.Alloc.Bits.{BitSet}
use knl.Chassis.{deref}
use knl.Cluster.{ClusterError, create_if_not_exists_or_remove}
use knl.Cluster.Interface.{ApiError, not_found, api_failed, Client}
use knl.Defaulter.Slots.{get_sorted_key_slice}
use knl.Lans.{
  Lan, LanSpec, LanError, no_vnis, unexpected_get, lan_creation, finalizer_name, vx_lan_port,
  get_k8lan_br_name, get_k8lan_vx_name,
}

-- the three maps of a `ParsedLab` that `EnsureLinks` fills
pub record Spokes : Type 0 where
  pub spoke_map : Map (Map (List String))
  pub spoke_connector_map : Map Connector
  pub spoke_link_map : Map String

abbrev or_empty : {A : Type 0} → Option (List A) → List A
or_empty none = []
or_empty (some l) = l

unfoldable pub add_spoke : String → String → String → Connector → Spokes → Spokes
add_spoke link spoke node c spokes =
    let of_node = or_empty (lookup node spokes.spoke_map) in
    let of_link = or_empty (lookup link of_node) in
    record {
      spoke_map = insert node (insert link (of_link ++ (spoke ∷ [])) of_node) spokes.spoke_map;
      spoke_connector_map = insert spoke c spokes.spoke_connector_map;
      spoke_link_map = insert spoke link spokes.spoke_link_map;
    }

abbrev pub with_spoke : String → Lan → Lan
with_spoke spoke lan = record lan {
  body = record (lan.body) { spoke_list = lan.body.spoke_list ++ (spoke ∷ []) };
}

-- the loop over the connectors of a link, from the index `i` on
unfoldable pub add_spokes :
    String → ℕ → List Connector → Lan → Spokes → Result LanError (Lan × Spokes)
unfolding add_spoke get_spoke_name
add_spokes link i [] lan spokes = ok (lan, spokes)
add_spokes link i (c ∷ cs) lan spokes = do
  vni ← deref lan.body.vni
  node ← deref c.node_name
  add_spokes link (i + 1) cs (with_spoke (get_spoke_name vni i) lan)
      (add_spoke link (get_spoke_name vni i) node c spokes)

-- the LAN that is made for a link that has none
abbrev pub made_lan : KnlConfigSpec → String → String → ℕ → Lan
made_lan gconf name dev vni = record {
  name = name;
  owners = [];
  finalizers = finalizer_name ∷ [];
  body = record {
    ns = some name;
    bridge_name = some get_k8lan_br_name;
    vx_lan_name = some (get_k8lan_vx_name vni);
    vni = some vni;
    default_vx_dev = dev;
    vx_dev_map = gconf.vx_dev_map;
    vx_port = some vx_lan_port;
    vx_lan_grp = gconf.vxlan_grp_addr;
    spoke_list = [];
  };
}

abbrev pub first : List ℕ → Option ℕ
first [] = none
first (n ∷ ns) = some n

abbrev pub after_first : List ℕ → List ℕ
after_first [] = []
after_first (n ∷ ns) = ns

-- The new LAN of a link: its VNI stands in a slice, and the device in the configuration.
unfoldable pub new_lan_of : KnlConfigSpec → String → Option ℕ → Result LanError Lan
new_lan_of gconf name next = do
  vni ← deref next
  dev ← deref gconf.vxlan_default_dev
  ok (made_lan gconf name dev vni)

module _ (C : Client LanSpec) (set_owner : Lan → Result ApiError Lan) (gconf : KnlConfigSpec)
    (ns lab uid : String) where
  abbrev pub created :
      String → Spokes → C.St × Result ClusterError Unit → C.St × Result LanError Spokes
  created name spokes (st, ok _) = (st, ok spokes)
  created name spokes (st, err e) = (st, err (lan_creation name e))
  created name spokes (st, panic) = (st, panic)

  -- the part of a round that follows the look-up of the LAN
  unfoldable pub ensure_lan :
      C.St → String → Link → Spokes → Result LanError Lan → C.St × Result LanError Spokes
  unfolding add_spokes create_if_not_exists_or_remove
  ensure_lan st name link spokes lan =
      elim (lan >>= λ l. add_spokes name 0 link.connectors l spokes) [
        | err e ↦ (st, err e)
        | panic ↦ (st, panic)
        | ok (l, spokes') ↦
            created name spokes' (create_if_not_exists_or_remove C st ns uid set_owner l true false)
      ]

  -- one round: `next` is the element of the VNI list at the index of the link
  unfoldable pub ensure_link :
      C.St → String → Link → Option ℕ → Spokes → C.St × Result LanError Spokes
  unfolding ensure_lan new_lan_of get_k8lan_name
  ensure_link st name link next spokes = elim (C.get st ns (get_k8lan_name lab name)) [
    | ok lan ↦ ensure_lan st name link spokes (ok lan)
    | err api_failed ↦ (st, err (unexpected_get (get_k8lan_name lab name)))
    | panic ↦ (st, panic)
    | err not_found ↦
        ensure_lan st name link spokes (new_lan_of gconf (get_k8lan_name lab name) next)
  ]

  -- the loop over the sorted names of the links
  unfoldable pub ensure_each :
      Map Link → C.St → List String → List ℕ → Spokes → C.St × Result LanError Spokes
  unfolding ensure_link
  ensure_each links st [] vnis spokes = (st, ok spokes)
  ensure_each links st (name ∷ names) vnis spokes = elim (lookup name links) [
    | none ↦ (st, panic)
    | some link ↦
        let (next, outcome) = ensure_link st name link (first vnis) spokes in
        elim outcome [
          | ok spokes' ↦ ensure_each links next names (after_first vnis) spokes'
          | err e ↦ (next, err e)
          | panic ↦ (next, panic)
        ]
  ]

  abbrev pub listed : Result Unit (List Lan) → Result Unit (List (Option ℕ))
  listed (ok lans) = ok (map (λ lan. lan.body.vni) lans)
  listed (err e) = err e
  listed panic = panic

  -- `EnsureLinks`
  unfoldable pub ensure_links : BitSet → Map Link → C.St → Spokes → C.St × Result LanError Spokes
  unfolding ensure_each get_sorted_key_slice get_available_vnis
  ensure_links B links st spokes = elim (get_available_vnis B (listed (C.list st)) (length links)) [
    | err e ↦ (st, err (no_vnis e))
    | panic ↦ (st, panic)
    | ok vnis ↦ ensure_each links st (get_sorted_key_slice links) vnis spokes
  ]
