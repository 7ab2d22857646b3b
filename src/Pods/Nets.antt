-- ===== src/Pods/Nets.antt =====
-- The networks of a pod, which the `Ensure` of each of the three node types lists in one text, after
-- "refer to NADs" (api/v1beta1/srl.go, srsim.go, generalpod.go).
use Prim.Native.String.{[], ◌∷◌}
use knl.Common.{
  ℕ, ◌+◌, String, ◌<>◌, ◌==◌, if◌then◌else◌, List, Map, lookup, insert, Result, ok, ◌>>=◌,
}
use knl.Names.{get_k8lan_name}
use knl.Api.{Connector, Quantity}
use knl.Chassis.{deref}
use knl.Defaulter.Slots.{get_sorted_key_slice}
use knl.Kube.{Pod, EnsureError}
use knl.Lans.Ensure.{Spokes}
use knl.Vm.Spokes.{or_nil, or_empty_text}

-- The names that the LAN package gives, of a LAN and a spoke.
pub record LanNames : Type 0 where
  pub get_def_nad_name : String → String → String
  pub get_addr_nad_name : String → String → String
  pub get_dp_resource_name : String → String → String

-- the loop's variables: the text, the limits and the number of the next spoke
pub record Nets : Type 0 where
  pub text : String
  pub limits : Map Quantity
  pub index : ℕ

unfoldable pub cut_last : String → String
cut_last [] = ""
cut_last (c ∷ []) = ""
cut_last (c ∷ d ∷ s) = c ∷ cut_last (d ∷ s)

abbrev pub multus_anno_key : String
multus_anno_key = "k8s.v1.cni.cncf.io/networks"

-- the annotation, without the last comma, if there is a network
unfoldable pub annotate : String → Pod → Pod
unfolding cut_last
annotate text pod = if text == "" then pod else record pod {
  meta = record (pod.meta) { annotations = List.◌∷◌ (multus_anno_key, cut_last text) List.[] };
}

-- the name of a spoke's LAN
abbrev pub lan_of : String → Spokes → String → String
lan_of lab spokes spoke = get_k8lan_name lab (or_empty_text (lookup spoke spokes.spoke_link_map))

module _ (names : LanNames) (lab : String) (spokes : Spokes)
    (entry : ℕ → String → String → Connector → Result EnsureError String) where
  abbrev pub resource_key : String → String
  resource_key spoke =
      "macvtap.k8slan.io/" <> names.get_dp_resource_name (lan_of lab spokes spoke) spoke

  abbrev pub next_nets : String → String → Nets → Nets
  next_nets spoke text n = record {
    text = n.text <> text <> ",";
    limits = insert (resource_key spoke) "1" n.limits;
    index = n.index + 1;
  }

  -- the loop over the spokes of a link; `entry` is the node type's text for a spoke
  unfoldable pub add_nets : List String → Nets → Result EnsureError Nets
  unfolding lookup get_k8lan_name insert
  add_nets List.[] n = ok n
  add_nets (List.◌∷◌ spoke more) n = do
    c ← deref (lookup spoke spokes.spoke_connector_map)
    text ← entry n.index (lan_of lab spokes spoke) spoke c
    add_nets more (next_nets spoke text n)

  -- the loop over the links
  unfoldable pub add_link_nets : Map (List String) → List String → Nets → Result EnsureError Nets
  unfolding add_nets
  add_link_nets of_node List.[] n = ok n
  add_link_nets of_node (List.◌∷◌ link links) n = do
    n' ← add_nets (or_nil (lookup link of_node)) n
    add_link_nets of_node links n'

  -- both loops, from the number 1 on
  unfoldable pub node_nets : String → Result EnsureError Nets
  unfolding add_link_nets get_sorted_key_slice
  node_nets node =
      let of_node = or_nil (lookup node spokes.spoke_map) in
      add_link_nets of_node (get_sorted_key_slice of_node)
        (record { text = ""; limits = List.[]; index = 1 })
