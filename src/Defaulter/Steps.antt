-- ===== src/Defaulter/Steps.antt =====
-- The loops of `Default` over the nodes keep the names of the nodes.
use knl.Common.{
  ℕ, ◌+◌, ◌≡◌, ◌∙◌, inl, inr, Bool-cases, String, true, Option, none, some, Option-cases, List, [],
  ◌∷◌, arith, Map, lookup, keys, has_key, keys-insert, ok, >>=-eq-ok,
}
use knl.Mac.{derive_chassis_mac, mac_string}
use knl.Names.{get_node_type_via_name, is_sr_type}
use knl.Api.{OneOfSystem, Store}
use knl.Api.OneOf.{get_system, assign_system}
use knl.LoadDef.{load_def, load_nodes}
use knl.Defaulter.Nodes.{type_node, type_nodes, as_default}
use knl.Defaulter.Slots.{
  fill_node, fill_nodes, set_chassis_mac, set_node_mac, fill_macs_from, fill_macs,
  get_sorted_key_slice,
}

pub type_nodes-keys :
    (nodes nodes' : Map OneOfSystem) → type_nodes nodes ≡ ok nodes' → keys nodes' ≡ keys nodes
unfolding type_nodes keys
type_nodes-keys [] nodes' h = ground arith
type_nodes-keys ((name, node) ∷ nodes) nodes' h =
    let (typed, _, h2) = >>=-eq-ok (type_node name node) _ h in
    let (rest, h3, h4) = >>=-eq-ok (type_nodes nodes) _ h2 in
    ground (arith, type_nodes-keys nodes rest h3)

load_nodes-keys :
    (def : OneOfSystem) (nodes nodes' : Map OneOfSystem)
    → load_nodes def nodes ≡ ok nodes'
    → keys nodes' ≡ keys nodes
unfolding load_nodes keys
load_nodes-keys def [] nodes' h = ground arith
load_nodes-keys def ((name, node) ∷ nodes) nodes' h = elim (Option-cases (get_system node)) [
  | inl e ↦ absurd (ground (arith, e, h))
  | inr ((sys, field), e) ↦
      let (rest, h3, h4) = >>=-eq-ok (load_nodes def nodes) _ (rw (load_nodes, e) at h) in
      ground (arith, load_nodes-keys def nodes rest h3)
]

pub load_def-keys :
    (def : Option OneOfSystem) (nodes nodes' : Map OneOfSystem)
    → load_def def nodes ≡ ok nodes'
    → keys nodes' ≡ keys nodes
unfolding load_def
load_def-keys (some def) nodes nodes' h = load_nodes-keys def nodes nodes' h
load_def-keys none [] nodes' h = ground arith
load_def-keys none ((name, node) ∷ nodes) nodes' h = elim (Option-cases (get_system node)) [
  | inl e ↦ absurd (ground (arith, e, h))
  | inr e ↦ absurd (ground (arith, e.1, h))
]

pub fill_nodes-keys :
    (pointer_text : Option String → String) (nodes nodes' : Map OneOfSystem) (store store' : Store)
    → fill_nodes pointer_text nodes store ≡ ok (nodes', store')
    → keys nodes' ≡ keys nodes
unfolding fill_nodes keys
fill_nodes-keys pointer_text [] nodes' store store' h = ground arith
fill_nodes-keys pointer_text ((name, node) ∷ nodes) nodes' store store' h =
    let ((node', next), _, h2) = >>=-eq-ok (fill_node pointer_text node store) _ h in
    let ((rest, last), h3, h4) = >>=-eq-ok (fill_nodes pointer_text nodes next) _ h2 in
    ground (arith, fill_nodes-keys pointer_text nodes rest next last h3)

set_node_mac-keys :
    (name mac : String) (nodes nodes' : Map OneOfSystem)
    → set_node_mac name mac nodes ≡ ok nodes'
    → keys nodes' ≡ keys nodes
unfolding set_node_mac
set_node_mac-keys name mac nodes nodes' h = elim (Option-cases (lookup name nodes)) [
  | inl e ↦ absurd (ground (arith, e, h))
  | inr (node, e) ↦ elim (Option-cases (get_system node)) [
    | inl g ↦ absurd (ground (arith, e, g, h))
    | inr ((sys, field), g) ↦
        let (sys', _, h2) = >>=-eq-ok (set_chassis_mac name mac sys) _ (rw (e, g) at h) in
        let known : has_key name nodes ≡ true = ground (arith, e) in
        ground (arith, keys-insert name (assign_system sys' node) nodes known)
  ]
]

fill_macs_from-keys :
    (i : ℕ) (names : List String) (nodes nodes' : Map OneOfSystem)
    → fill_macs_from i names nodes ≡ ok nodes'
    → keys nodes' ≡ keys nodes
unfolding fill_macs_from
fill_macs_from-keys i [] nodes nodes' h = ground arith
fill_macs_from-keys i (name ∷ names) nodes nodes' h =
    elim (Bool-cases (is_sr_type (get_node_type_via_name name))) [
      | inr f ↦ fill_macs_from-keys (i + 1) names nodes nodes' (rw f at h)
      | inl t ↦
          let (mac, _, h2) = >>=-eq-ok (as_default (derive_chassis_mac i)) _ (rw t at h) in
          let (next, h3, h4) = >>=-eq-ok (set_node_mac name (mac_string mac) nodes) _ h2 in
          fill_macs_from-keys (i + 1) names next nodes' h4
          ∙ set_node_mac-keys name (mac_string mac) nodes next h3
    ]

pub fill_macs-keys :
    (nodes nodes' : Map OneOfSystem) → fill_macs nodes ≡ ok nodes' → keys nodes' ≡ keys nodes
unfolding fill_macs
fill_macs-keys nodes nodes' h = fill_macs_from-keys 0 (get_sorted_key_slice nodes) nodes nodes' h
