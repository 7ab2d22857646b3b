-- ===== src/Defaulter/Valid.antt =====
-- `Default` leaves each node with one system.
use knl.Common.{
  ℕ, ◌+◌, ◌≡◌, refl, inl, inr, Bool-cases, String, Option, none, some, Option-cases, List, [], ◌∷◌,
  arith, Map, lookup, insert, ok, >>=-eq-ok,
}
use knl.Mac.{derive_chassis_mac, mac_string}
use knl.Names.{get_node_type_via_name, is_sr_type}
use knl.Api.{Connector, LabSpec, OneOfSystem, Store}
use knl.Api.OneOf.{get_system, assign_system, empty_one_of, get_new_system_via_name}
use knl.Api.OneOf.Laws.{get_system-ne-none}
use knl.LoadDef.{load_def, load_nodes, fill_system}
use knl.Defaulter.{default_lab}
use knl.Defaulter.Nodes.{add_node, add_cpm, add_cpms, cpm_name, type_node, type_nodes, as_default}
use knl.Defaulter.Macs.{add_named, add_nodes, connectors_of}
use knl.Defaulter.Slots.{
  fill_default_val, fill_node, fill_nodes, set_chassis_mac, set_node_mac, fill_macs_from, fill_macs,
  get_sorted_key_slice,
}
use knl.Defaulter.Outcome.{default_lab-Steps}
use knl.Defaulter.Replace.{
  Nodes, Nodes-insert, Nodes-lookup, IsTyped, IsLoose, only-IsTyped, assign-IsTyped,
  fill_system-Replaces, fill_default_val-Replaces, set_chassis_mac-Replaces,
}

type_node-IsTyped :
    (name : String) (node typed : OneOfSystem)
    → IsLoose node
    → type_node name node ≡ ok typed
    → IsTyped typed
unfolding type_node get_system
type_node-IsTyped name node typed (inl empty) h =
    elim (Option-cases (get_new_system_via_name name)) [
      | inl e ↦ absurd (ground (arith, e, empty, h))
      | inr (sys, e) ↦
          let same : assign_system sys empty_one_of ≡ typed = ground (arith, e, empty, h) in
          rw (← same) (only-IsTyped sys)
    ]
type_node-IsTyped name node typed (inr t) h = elim (Option-cases (get_system node)) [
  | inl e ↦ absurd (ground (arith, get_system-ne-none node t, e))
  | inr (sys, e) ↦ let same : node ≡ typed = ground (arith, e, h) in rw (← same) t
]

type_nodes-IsTyped :
    (nodes nodes' : Map OneOfSystem)
    → Nodes IsLoose nodes
    → type_nodes nodes ≡ ok nodes'
    → Nodes IsTyped nodes'
unfolding type_nodes
type_nodes-IsTyped [] [] l h = tt
type_nodes-IsTyped [] (n ∷ ns) l h = cc
type_nodes-IsTyped ((name, node) ∷ nodes) nodes' (p, l) h =
    let (typed, h1, h2) = >>=-eq-ok (type_node name node) _ h in
    let (rest, h3, h4) = >>=-eq-ok (type_nodes nodes) _ h2 in
    let same : (name, typed) ∷ rest ≡ nodes' = ground (arith, h4) in
    rw (← same) (type_node-IsTyped name node typed p h1, type_nodes-IsTyped nodes rest l h3)

load_nodes-IsTyped :
    (def : OneOfSystem) (nodes nodes' : Map OneOfSystem)
    → Nodes IsTyped nodes
    → load_nodes def nodes ≡ ok nodes'
    → Nodes IsTyped nodes'
unfolding load_nodes
load_nodes-IsTyped def [] [] l h = tt
load_nodes-IsTyped def [] (n ∷ ns) l h = cc
load_nodes-IsTyped def ((name, node) ∷ nodes) nodes' (p, l) h =
    elim (Option-cases (get_system node)) [
      | inl e ↦ absurd (ground (arith, e, h))
      | inr ((sys, field), e) ↦
          let (rest, h3, h4) = >>=-eq-ok (load_nodes def nodes) _ (rw (load_nodes, e) at h) in
          let same : (name, assign_system (fill_system sys def) node) ∷ rest ≡ nodes' =
            ground (arith, h4) in
          rw (← same) (
            assign-IsTyped node sys (fill_system sys def) field p e (fill_system-Replaces sys def),
            load_nodes-IsTyped def nodes rest l h3,
          )
    ]

load_def-IsTyped :
    (def : Option OneOfSystem) (nodes nodes' : Map OneOfSystem)
    → Nodes IsTyped nodes
    → load_def def nodes ≡ ok nodes'
    → Nodes IsTyped nodes'
unfolding load_def
load_def-IsTyped (some def) nodes nodes' l h = load_nodes-IsTyped def nodes nodes' l h
load_def-IsTyped none [] [] l h = tt
load_def-IsTyped none [] (n ∷ ns) l h = cc
load_def-IsTyped none ((name, node) ∷ nodes) nodes' l h = elim (Option-cases (get_system node)) [
  | inl e ↦ absurd (ground (arith, e, h))
  | inr e ↦ absurd (ground (arith, e.1, h))
]

fill_node-IsTyped :
    (pointer_text : Option String → String) (node node' : OneOfSystem) (store store' : Store)
    → IsTyped node
    → fill_node pointer_text node store ≡ ok (node', store')
    → IsTyped node'
unfolding fill_node
fill_node-IsTyped pointer_text node node' store store' p h = elim (Option-cases (get_system node)) [
  | inl e ↦ absurd (ground (arith, e, h))
  | inr ((sys, field), e) ↦
      let ((sys', next), h1, h2) =
        >>=-eq-ok (fill_default_val pointer_text sys store) _ (rw (fill_node, e) at h) in
      let same : assign_system sys' node ≡ node' = ground (arith, h2) in
      rw (← same) (
        assign-IsTyped node sys sys' field p e
          (fill_default_val-Replaces pointer_text sys sys' store next h1))
]

fill_nodes-IsTyped :
    (pointer_text : Option String → String) (nodes nodes' : Map OneOfSystem) (store store' : Store)
    → Nodes IsTyped nodes
    → fill_nodes pointer_text nodes store ≡ ok (nodes', store')
    → Nodes IsTyped nodes'
unfolding fill_nodes
fill_nodes-IsTyped pointer_text [] [] store store' l h = tt
fill_nodes-IsTyped pointer_text [] (n ∷ ns) store store' l h = absurd (ground (arith, h))
fill_nodes-IsTyped pointer_text ((name, node) ∷ nodes) nodes' store store' (p, l) h =
    let ((node', next), h1, h2) = >>=-eq-ok (fill_node pointer_text node store) _ h in
    let ((rest, last), h3, h4) = >>=-eq-ok (fill_nodes pointer_text nodes next) _ h2 in
    let same : (name, node') ∷ rest ≡ nodes' = ground (arith, h4) in
    rw (← same) (
      fill_node-IsTyped pointer_text node node' store next p h1,
      fill_nodes-IsTyped pointer_text nodes rest next last l h3,
    )

set_node_mac-IsTyped :
    (name mac : String) (nodes nodes' : Map OneOfSystem)
    → Nodes IsTyped nodes
    → set_node_mac name mac nodes ≡ ok nodes'
    → Nodes IsTyped nodes'
unfolding set_node_mac
set_node_mac-IsTyped name mac nodes nodes' l h = elim (Option-cases (lookup name nodes)) [
  | inl e ↦ absurd (ground (arith, e, h))
  | inr (node, e) ↦ elim (Option-cases (get_system node)) [
    | inl g ↦ absurd (ground (arith, e, g, h))
    | inr ((sys, field), g) ↦
        let (sys', h1, h2) = >>=-eq-ok (set_chassis_mac name mac sys) _ (rw (e, g) at h) in
        let same : insert name (assign_system sys' node) nodes ≡ nodes' = ground (arith, h2) in
        let typed : IsTyped (assign_system sys' node) =
          assign-IsTyped node sys sys' field (Nodes-lookup IsTyped name node nodes e l) g
            (set_chassis_mac-Replaces name mac sys sys' h1) in
        rw (← same) (Nodes-insert IsTyped name (assign_system sys' node) nodes typed l)
  ]
]

fill_macs_from-IsTyped :
    (i : ℕ) (names : List String) (nodes nodes' : Map OneOfSystem)
    → Nodes IsTyped nodes
    → fill_macs_from i names nodes ≡ ok nodes'
    → Nodes IsTyped nodes'
unfolding fill_macs_from
fill_macs_from-IsTyped i [] nodes nodes' l h =
    let same : nodes ≡ nodes' = ground (arith, h) in rw (← same) l
fill_macs_from-IsTyped i (name ∷ names) nodes nodes' l h =
    elim (Bool-cases (is_sr_type (get_node_type_via_name name))) [
      | inr f ↦ fill_macs_from-IsTyped (i + 1) names nodes nodes' l (rw f at h)
      | inl t ↦
          let (mac, _, h2) = >>=-eq-ok (as_default (derive_chassis_mac i)) _ (rw t at h) in
          let (next, h3, h4) = >>=-eq-ok (set_node_mac name (mac_string mac) nodes) _ h2 in
          fill_macs_from-IsTyped (i + 1) names next nodes'
            (set_node_mac-IsTyped name (mac_string mac) nodes next l h3) h4
    ]

add_node-IsLoose :
    (name : String) (nodes : Map OneOfSystem)
    → Nodes IsLoose nodes
    → Nodes IsLoose (add_node name nodes)
unfolding add_node
add_node-IsLoose name nodes l = elim (Option-cases (lookup name nodes)) [
  | inl e ↦ rw e (Nodes-insert IsLoose name empty_one_of nodes (inl refl) l)
  | inr (node, e) ↦ rw e l
]

add_named-IsLoose :
    (name : Option String) (nodes : Map OneOfSystem)
    → Nodes IsLoose nodes
    → Nodes IsLoose (add_named name nodes)
add_named-IsLoose none nodes l = l
add_named-IsLoose (some name) nodes l = add_node-IsLoose name nodes l

add_nodes-IsLoose :
    (cs : List Connector) (nodes : Map OneOfSystem)
    → Nodes IsLoose nodes
    → Nodes IsLoose (add_nodes cs nodes)
add_nodes-IsLoose [] nodes l = l
add_nodes-IsLoose (c ∷ cs) nodes l =
    add_nodes-IsLoose cs (add_named c.node_name nodes) (add_named-IsLoose c.node_name nodes l)

add_cpm-IsLoose :
    (cpm : Option String) (nodes : Map OneOfSystem)
    → Nodes IsLoose nodes
    → Nodes IsLoose (add_cpm cpm nodes)
add_cpm-IsLoose none nodes l = l
add_cpm-IsLoose (some cpm) nodes l = add_node-IsLoose cpm nodes l

add_cpms-IsLoose :
    (todo nodes : Map OneOfSystem) → Nodes IsLoose nodes → Nodes IsLoose (add_cpms todo nodes)
unfolding add_cpms
add_cpms-IsLoose [] nodes l = l
add_cpms-IsLoose ((name, _) ∷ todo) nodes l =
    add_cpms-IsLoose todo (add_cpm (cpm_name name) nodes) (add_cpm-IsLoose (cpm_name name) nodes l)

-- When `Default` succeeds on a lab in which each node names one system or none, each node of the
-- result has exactly one: `validate` accepts it.
pub default_lab_valid :
    (pointer_text : Option String → String) (def : Option OneOfSystem) (lab lab' : LabSpec)
    (store store' : Store)
    → Nodes IsLoose lab.node_list
    → default_lab pointer_text def lab store ≡ ok (lab', store')
    → Nodes IsTyped lab'.node_list
unfolding fill_macs
default_lab_valid pointer_text def lab lab' store store' l h =
    let named = add_nodes (connectors_of lab.link_list) lab.node_list in
    let (_, typed, loaded, filled, e1, e2, e3, e4, e5) =
      default_lab-Steps pointer_text def lab lab' store store' h in
    let loose =
      add_cpms-IsLoose named named
        (add_nodes-IsLoose (connectors_of lab.link_list) lab.node_list l) in
    let t1 = type_nodes-IsTyped (add_cpms named named) typed loose e1 in
    let t2 = load_def-IsTyped def typed loaded t1 e2 in
    let t3 = fill_nodes-IsTyped pointer_text loaded filled store store' t2 e3 in
    fill_macs_from-IsTyped 0 (get_sorted_key_slice filled) filled lab'.node_list t3 e5
