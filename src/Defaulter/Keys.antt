-- ===== src/Defaulter/Keys.antt =====
-- What `Default` does to the names of the nodes and to the connectors.
use knl.Common.{
  Option-cases, ◌≡◌, refl, inl, inr, Bool-cases, String, true, Option, none, some, List, [], ◌∷◌,
  ◌==◌, eq_iff, eq_refl, arith, Map, lookup, has_key, has_key-insert, All,
}
use knl.Api.{Connector, OneOfSystem}
use knl.Api.OneOf.{empty_one_of}
use knl.Defaulter.Nodes.{add_node, add_cpm, add_cpms, cpm_name}
use knl.Defaulter.Macs.{add_nodes, add_named, IsNamed}

-- no name of the first map is missing in the second
abbrev pub Within : Map OneOfSystem → Map OneOfSystem → Type 0
Within m n = (k : String) → has_key k m ≡ true → has_key k n ≡ true

add_node-Within : (name : String) (nodes : Map OneOfSystem) → Within nodes (add_node name nodes)
unfolding add_node
add_node-Within name nodes k h =
    ground (arith, has_key-insert name k empty_one_of nodes, eq_iff name k)

add_node-has_key :
    (name : String) (nodes : Map OneOfSystem) → has_key name (add_node name nodes) ≡ true
unfolding add_node
add_node-has_key name nodes =
    ground (arith, has_key-insert name name empty_one_of nodes, eq_refl name)

add_named-Within :
    (name : Option String) (nodes : Map OneOfSystem) → Within nodes (add_named name nodes)
add_named-Within none nodes k h = h
add_named-Within (some name) nodes k h = add_node-Within name nodes k h

pub add_nodes-Within :
    (cs : List Connector) (nodes : Map OneOfSystem) → Within nodes (add_nodes cs nodes)
add_nodes-Within [] nodes k h = h
add_nodes-Within (c ∷ cs) nodes k h =
    add_nodes-Within cs (add_named c.node_name nodes) k (add_named-Within c.node_name nodes k h)

-- the connectors that name a node of the map
abbrev pub Resolves : Map OneOfSystem → Connector → Type 0
Resolves nodes c = (name : String) × (c.node_name ≡ some name) × (has_key name nodes ≡ true)

pub add_nodes-Resolves :
    (cs : List Connector) (nodes : Map OneOfSystem)
    → All IsNamed cs
    → All (Resolves (add_nodes cs nodes)) cs
add_nodes-Resolves [] nodes h = tt
add_nodes-Resolves (c ∷ cs) nodes (named, h) =
    let next = add_named c.node_name nodes in
    (
      elim (Option-cases c.node_name) [
        | inl gone ↦ absurd (named gone)
        | inr (name, e) ↦
            let known : has_key name next ≡ true = rw e (add_node-has_key name nodes) in
            (name, e, add_nodes-Within cs next name known)
      ],
      add_nodes-Resolves cs next h,
    )

add_cpm-Within : (cpm : Option String) (nodes : Map OneOfSystem) → Within nodes (add_cpm cpm nodes)
add_cpm-Within none nodes k h = h
add_cpm-Within (some cpm) nodes k h = add_node-Within cpm nodes k h

pub add_cpms-Within : (todo nodes : Map OneOfSystem) → Within nodes (add_cpms todo nodes)
unfolding add_cpms
add_cpms-Within [] nodes k h = h
add_cpms-Within ((name, _) ∷ todo) nodes k h =
    add_cpms-Within todo (add_cpm (cpm_name name) nodes) k
      (add_cpm-Within (cpm_name name) nodes k h)

-- every node of the old name format has its CPM
pub add_cpms-has_key :
    (todo nodes : Map OneOfSystem) (name cpm : String)
    → cpm_name name ≡ some cpm
    → has_key name todo ≡ true
    → has_key cpm (add_cpms todo nodes) ≡ true
unfolding add_cpms lookup
add_cpms-has_key [] nodes name cpm e h = cc
add_cpms-has_key ((k, _) ∷ todo) nodes name cpm e h =
    let (same, _) = eq_iff k name in
    elim (Bool-cases (k == name)) [
      | inl t ↦
          let added : add_cpm (cpm_name k) nodes ≡ add_node cpm nodes = rw (same t, e) refl in
          rw added (add_cpms-Within todo (add_node cpm nodes) cpm (add_node-has_key cpm nodes))
      | inr f ↦ add_cpms-has_key todo (add_cpm (cpm_name k) nodes) name cpm e (rw f at h)
    ]
