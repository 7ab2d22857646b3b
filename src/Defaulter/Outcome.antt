-- ===== src/Defaulter/Outcome.antt =====
-- What a lab is like that `Default` has gone over.
use knl.Common.{
  ℕ, ◌+◌, ◌≡◌, ◌≢◌, refl, sym, ap, ◌∙◌, inl, inr, Bool-cases, String, true, Option, none, some,
  Option-cases, List, [], ◌∷◌, arith, Map, keys, has_key, has_key-keys, lookup, Result, ok, err,
  panic, >>=-eq-ok, All, All-append, All-map, All-split,
}
use knl.Names.{get_node_type_via_name, is_srvm}
use knl.Api.{Connector, Link, LabSpec, OneOfSystem, Store}
use knl.LoadDef.{LoadError, load_def}
use knl.Chassis.{deref, get_default_mda_slot}
use knl.Defaulter.{default_lab, lift_load}
use knl.Defaulter.Nodes.{default_links, add_cpms, cpm_name, type_nodes}
use knl.Defaulter.Slots.{
  cards_of, system_of, get_srvm_via_sys, fill_port, fill_port_of, fill_connector_ports, fill_nodes,
  fill_ports, fill_macs,
}
use knl.Defaulter.Keys.{
  Within, Resolves, add_nodes-Within, add_nodes-Resolves, add_cpms-Within, add_cpms-has_key,
}
use knl.Defaulter.Steps.{type_nodes-keys, load_def-keys, fill_nodes-keys, fill_macs-keys}
use knl.Defaulter.Macs.{
  IsNamed, with_derived, add_nodes, connectors_of, number_connectors, number_links,
  default_links-eq, connectors_of-number_links,
}

-- an SR VM's connector has a slot
abbrev pub HasSlot : Connector → Type 0
HasSlot c =
    (name : String)
    → c.node_name ≡ some name
    → is_srvm (get_node_type_via_name name) ≡ true
    → c.port_id ≢ none

-- The same connector but for the slot, which an SR VM's connector has.
abbrev Slotted : Connector → Connector → Type 0
Slotted given c = HasSlot c × ((port : Option String) × (c ≡ record given { port_id = port }))

slotted :
    (given c : Connector) (port : Option String)
    → c ≡ record given { port_id = port }
    → ((name : String)
        → given.node_name ≡ some name
        → is_srvm (get_node_type_via_name name) ≡ true
        → port ≢ none)
    → Slotted given c
slotted given c port e has = rw e (has, (port, refl))

fill_port-Slotted :
    (nodes : Map OneOfSystem) (store : Store) (given c : Connector)
    → fill_port nodes store given ≡ ok c
    → Slotted given c
unfolding fill_port fill_port_of is_srvm
fill_port-Slotted nodes store given c h0 =
    let (name, named, h) = >>=-eq-ok (deref given.node_name) _ h0 in
    elim (Bool-cases (is_srvm (get_node_type_via_name name))) [
      | inr f ↦
          slotted given c given.port_id (ground (arith, f, h))
            (λ other e t. ground (arith, f, t, e, named))
      | inl t ↦ elim (Option-cases given.port_id) [
        | inr (port, e) ↦
            slotted given c given.port_id (ground (arith, e, t, h)) (λ _ _ _. ground (arith, e))
        | inl e ↦
            let (sys, _, h2) = >>=-eq-ok (system_of (lookup name nodes)) _ (rw (t, e) at h) in
            let (srvm, _, h3) = >>=-eq-ok (get_srvm_via_sys name sys) _ h2 in
            let (s, _, h4) = >>=-eq-ok (deref srvm) _ h3 in
            let (chassis, _, h5) = >>=-eq-ok (deref s.chassis) _ h4 in
            let (slot, _, h6) =
              >>=-eq-ok (get_default_mda_slot chassis (cards_of chassis.cards store)) _ h5 in
            slotted given c (some slot) (ground (arith, h6)) (λ _ _ _. ground arith)
      ]
    ]

-- A property of connectors that does not depend on the slot holds of the links after `fill_ports`, if
-- it held before, and the connectors of SR VMs then have a slot.
module _ (P : Connector → Type 0)
    (free : (c : Connector) (port : Option String) → P c → P (record c { port_id = port })) where
  fill_connector_ports-All :
      (nodes : Map OneOfSystem) (store : Store) (cs cs' : List Connector)
      → fill_connector_ports nodes store cs ≡ ok cs'
      → All P cs
      → All (λ c. P c × HasSlot c) cs'
  unfolding fill_connector_ports
  fill_connector_ports-All nodes store [] [] h p = tt
  fill_connector_ports-All nodes store [] (c ∷ cs') h p = cc
  fill_connector_ports-All nodes store (c ∷ cs) cs' h (p, ps) =
      let (d, h1, h2) = >>=-eq-ok (fill_port nodes store c) _ h in
      let (ds, h3, h4) = >>=-eq-ok (fill_connector_ports nodes store cs) _ h2 in
      let (slot, (port, e)) = fill_port-Slotted nodes store c d h1 in
      let q : P d = rw e (free c port p) in
      let qs = fill_connector_ports-All nodes store cs ds h3 ps in
      let e4 : d ∷ ds ≡ cs' = ground (arith, h4) in rw (← e4) ((q, slot), qs)

  fill_ports-All :
      (nodes : Map OneOfSystem) (store : Store) (links links' : Map Link)
      → fill_ports nodes store links ≡ ok links'
      → All P (connectors_of links)
      → All (λ c. P c × HasSlot c) (connectors_of links')
  unfolding fill_ports
  fill_ports-All nodes store [] [] h p = tt
  fill_ports-All nodes store [] (l ∷ links') h p = cc
  fill_ports-All nodes store ((name, link) ∷ links) links' h p =
      let (cs, h1, h2) = >>=-eq-ok (fill_connector_ports nodes store link.connectors) _ h in
      let (rest, h3, h4) = >>=-eq-ok (fill_ports nodes store links) _ h2 in
      let (pl, pr) = All-split P link.connectors (connectors_of links) p in
      let e4 : (name, record { connectors = cs }) ∷ rest ≡ links' = ground (arith, h4) in
      rw (← e4) (
        All-append (λ c. P c × HasSlot c) cs (connectors_of rest)
          (fill_connector_ports-All nodes store link.connectors cs h1 pl)
          (fill_ports-All nodes store links rest h3 pr))

lift_load-ok : {A : Type 0} (r : Result LoadError A) (a : A) → lift_load r ≡ ok a → r ≡ ok a
unfolding lift_load
lift_load-ok (ok a) b h = ground (arith, h)
lift_load-ok (err e) b h = cc
lift_load-ok panic b h = cc

number_connectors-All :
    (P : Connector → Type 0) (Q : Connector → Type 0) (offset : ℕ) (cs : List Connector)
    → ((k : ℕ) (c : Connector) → P c → Q (with_derived k c))
    → All P cs
    → All Q (number_connectors offset cs)
number_connectors-All P Q offset [] f h = tt
number_connectors-All P Q offset (c ∷ cs) f (p, h) =
    (f (offset + 1) c p, number_connectors-All P Q (offset + 1) cs f h)

-- the connector's node is in the map and it has a MAC address
abbrev pub Connected : Map OneOfSystem → Connector → Type 0
Connected nodes c = Resolves nodes c × (c.mac ≢ none)

-- the results of the steps of `Default`
abbrev Steps :
    (Option String → String) → Option OneOfSystem → LabSpec → Store → LabSpec → Store → Type 0
Steps pointer_text def lab store lab' store' =
    let cs = connectors_of lab.link_list in
    let named = add_nodes cs lab.node_list in
    All IsNamed cs
    × (typed : Map OneOfSystem) × (loaded : Map OneOfSystem) × (filled : Map OneOfSystem)
    × (type_nodes (add_cpms named named) ≡ ok typed)
    × (load_def def typed ≡ ok loaded)
    × (fill_nodes pointer_text loaded store ≡ ok (filled, store'))
    × (fill_ports filled store' (number_links 0 lab.link_list) ≡ ok lab'.link_list)
    × (fill_macs filled ≡ ok lab'.node_list)

pub default_lab-Steps :
    (pointer_text : Option String → String) (def : Option OneOfSystem) (lab lab' : LabSpec)
    (store store' : Store)
    → default_lab pointer_text def lab store ≡ ok (lab', store')
    → Steps pointer_text def lab store lab' store'
unfolding default_lab
default_lab-Steps pointer_text def lab lab' store store' h =
    let named = add_nodes (connectors_of lab.link_list) lab.node_list in
    let (first, e0, h0) = >>=-eq-ok (default_links 0 lab.node_list lab.link_list) _ h in
    let (all_named, is_first) = default_links-eq lab.node_list lab.link_list first e0 in
    let (typed, e1, h1) = >>=-eq-ok (type_nodes (add_cpms named named)) _ (rw is_first at h0) in
    let (loaded, e2, h2) = >>=-eq-ok (lift_load (load_def def typed)) _ h1 in
    let ((filled, s), e3, h3) = >>=-eq-ok (fill_nodes pointer_text loaded store) _ h2 in
    let (ported, e4, h4) = >>=-eq-ok (fill_ports filled s (number_links 0 lab.link_list)) _ h3 in
    let (done, e5, h5) = >>=-eq-ok (fill_macs filled) _ h4 in
    let stores : s ≡ store' = ground (arith, h5) in
    let links : ported ≡ lab'.link_list = ground (arith, h5) in
    let nodes : done ≡ lab'.node_list = ground (arith, h5) in
    (
      all_named,
      typed,
      loaded,
      filled,
      e1,
      lift_load-ok (load_def def typed) loaded e2,
      e3 ∙ ap (λ x. ok (filled, x)) stores,
      ap (λ x. fill_ports filled x (number_links 0 lab.link_list)) (sym stores) ∙ e4 ∙ ap ok links,
      e5 ∙ ap ok nodes,
    )

Connected-with_derived :
    (nodes : Map OneOfSystem) (k : ℕ) (c : Connector)
    → Resolves nodes c
    → Connected nodes (with_derived k c)
Connected-with_derived nodes k c h =
    (h, elim (Option-cases c.mac) [ inl e ↦ ground (arith, e) | inr (mac, e) ↦ ground (arith, e) ])

-- When `Default` succeeds, every connector of the lab has a MAC address and names a node of the lab,
-- and has a slot if that node is an SR VM by its name. No node that was given is lost, and each node
-- that was given or that a connector names has its CPM, where the old name format needs one.
pub default_lab_connects :
    (pointer_text : Option String → String) (def : Option OneOfSystem) (lab lab' : LabSpec)
    (store store' : Store)
    → default_lab pointer_text def lab store ≡ ok (lab', store')
    → All (λ c. (Connected lab'.node_list c) × HasSlot c) (connectors_of lab'.link_list)
      × Within lab.node_list lab'.node_list
      × ((name cpm : String)
          → has_key name (add_nodes (connectors_of lab.link_list) lab.node_list) ≡ true
          → cpm_name name ≡ some cpm
          → has_key cpm lab'.node_list ≡ true)
default_lab_connects pointer_text def lab lab' store store' h =
    let cs = connectors_of lab.link_list in
    let named = add_nodes cs lab.node_list in
    let (all_named, typed, loaded, filled, e1, e2, e3, e4, e5) =
      default_lab-Steps pointer_text def lab lab' store store' h in
    let same : keys lab'.node_list ≡ keys (add_cpms named named) =
      fill_macs-keys filled lab'.node_list e5
      ∙ fill_nodes-keys pointer_text loaded filled store store' e3
      ∙ load_def-keys def typed loaded e2
      ∙ type_nodes-keys (add_cpms named named) typed e1 in
    let kept : Within (add_cpms named named) lab'.node_list =
      λ k known. has_key-keys k lab'.node_list (add_cpms named named) same ∙ known in
    let resolved : All (Resolves lab'.node_list) cs =
      All-map (Resolves (add_nodes cs lab.node_list)) (Resolves lab'.node_list)
        (λ c (name, e, r). (name, e, kept name (add_cpms-Within named named name r))) cs
        (add_nodes-Resolves cs lab.node_list all_named) in
    let numbered =
      number_connectors-All (Resolves lab'.node_list) (Connected lab'.node_list) 0 cs
        (Connected-with_derived lab'.node_list) resolved in
    (
      fill_ports-All (Connected lab'.node_list) (λ c port p. p) filled store'
          (number_links 0 lab.link_list) lab'.link_list e4
          (rw (connectors_of-number_links 0 lab.link_list) numbered),
      λ k known. kept k (add_cpms-Within named named k (add_nodes-Within cs lab.node_list k known)),
      λ name cpm known needs. kept cpm (add_cpms-has_key named named name cpm needs known),
    )
