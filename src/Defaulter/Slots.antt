-- ===== src/Defaulter/Slots.antt =====
-- The last steps of `Default`: the defaults of each node, the slot of each connector of an SR VM,
-- and the base MAC address of each chassis.
use Prim.Native.String.{compare}
use Prim.Native.Nat.{Ordering}
use knl.Common.{
  ℕ, ◌+◌, String, Bool, true, false, Option, none, some, List, [], ◌∷◌, ◌==◌, if◌then◌else◌, Map,
  lookup, insert, keys, Result, ok, err, panic, ◌>>=◌,
}
use knl.Mac.{derive_chassis_mac, mac_string}
use knl.Names.{NodeType, get_node_type_via_name, is_srvm, is_sr_type}
use knl.Api.{
  Connector, Link, OneOfSystem, System, Srvm, SrSim, SrChassis, SrCard, CardsRef, Store, write,
}
use knl.Api.OneOf.{get_system, assign_system}
use knl.Chassis.{ChassisError, deref, set_default_generic, get_default_mda_slot}
use knl.Chassis.Fill.{fill_chassis}
use knl.Defaulter.Nodes.{DefaultError, as_default}

-- a nil map reads as an empty one
abbrev pub cards_of : Option CardsRef → Store → Map SrCard
cards_of none store = []
cards_of (some ref) store = store ref

abbrev write_cards : Option CardsRef → Map SrCard → Store → Store
write_cards none cards store = store
write_cards (some ref) cards store = write ref cards store

abbrev pub no_error : {A : Type 0} → Result ChassisError A → Result DefaultError A
no_error (ok a) = ok a
no_error (err e) = panic
no_error panic = panic

module _ (pointer_text : Option String → String) where
  -- `FillDefaultVal` of VSIM, VSRI and MAGC: it sets the type, then fills the cards in the store
  unfoldable pub fill_srvm_node : NodeType → Srvm → Store → Result DefaultError (Srvm × Store)
  fill_srvm_node nt srvm store = do
    chassis ← deref srvm.chassis
    let typed : SrChassis = record chassis { type = some nt }
    cards ← no_error (fill_chassis pointer_text typed (cards_of chassis.cards store))
    ok (record srvm { chassis = some typed }, write_cards chassis.cards cards store)

  unfoldable pub fill_srsim_node : SrSim → Result DefaultError SrSim
  fill_srsim_node srsim = do
    chassis ← deref srsim.chassis
    ok (record srsim { chassis = some (record chassis { type = some "srsim" }) })

  -- `FillDefaultVal` of a system
  unfoldable pub fill_default_val : System → Store → Result DefaultError (System × Store)
  unfolding fill_srvm_node fill_srsim_node
  fill_default_val (System.vsim s) store = do
    (s', store') ← fill_srvm_node "vsim" s store
    ok (System.vsim s', store')
  fill_default_val (System.vsri s) store = do
    (s', store') ← fill_srvm_node "vsri" s store
    ok (System.vsri s', store')
  fill_default_val (System.magc s) store = do
    (s', store') ← fill_srvm_node "magc" s store
    ok (System.magc s', store')
  fill_default_val (System.srsim s) store = do s' ← fill_srsim_node s; ok (System.srsim s', store)
  fill_default_val sys store = ok (sys, store)

  unfoldable pub fill_node : OneOfSystem → Store → Result DefaultError (OneOfSystem × Store)
  unfolding fill_default_val
  fill_node node store = elim (get_system node) [
    | none ↦ panic
    | some (sys, field) ↦ do
      (sys', store') ← fill_default_val sys store
      ok (assign_system sys' node, store')
  ]

  -- the loop over the nodes
  unfoldable pub fill_nodes :
      Map OneOfSystem → Store → Result DefaultError (Map OneOfSystem × Store)
  unfolding fill_node
  fill_nodes [] store = ok ([], store)
  fill_nodes ((name, node) ∷ nodes) store = do
    (node', store') ← fill_node node store
    (nodes', store'') ← fill_nodes nodes store'
    ok ((name, node') ∷ nodes', store'')

-- `GetSRVMviaSys`, whose type assertions panic; `none` for another node type
unfoldable pub get_srvm_via_sys : String → Option System → Result DefaultError (Option Srvm)
unfolding get_node_type_via_name
get_srvm_via_sys name sys =
    let t = get_node_type_via_name name in
    if t == "magc"
    then elim sys [ some (System.magc s) ↦ ok (some s) | _ ↦ panic ]
    else if t == "vsim"
    then elim sys [ some (System.vsim s) ↦ ok (some s) | _ ↦ panic ]
    else if t == "vsri"
    then elim sys [ some (System.vsri s) ↦ ok (some s) | _ ↦ panic ]
    else ok none

abbrev pub system_of : Option OneOfSystem → Result DefaultError (Option System)
system_of none = panic
system_of (some node) = elim (get_system node) [
  | none ↦ ok none
  | some (sys, field) ↦ ok (some sys)
]

-- a round of the loop, for the connector of the node `name`
unfoldable pub fill_port_of :
    String → Map OneOfSystem → Store → Connector → Result DefaultError Connector
unfolding get_srvm_via_sys is_srvm
fill_port_of name nodes store c =
    if is_srvm (get_node_type_via_name name)
    then elim c.port_id [
      | some _ ↦ ok c
      | none ↦ do
        sys ← system_of (lookup name nodes)
        srvm ← get_srvm_via_sys name sys
        s ← deref srvm
        chassis ← deref s.chassis
        slot ← get_default_mda_slot chassis (cards_of chassis.cards store)
        ok (record c { port_id = some slot })
    ]
    else ok c

unfoldable pub fill_port : Map OneOfSystem → Store → Connector → Result DefaultError Connector
unfolding fill_port_of
fill_port nodes store c = do name ← deref c.node_name; fill_port_of name nodes store c

unfoldable pub fill_connector_ports :
    Map OneOfSystem → Store → List Connector → Result DefaultError (List Connector)
unfolding fill_port
fill_connector_ports nodes store [] = ok []
fill_connector_ports nodes store (c ∷ cs) = do
  c' ← fill_port nodes store c
  cs' ← fill_connector_ports nodes store cs
  ok (c' ∷ cs')

-- the loop over the links that fills the slots of SR VM connectors
unfoldable pub fill_ports : Map OneOfSystem → Store → Map Link → Result DefaultError (Map Link)
unfolding fill_connector_ports
fill_ports nodes store [] = ok []
fill_ports nodes store ((name, link) ∷ links) = do
  cs ← fill_connector_ports nodes store link.connectors
  links' ← fill_ports nodes store links
  ok ((name, record { connectors = cs }) ∷ links')

abbrev text_le : String → String → Bool
text_le s t = elim (compare s t) [ Ordering.gt ↦ false | _ ↦ true ]

unfoldable pub insert_sorted : String → List String → List String
insert_sorted k [] = k ∷ []
insert_sorted k (j ∷ ks) = if text_le k j then k ∷ j ∷ ks else j ∷ insert_sorted k ks

-- `slices.Sort`
unfoldable pub sort : List String → List String
unfolding insert_sorted
sort [] = []
sort (k ∷ ks) = insert_sorted k (sort ks)

-- `GetSortedKeySlice`
unfoldable pub get_sorted_key_slice : {V : Type 0} → Map V → List String
unfolding sort keys
get_sorted_key_slice m = sort (keys m)

abbrev with_mac : String → Option SrChassis → Option SrChassis
with_mac mac none = none
with_mac mac (some c) = some (record c { chassis_mac = set_default_generic c.chassis_mac mac })

-- The system with a new chassis, where `GetChassisFromSys` gives one. Its type assertions panic.
unfoldable pub set_chassis_mac : String → String → System → Result DefaultError System
set_chassis_mac name mac sys =
    let t = get_node_type_via_name name in
    if t == "srsim"
    then elim sys [
      | System.srsim s ↦ ok (System.srsim (record s { chassis = with_mac mac s.chassis }))
      | _ ↦ panic
    ]
    else if t == "magc"
    then elim sys [
      | System.magc s ↦ ok (System.magc (record s { chassis = with_mac mac s.chassis }))
      | _ ↦ panic
    ]
    else if t == "vsim"
    then elim sys [
      | System.vsim s ↦ ok (System.vsim (record s { chassis = with_mac mac s.chassis }))
      | _ ↦ panic
    ]
    else if t == "vsri"
    then elim sys [
      | System.vsri s ↦ ok (System.vsri (record s { chassis = with_mac mac s.chassis }))
      | _ ↦ panic
    ]
    else ok sys

unfoldable pub set_node_mac :
    String → String → Map OneOfSystem → Result DefaultError (Map OneOfSystem)
unfolding set_chassis_mac
set_node_mac name mac nodes = do
  node ← deref (lookup name nodes)
  (sys, field) ← deref (get_system node)
  sys' ← set_chassis_mac name mac sys
  ok (insert name (assign_system sys' node) nodes)

-- the loop over the sorted names, from the index `i` on
unfoldable pub fill_macs_from :
    ℕ → List String → Map OneOfSystem → Result DefaultError (Map OneOfSystem)
unfolding set_node_mac is_sr_type get_node_type_via_name
fill_macs_from i [] nodes = ok nodes
fill_macs_from i (name ∷ names) nodes =
    let skip = fill_macs_from (i + 1) names nodes in
    if is_sr_type (get_node_type_via_name name)
    then (do
      mac ← as_default (derive_chassis_mac i)
      nodes' ← set_node_mac name (mac_string mac) nodes
      fill_macs_from (i + 1) names nodes')
    else skip

-- the loop that gives each SR chassis its base MAC address
unfoldable pub fill_macs : Map OneOfSystem → Result DefaultError (Map OneOfSystem)
unfolding fill_macs_from get_sorted_key_slice
fill_macs nodes = fill_macs_from 0 (get_sorted_key_slice nodes) nodes
