-- ===== src/Defaulter/NoError.antt =====
-- The steps of `Default` that return no error: they succeed or panic.
use knl.Common.{
  ℕ, ◌+◌, ◌≢◌, refl, inl, inr, Bool-cases, String, true, Option, none, some, Option-cases, List, [],
  ◌∷◌, ◌==◌, arith, Map, lookup, Result, ok, err, panic, ◌>>=◌,
}
use knl.Mac.{derive_chassis_mac, mac_string}
use knl.Names.{NodeType, get_node_type_via_name, is_sr_type, is_srvm, is_cpm, is_integrated_chassis}
use knl.Text.{atoi, trim_space}
use knl.Api.{Connector, Link, Srvm, SrCard, SrChassis, OneOfSystem, System, Store}
use knl.Api.OneOf.{get_system}
use knl.Chassis.{ChassisError, deref, iom_list, iom_fits, get_default_mda_slot}
use knl.Defaulter.Nodes.{DefaultError, as_default}
use knl.Defaulter.Slots.{
  cards_of, no_error, fill_default_val, fill_srvm_node, fill_srsim_node, fill_node, fill_nodes,
  get_srvm_via_sys, system_of, fill_port, fill_port_of, fill_connector_ports, fill_ports,
  set_chassis_mac, set_node_mac, fill_macs_from,
}

-- no error is returned: a value, or a panic
unfoldable pub NoError : {A : Type 0} → Result DefaultError A → Type 0
NoError r = (e : DefaultError) → r ≢ err e

pub ok-NoError : {A : Type 0} (a : A) → NoError (ok a)
unfolding NoError
ok-NoError a e h = cc

panic-NoError : (A : Type 0) → NoError {A = A} panic
unfolding NoError
panic-NoError A e h = cc

pub bind-NoError :
    {A B : Type 0} (m : Result DefaultError A) (f : A → Result DefaultError B)
    → NoError m
    → ((a : A) → NoError (f a))
    → NoError (m >>= f)
unfolding NoError
bind-NoError (ok a) f hm hf e h = hf a e h
bind-NoError (err x) f hm hf e h = hm x refl
bind-NoError panic f hm hf e h = cc

deref-NoError : {A : Type 0} (o : Option A) → NoError (deref o)
unfolding NoError
deref-NoError none e h = cc
deref-NoError (some a) e h = cc

no_error-NoError : {A : Type 0} (r : Result ChassisError A) → NoError (no_error r)
unfolding NoError
no_error-NoError (ok a) e h = cc
no_error-NoError (err x) e h = cc
no_error-NoError panic e h = cc

as_default-NoError : {A : Type 0} (r : Result Unit A) → NoError (as_default r)
unfolding NoError
as_default-NoError (ok a) e h = cc
as_default-NoError (err x) e h = cc
as_default-NoError panic e h = cc

module _ (pointer_text : Option String → String) where
  fill_srvm_node-NoError :
      (nt : NodeType) (s : Srvm) (store : Store) → NoError (fill_srvm_node pointer_text nt s store)
  unfolding fill_srvm_node
  fill_srvm_node-NoError nt s store =
      bind-NoError (deref s.chassis) _ (deref-NoError s.chassis)
        (λ chassis. bind-NoError (no_error _) _ (no_error-NoError _) (λ cards. ok-NoError _))

  fill_default_val-NoError :
      (s : System) (store : Store) → NoError (fill_default_val pointer_text s store)
  unfolding fill_default_val fill_srsim_node
  fill_default_val-NoError (System.vsim s) store =
      bind-NoError _ _ (fill_srvm_node-NoError "vsim" s store) (λ a. ok-NoError _)
  fill_default_val-NoError (System.vsri s) store =
      bind-NoError _ _ (fill_srvm_node-NoError "vsri" s store) (λ a. ok-NoError _)
  fill_default_val-NoError (System.magc s) store =
      bind-NoError _ _ (fill_srvm_node-NoError "magc" s store) (λ a. ok-NoError _)
  fill_default_val-NoError (System.srsim s) store =
      bind-NoError _ _
        (bind-NoError (deref s.chassis) _ (deref-NoError s.chassis) (λ a. ok-NoError _))
        (λ a. ok-NoError _)
  fill_default_val-NoError (System.vm s) store = ok-NoError _
  fill_default_val-NoError (System.srl s) store = ok-NoError _
  fill_default_val-NoError (System.pod s) store = ok-NoError _

  fill_node-NoError :
      (node : OneOfSystem) (store : Store) → NoError (fill_node pointer_text node store)
  unfolding fill_node
  fill_node-NoError node store = elim (Option-cases (get_system node)) [
    | inl e ↦ rw (fill_node, e) (panic-NoError _)
    | inr ((sys, field), e) ↦
        rw (fill_node, e)
          (bind-NoError _ _ (fill_default_val-NoError sys store) (λ a. ok-NoError _))
  ]

  pub fill_nodes-NoError :
      (nodes : Map OneOfSystem) (store : Store) → NoError (fill_nodes pointer_text nodes store)
  unfolding fill_nodes
  fill_nodes-NoError [] store = ok-NoError _
  fill_nodes-NoError ((name, node) ∷ nodes) store =
      bind-NoError _ _ (fill_node-NoError node store)
        (λ (node', next). bind-NoError _ _ (fill_nodes-NoError nodes next) (λ a. ok-NoError _))

iom_fits-NoError :
    (type : Option NodeType) (card : SrCard) → NoError (iom_fits {E = DefaultError} type card)
unfolding iom_fits
iom_fits-NoError type card = bind-NoError (deref type) _ (deref-NoError type) (λ t.
    elim (Bool-cases (t == "magc")) [
      | inl e ↦
          rw e (bind-NoError (deref card.model) _ (deref-NoError card.model) (λ m. ok-NoError _))
      | inr e ↦ rw e (ok-NoError true)
    ])

iom_list-NoError :
    (type : Option NodeType) (cards : Map SrCard) → NoError (iom_list {E = DefaultError} type cards)
unfolding iom_list
iom_list-NoError type [] = ok-NoError []
iom_list-NoError type ((slot, card) ∷ cards) = elim (Bool-cases (is_cpm slot)) [
  | inl t ↦ rw (iom_list, t) (iom_list-NoError type cards)
  | inr f ↦ elim (Option-cases (atoi (trim_space slot))) [
    | inl e ↦ rw (iom_list, f, e) (panic-NoError _)
    | inr (n, e) ↦
        rw (iom_list, f, e)
          (bind-NoError _ _ (iom_fits-NoError type card)
            (λ fits. bind-NoError _ _ (iom_list-NoError type cards) (λ more. ok-NoError _)))
  ]
]

get_default_mda_slot-NoError :
    (chassis : SrChassis) (cards : Map SrCard)
    → NoError (get_default_mda_slot {E = DefaultError} chassis cards)
unfolding get_default_mda_slot
get_default_mda_slot-NoError chassis cards =
    bind-NoError (deref chassis.model) _ (deref-NoError chassis.model) (λ model.
      elim (Bool-cases (is_integrated_chassis model)) [
        | inl t ↦ rw t (ok-NoError _)
        | inr f ↦ rw f (bind-NoError _ _ (iom_list-NoError chassis.type cards) (λ a. ok-NoError _))
      ])

system_of-NoError : (node : Option OneOfSystem) → NoError (system_of node)
system_of-NoError none = panic-NoError _
system_of-NoError (some node) = elim (Option-cases (get_system node)) [
  | inl e ↦ rw (system_of, e) (ok-NoError _)
  | inr (s, e) ↦ rw (system_of, e) (ok-NoError _)
]

get_srvm_via_sys-NoError :
    (name : String) (sys : Option System) → NoError (get_srvm_via_sys name sys)
unfolding get_srvm_via_sys NoError
get_srvm_via_sys-NoError name none e h = ground (arith, h)
get_srvm_via_sys-NoError name (some (System.vsim s)) e h = ground (arith, h)
get_srvm_via_sys-NoError name (some _) e h = ground (arith, h)

fill_port_of-NoError :
    (name : String) (nodes : Map OneOfSystem) (store : Store) (c : Connector)
    → NoError (fill_port_of name nodes store c)
unfolding fill_port_of
fill_port_of-NoError name nodes store c =
    elim (Bool-cases (is_srvm (get_node_type_via_name name))) [
      | inr f ↦ rw (fill_port_of, f) (ok-NoError c)
      | inl t ↦ elim (Option-cases c.port_id) [
        | inr (port, e) ↦ rw (fill_port_of, t, e) (ok-NoError c)
        | inl e ↦
            rw (fill_port_of, t, e)
              (bind-NoError _ _ (system_of-NoError (lookup name nodes)) (λ sys.
                bind-NoError _ _ (get_srvm_via_sys-NoError name sys) (λ srvm.
                  bind-NoError _ _ (deref-NoError srvm) (λ s.
                    bind-NoError _ _ (deref-NoError s.chassis) (λ chassis.
                      bind-NoError _ _
                        (get_default_mda_slot-NoError chassis (cards_of chassis.cards store))
                        (λ slot. ok-NoError _))))))
      ]
    ]

fill_port-NoError :
    (nodes : Map OneOfSystem) (store : Store) (c : Connector) → NoError (fill_port nodes store c)
unfolding fill_port
fill_port-NoError nodes store c =
    bind-NoError _ _ (deref-NoError c.node_name) (λ name. fill_port_of-NoError name nodes store c)

fill_connector_ports-NoError :
    (nodes : Map OneOfSystem) (store : Store) (cs : List Connector)
    → NoError (fill_connector_ports nodes store cs)
unfolding fill_connector_ports
fill_connector_ports-NoError nodes store [] = ok-NoError []
fill_connector_ports-NoError nodes store (c ∷ cs) =
    bind-NoError _ _ (fill_port-NoError nodes store c)
      (λ d. bind-NoError _ _ (fill_connector_ports-NoError nodes store cs) (λ ds. ok-NoError _))

pub fill_ports-NoError :
    (nodes : Map OneOfSystem) (store : Store) (links : Map Link)
    → NoError (fill_ports nodes store links)
unfolding fill_ports
fill_ports-NoError nodes store [] = ok-NoError []
fill_ports-NoError nodes store ((name, link) ∷ links) =
    bind-NoError _ _ (fill_connector_ports-NoError nodes store link.connectors)
      (λ d. bind-NoError _ _ (fill_ports-NoError nodes store links) (λ ds. ok-NoError _))

set_chassis_mac-NoError :
    (name mac : String) (sys : System) → NoError (set_chassis_mac name mac sys)
unfolding set_chassis_mac NoError
set_chassis_mac-NoError name mac (System.vsim s) e h = ground (arith, h)
set_chassis_mac-NoError name mac _ e h = ground (arith, h)

set_node_mac-NoError :
    (name mac : String) (nodes : Map OneOfSystem) → NoError (set_node_mac name mac nodes)
unfolding set_node_mac
set_node_mac-NoError name mac nodes = bind-NoError _ _ (deref-NoError (lookup name nodes)) (λ node.
    bind-NoError _ _ (deref-NoError (get_system node))
      (λ (sys, field). bind-NoError _ _ (set_chassis_mac-NoError name mac sys) (λ a. ok-NoError _)))

pub fill_macs_from-NoError :
    (i : ℕ) (names : List String) (nodes : Map OneOfSystem) → NoError (fill_macs_from i names nodes)
unfolding fill_macs_from
fill_macs_from-NoError i [] nodes = ok-NoError nodes
fill_macs_from-NoError i (name ∷ names) nodes =
    elim (Bool-cases (is_sr_type (get_node_type_via_name name))) [
      | inr f ↦ rw (fill_macs_from, f) (fill_macs_from-NoError (i + 1) names nodes)
      | inl t ↦
          rw (fill_macs_from, t)
            (bind-NoError _ _ (as_default-NoError (derive_chassis_mac i)) (λ mac.
              bind-NoError _ _ (set_node_mac-NoError name (mac_string mac) nodes)
                (λ next. fill_macs_from-NoError (i + 1) names next)))
    ]
