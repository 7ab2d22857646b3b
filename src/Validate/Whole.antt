-- ===== src/Validate/Whole.antt =====
-- What validation accepts of a whole lab, and that it comes to an end with a result.
use knl.Common.{
  ◌≤◌, ◌≡◌, ◌≢◌, refl, sym, ◌↔◌, inl, inr, arith, String, eq_iff, true, false, Option, none, some,
  Option-cases, List, [], ◌∷◌, length, ltb, Map, Result, ok, err, panic, Result-cases, All,
  >>=-eq-ok, >>-iff, iff_trans, guard_iff,
}
use mathlib.Core.Option.{some_inj}
use mathlib.Core.Path.{subst}
use knl.Api.{Connector, Link, LabSpec, OneOfSystem, System, Store}
use knl.Api.OneOf.{validate, assign_system, empty_one_of}
use knl.Api.OneOf.Laws.{validate_iff, validate-only, get_system-only}
use knl.Chassis.{is_empty}
use knl.Validate.{wrap, validate_node, validate_nodes, validate_links, validate_lab, invalid_node}
use knl.Validate.Imports.{Parsers}
use knl.Validate.Links.{
  check_name, parse_route, check_addrs, check_routes, check_mac, validate_connector,
  validate_connectors, validate_link,
}
use knl.Validate.Accepted.{IsSystem, validate_system_iff}

nonempty_iff : {A : Type 0} (l : List A) → (is_empty l ≡ false) ↔ (l ≢ [])
nonempty_iff [] = (λ h. cc, λ h. absurd (h refl))
nonempty_iff (x ∷ xs) = (λ h e. cc, λ h. refl)

pub wrap_iff : {D E : Type 0} (f : D → E) (r : Result D Unit) → (wrap f r ≡ ok tt) ↔ (r ≡ ok tt)
wrap_iff f (ok a) = (λ h. refl, λ h. refl)
wrap_iff f (err e) = (λ h. cc, λ h. cc)
wrap_iff f panic = (λ h. cc, λ h. cc)

module _ (P : Parsers) where
  abbrev IsGood : P.Prefix → Type 0
  IsGood p = (P.is_valid_prefix p ≡ true) × (P.is_multicast (P.prefix_addr p) ≡ false)

  -- A unicast prefix.
  unfoldable pub IsUnicast : String → Type 0
  IsUnicast addr = (p : P.Prefix) × ((P.parse_prefix addr ≡ some p) × IsGood p)

  unfoldable pub IsRoute : String → Type 0
  IsRoute route = (r : P.Prefix × P.Addr) × (parse_route P route ≡ ok r)

  unfoldable pub IsMac : Option String → Type 0
  IsMac mac = (m : String) → mac ≡ some m → P.parse_mac m ≡ true

  unfoldable pub IsConnector : Connector → Type 0
  IsConnector c =
      ((name : String) × (c.node_name ≡ some name) × (name ≢ ""))
      × (All IsUnicast c.addrs × (All IsRoute c.routes × IsMac c.mac))

  unfoldable pub IsLink : Link → Type 0
  unfolding IsConnector
  IsLink link = (2 ≤ length link.connectors) × All IsConnector link.connectors

  -- A node sets exactly one system, which is in order.
  unfoldable pub IsNode : LabSpec → Store → String → OneOfSystem → Type 0
  IsNode lab store name node =
      (sys : System) × ((node ≡ assign_system sys empty_one_of) × IsSystem P lab store name sys)

  unfoldable pub IsLab : LabSpec → Store → Type 0
  unfolding IsNode IsLink
  IsLab lab store =
      (lab.node_list ≢ [])
      × (All (λ entry. IsNode lab store entry.0 entry.1) lab.node_list
          × All (λ entry. IsLink entry.1) lab.link_list)

  check_addrs_iff : (addrs : List String) → (check_addrs P addrs ≡ ok tt) ↔ All IsUnicast addrs
  unfolding check_addrs IsUnicast
  check_addrs_iff [] = (λ h. tt, λ h. refl)
  check_addrs_iff (addr ∷ addrs) = elim (Option-cases (P.parse_prefix addr)) [
    | inl e ↦ rw (check_addrs, e) (λ h. cc, λ ((p, (e', q)), more). cc)
    | inr (p, e) ↦
        rw (check_addrs, e)
          (iff_trans
            (guard_iff {P = IsGood p} _ _ (λ h. ground arith, λ h. ground (arith, h))
              (check_addrs_iff addrs))
            (
              λ (good, more). ((p, (refl, good)), more),
              λ ((p', (e', good)), more). (subst IsGood (sym (some_inj.0 e')) good, more),
            ))
  ]

  check_routes_iff : (routes : List String) → (check_routes P routes ≡ ok tt) ↔ All IsRoute routes
  unfolding check_routes IsRoute
  check_routes_iff [] = (λ h. tt, λ h. refl)
  check_routes_iff (route ∷ routes) =
      let (f, g) = check_routes_iff routes in
      elim (Result-cases (parse_route P route)) [
        | inl (r, e) ↦ rw (check_routes, e) (λ h. ((r, refl), f h), λ (h, more). g more)
        | inr (inl (x, e)) ↦ rw (check_routes, e) (λ h. cc, λ ((r, e'), more). cc)
        | inr (inr e) ↦ rw (check_routes, e) (λ h. cc, λ ((r, e'), more). cc)
      ]

  check_mac_iff : (mac : Option String) → (check_mac P mac ≡ ok tt) ↔ IsMac mac
  unfolding IsMac
  check_mac_iff none = (λ h m e. cc, λ h. refl)
  check_mac_iff (some mac) = (λ h m e. ground (arith, h, e), λ h. ground (arith, h mac refl))

  check_name_iff :
      (node : Option String)
      → (check_name P node ≡ ok tt) ↔ ((name : String) × (node ≡ some name) × (name ≢ ""))
  check_name_iff none = (λ h. cc, λ (name, e, _). cc)
  check_name_iff (some name) = (
    λ h. (name, refl, λ empty. ground (arith, h, empty, eq_iff name "")),
    λ (other, e, filled). ground (arith, filled, some_inj.0 e, eq_iff name ""),
  )

  validate_connector_iff : (c : Connector) → (validate_connector P c ≡ ok tt) ↔ IsConnector c
  unfolding validate_connector IsConnector
  validate_connector_iff c =
      >>-iff (check_name_iff c.node_name) (
        >>-iff (check_addrs_iff c.addrs) (>>-iff (check_routes_iff c.routes) (check_mac_iff c.mac)))

  validate_connectors_iff :
      (cs : List Connector) → (validate_connectors P cs ≡ ok tt) ↔ All IsConnector cs
  unfolding validate_connectors
  validate_connectors_iff [] = (λ h. tt, λ h. refl)
  validate_connectors_iff (c ∷ cs) = >>-iff (validate_connector_iff c) (validate_connectors_iff cs)

  validate_link_iff : (link : Link) → (validate_link P link ≡ ok tt) ↔ IsLink link
  unfolding validate_link IsLink
  validate_link_iff link =
      guard_iff (ltb (length link.connectors) 2) _ (λ h. ground arith, λ h. ground (arith, h))
        (validate_connectors_iff link.connectors)

  validate_links_iff :
      (links : Map Link) → (validate_links P links ≡ ok tt) ↔ All (λ entry. IsLink entry.1) links
  unfolding validate_links
  validate_links_iff [] = (λ h. tt, λ h. refl)
  validate_links_iff ((name, link) ∷ links) =
      >>-iff (iff_trans (wrap_iff _ _) (validate_link_iff link)) (validate_links_iff links)

  module _ (lab : LabSpec) (store : Store) where
    validate_node_iff :
        (name : String) (node : OneOfSystem)
        → (validate_node P lab store name node ≡ ok tt) ↔ IsNode lab store name node
    unfolding validate_node IsNode
    validate_node_iff name node = (
      λ h.
          let (_, valid, checked) = >>=-eq-ok (wrap (invalid_node name) (validate node)) _ h in
          let (sys, only, found) = (validate_iff node).0 ((wrap_iff _ _).0 valid) in
          (
            sys,
            (
              only,
              (validate_system_iff P lab store name sys).0 ((wrap_iff _ _).0 (rw found at checked)),
            ),
          ),
      λ (sys, (only, right)).
          rw (validate_node, only, validate-only sys, get_system-only sys)
            ((wrap_iff _ _).1 ((validate_system_iff P lab store name sys).1 right)),
    )

    validate_nodes_iff :
        (nodes : Map OneOfSystem)
        → (validate_nodes P lab store nodes ≡ ok tt)
          ↔ All (λ entry. IsNode lab store entry.0 entry.1) nodes
    unfolding validate_nodes
    validate_nodes_iff [] = (λ h. tt, λ h. refl)
    validate_nodes_iff ((name, node) ∷ nodes) =
        >>-iff (validate_node_iff name node) (validate_nodes_iff nodes)

    -- Validation accepts a lab if and only if it has a node, each node sets exactly one system
    -- with all that its type needs and a port of its hardware wherever a link gives one, and each link has
    -- two named ends or more, with well-formed addresses, routes and MAC addresses.
    pub validate_lab_iff : (validate_lab P lab store ≡ ok tt) ↔ IsLab lab store
    unfolding validate_lab IsLab
    validate_lab_iff =
        guard_iff _ _ (nonempty_iff lab.node_list)
          (>>-iff (validate_nodes_iff lab.node_list) (validate_links_iff lab.link_list))
