-- ===== src/Vm/Addresses.antt =====
-- The addresses that validation accepts, in the configuration of a general virtual machine.
use knl.Common.{
  Result-cases, Result, ok_inj, ◌⊎◌, ◌==◌, lookup, ◌≡◌, ◌≢◌, refl, sym, ap, ◌∙◌, inl, inr, arith, ℕ,
  ◌+◌, String, true, Bool-cases, Option, none, some, Option-cases, List, [], ◌∷◌, Map, ok,
  >>=-eq-ok, >>=-of-ok, All,
}
use mathlib.Core.Option.{some_inj}
use mathlib.Core.Path.{subst}
use knl.Api.{Connector, Link}
use knl.Chassis.{deref, is_empty}
use knl.Validate.Imports.{Parsers}
use knl.Validate.Links.{parse_route}
use knl.Validate.Whole.{IsUnicast, IsRoute, IsConnector}
use knl.Defaulter.Macs.{IsNamed}
use knl.Vm.General.{
  first_connector, cloud_init, ignition_nmgr, File, NicConfig, get_connector, must_parse_route,
  must_parse_prefixes, must_parse_routes, add_connector, address_lines, connection_file, configure,
  assign,
}

empty_nil : {A : Type 0} (l : List A) → is_empty l ≡ true → l ≡ []
empty_nil [] h = refl
empty_nil (x ∷ xs) h = cc

deref_given : {A : Type 0} (o : Option A) → o ≢ none → (a : A) × (deref {E = Unit} o ≡ ok a)
deref_given none h = absurd (h refl)
deref_given (some a) h = (a, refl)

-- what the loop for the node's connector finds
abbrev Found : Result Unit (Option Connector) → Type 0
Found r = (r ≡ ok none) ⊎ ((c : Connector) × (r ≡ ok (some c)))

first_connector-Found :
    (node : String) (cs : List Connector) → All IsNamed cs → Found (first_connector node cs)
unfolding first_connector
first_connector-Found node [] h = inl refl
first_connector-Found node (c ∷ cs) (named, h) = elim (Option-cases c.node_name) [
  | inl gone ↦ absurd (named gone)
  | inr (name, e) ↦ elim (Bool-cases (name == node)) [
    | inl t ↦ inr (c, rw (first_connector, e, t) refl)
    | inr f ↦ rw (first_connector, e, f) (first_connector-Found node cs h)
  ]
]

lookup-All :
    (P : Link → Type 0) (key : String) (links : Map Link) (l : Link)
    → lookup key links ≡ some l
    → All (λ entry. P entry.1) links
    → P l
unfolding lookup
lookup-All P key [] l e h = cc
lookup-All P key ((k, m) ∷ links) l e (p, h) = elim (Bool-cases (k == key)) [
  | inl t ↦ let same : m ≡ l = ground (arith, t, e) in rw (← same) p
  | inr f ↦ lookup-All P key links l (rw f at e) h
]

get_connector-Found :
    (all : Map Link) (node link : String)
    → All (λ entry. All IsNamed entry.1.connectors) all
    → Found (get_connector all node link)
unfolding get_connector
get_connector-Found all node link named = elim (Option-cases (lookup link all)) [
  | inl e ↦ rw (get_connector, e) (inl refl)
  | inr (l, e) ↦
      rw (get_connector, e)
        (first_connector-Found node l.connectors
          (lookup-All (λ l. All IsNamed l.connectors) link all l e named))
]

module _ (P : Parsers) (addr_string : P.Addr → String) (prefix_string : P.Prefix → String)
    (encode_data_url : String → String) where
  prefixes_parse :
      (addrs : List String)
      → All (IsUnicast P) addrs
      → (ps : List P.Prefix) × (must_parse_prefixes P addr_string prefix_string encode_data_url
            addrs
          ≡ ok ps)
  unfolding must_parse_prefixes IsUnicast
  prefixes_parse [] h = ([], refl)
  prefixes_parse (addr ∷ addrs) ((p, (e, good)), more) =
      let (ps, k) = prefixes_parse addrs more in
      (p ∷ ps, >>=-of-ok _ (ap deref e) (>>=-of-ok _ k refl))

  must_parse_route_of :
      (route : String) (r : P.Prefix × P.Addr)
      → parse_route P route ≡ ok r
      → must_parse_route P addr_string prefix_string encode_data_url route ≡ ok r
  unfolding must_parse_route
  must_parse_route_of route r e = rw (must_parse_route, e) refl

  routes_parse :
      (routes : List String)
      → All (IsRoute P) routes
      → (rs : List (P.Prefix × P.Addr)) × (must_parse_routes P addr_string prefix_string
            encode_data_url routes
          ≡ ok rs)
  unfolding must_parse_routes must_parse_route IsRoute
  routes_parse [] h = ([], refl)
  routes_parse (route ∷ routes) ((r, e), more) =
      let (rs, k) = routes_parse routes more in
      (r ∷ rs, >>=-of-ok _ (must_parse_route_of route r e) (>>=-of-ok _ k refl))

  configure_valid :
      (i : ℕ) (c : Connector)
      (start : Map (NicConfig P addr_string prefix_string encode_data_url) × List File)
      → IsConnector P c
      → c.mac ≢ none
      → (next : Map (NicConfig P addr_string prefix_string encode_data_url) × List File)
        × (configure P addr_string prefix_string encode_data_url cloud_init i c start ≡ ok next)
  unfolding configure add_connector IsConnector
  configure_valid i c start (name, (addrs, (routes, m))) given =
      let (mac, h1) = deref_given c.mac given in
      let (ps, h2) = prefixes_parse c.addrs addrs in
      let (rs, h3) = routes_parse c.routes routes in
      (_, >>=-of-ok _ (>>=-of-ok _ h1 (>>=-of-ok _ h2 (>>=-of-ok _ h3 refl))) refl)

  -- The configuration of a general virtual machine by cloud-init is built, without a panic, when each
  -- connector found for the node's links is one that validation accepts and has a MAC address, and each
  -- connector of the lab has a node's name.
  pub assign_cloud_init :
      (all : Map Link) (node : String) (i : ℕ) (links : List String)
      (start : Map (NicConfig P addr_string prefix_string encode_data_url) × List File)
      → All
          (λ link.
            (c : Connector)
            → get_connector all node link ≡ ok (some c)
            → IsConnector P c × (c.mac ≢ none))
          links
      → All (λ entry. All IsNamed entry.1.connectors) all
      → (r : Map (NicConfig P addr_string prefix_string encode_data_url) × List File) × (assign P
            addr_string prefix_string encode_data_url cloud_init all node i links start
          ≡ ok r)
  unfolding assign configure add_connector IsConnector
  assign_cloud_init all node i [] start h named = (start, refl)
  assign_cloud_init all node i (link ∷ links) start (h, more) named =
      elim (get_connector-Found all node link named) [
        | inl e ↦ rw (assign, e) (assign_cloud_init all node i links start more named)
        | inr (c, e) ↦ elim (Bool-cases (is_empty c.addrs)) [
          | inl t ↦ rw (assign, e, t) (assign_cloud_init all node (i + 1) links start more named)
          | inr f ↦
              let (valid, given) = h c e in
              let (next, k) = configure_valid (i + 1) c start valid given in
              let (r, done) = assign_cloud_init all node (i + 1) links next more named in
              (r, rw (assign, e, f) (>>=-of-ok _ k done))
        ]
      ]

  lines_parse :
      (i : ℕ) (texts : List String) (lines r : String × String)
      → address_lines P addr_string prefix_string encode_data_url i texts lines ≡ ok r
      → All (λ text. P.parse_addr text ≢ none) texts
  unfolding address_lines
  lines_parse i [] lines r h = tt
  lines_parse i (text ∷ texts) lines r h =
      let (addr, e, k) = >>=-eq-ok (deref (P.parse_addr text)) _ h in
      (λ gone. ground (arith, e, gone), lines_parse (i + 1) texts _ r k)

  none_unicast :
      ((text : String) (p : P.Prefix) → P.parse_prefix text ≡ some p → P.parse_addr text ≡ none)
      → (addrs : List String) → All (IsUnicast P) addrs
      → All (λ text. P.parse_addr text ≢ none) addrs
      → is_empty addrs ≡ true
  unfolding IsUnicast
  none_unicast apart [] h k = refl
  none_unicast apart (addr ∷ addrs) ((p, (e, good)), more) (given, rest) =
      absurd (given (apart addr p e))

  -- With ignition, the configuration is built only if no connector that validation accepts has an
  -- address: validation asks for prefixes, and the builder reads plain addresses. No text is both.
  pub assign_ignition :
      (apart : (text : String) (p : P.Prefix)
        → P.parse_prefix text ≡ some p
        → P.parse_addr text ≡ none)
      (all : Map Link) (node : String) (i : ℕ) (links : List String)
      (start r : Map (NicConfig P addr_string prefix_string encode_data_url) × List File)
      → assign P addr_string prefix_string encode_data_url ignition_nmgr all node i links start
        ≡ ok r
      → All
          (λ link.
            (c : Connector)
            → get_connector all node link ≡ ok (some c)
            → IsConnector P c
            → c.addrs ≡ [])
          links
  unfolding assign configure connection_file IsConnector IsUnicast
  assign_ignition apart all node i [] start r h = tt
  assign_ignition apart all node i (link ∷ links) start r h =
      elim (Result-cases (get_connector all node link)) [
        | inr (inl (_, e)) ↦ absurd (ground (arith, e, h))
        | inr (inr e) ↦ absurd (ground (arith, e, h))
        | inl (none, e) ↦ (
          λ c e' valid. ground (arith, e, e'),
          assign_ignition apart all node i links start r (rw (assign, e) at h),
        )
        | inl (some c, e) ↦ elim (Bool-cases (is_empty c.addrs)) [
          | inl t ↦ (
            λ c' e' valid.
                subst (λ d. d.addrs ≡ []) (some_inj.0 (ok_inj (sym e ∙ e'))) (empty_nil c.addrs t),
            assign_ignition apart all node (i + 1) links start r (rw (assign, e, t) at h),
          )
          | inr f ↦
              let (next, h1, k1) =
                >>=-eq-ok
                  (configure P addr_string prefix_string encode_data_url ignition_nmgr (i + 1) c
                    start)
                  _ (rw (assign, e, f) at h) in
              let (file, h2, k2) =
                >>=-eq-ok (connection_file P addr_string prefix_string encode_data_url (i + 1) c) _
                  h1 in
              let (lines, h3, k3) =
                >>=-eq-ok
                  (address_lines P addr_string prefix_string encode_data_url 0 c.addrs ("", "")) _
                  h2 in
              (
                λ c' e' valid.
                    let same = some_inj.0 (ok_inj (sym e ∙ e')) in
                    absurd (
                      ground (
                        arith,
                        f,
                        none_unicast apart c.addrs (subst (IsConnector P) (sym same) valid).1.0
                            (lines_parse 0 c.addrs ("", "") lines h3),
                      )),
                assign_ignition apart all node (i + 1) links next r k1,
              )
        ]
      ]
