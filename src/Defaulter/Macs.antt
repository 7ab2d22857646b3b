-- ===== src/Defaulter/Macs.antt =====
-- The MAC addresses and the nodes that the first step of `Default` adds.
use knl.Common.{
  All, All-split, All-append, Result, panic, inl, inr, ◌⊎◌, ◌≢◌, Option-cases, ok_inj, ℕ, zero, suc,
  ◌+◌, ◌%◌, ◌^◌, ◌<◌, ◌≡◌, refl, sym, ap, ◌∙◌, String, Option, none, some, List, [], ◌∷◌, ◌++◌,
  arith, Map, ok, length, get_elem?, get_elem?_lt, length-append,
}
use knl.Mac.{HardwareAddr, base_mac_addr, derive_mac, mac_string}
use knl.Mac.Derive.{IsMac48, mac_value, derive_mac_value, derive_mac_inj}
use knl.Mac.Print.{mac_string_inj}
use knl.Api.{Connector, Link, OneOfSystem}
use knl.Chassis.{set_default_generic}
use knl.Defaulter.Nodes.{add_node, default_connectors, default_links, DefaultError}

abbrev base_IsMac48 : IsMac48 base_mac_addr
base_IsMac48 = omega arith

-- the address that the `k`-th connector is given, as text
unfoldable pub derived : ℕ → String
derived k = mac_string (derive_mac_value base_mac_addr k base_IsMac48).0

derive-derived :
    (k : ℕ)
    → (m : HardwareAddr) × (derive_mac base_mac_addr k ≡ ok m)
      × (mac_string m ≡ derived k)
      × IsMac48 m
      × (mac_value m ≡ (mac_value base_mac_addr + k) % 2 ^ 48)
unfolding derived
derive-derived k =
    let (m, e, h, v) = derive_mac_value base_mac_addr k base_IsMac48 in (m, e, refl, h, v)

derived_inj : (i j : ℕ) → i < 2 ^ 48 → j < 2 ^ 48 → derived i ≡ derived j → i ≡ j
derived_inj i j hi hj e =
    let (m, em, tm, vm, _) = derive-derived i in
    let (n, en, tn, vn, _) = derive-derived j in
    let same : m ≡ n = mac_string_inj m n vm vn (tm ∙ e ∙ sym tn) in
    derive_mac_inj base_mac_addr i j base_IsMac48 hi hj (em ∙ ap ok same ∙ sym en)

-- `c` with the address of the `k`-th connector, unless it has one
abbrev pub with_derived : ℕ → Connector → Connector
with_derived k c = record c { mac = set_default_generic c.mac (derived k) }

abbrev pub number_connectors : ℕ → List Connector → List Connector
number_connectors offset [] = []
number_connectors offset (c ∷ cs) = with_derived (offset + 1) c ∷ number_connectors (offset + 1) cs

abbrev pub number_links : ℕ → Map Link → Map Link
number_links offset [] = []
number_links offset ((name, link) ∷ links) =
    (name, record { connectors = number_connectors offset link.connectors })
    ∷ number_links (offset + length link.connectors) links

abbrev pub connectors_of : Map Link → List Connector
connectors_of [] = []
connectors_of ((name, link) ∷ links) = link.connectors ++ connectors_of links

abbrev pub add_named : Option String → Map OneOfSystem → Map OneOfSystem
add_named none nodes = nodes
add_named (some name) nodes = add_node name nodes

abbrev pub add_nodes : List Connector → Map OneOfSystem → Map OneOfSystem
add_nodes [] nodes = nodes
add_nodes (c ∷ cs) nodes = add_nodes cs (add_named c.node_name nodes)

-- the connector has a node's name, which is not a nil pointer
abbrev pub IsNamed : Connector → Type 0
IsNamed c = c.node_name ≢ none

-- a loop that ends only if all the connectors are named, and otherwise panics
abbrev pub Ends : {A : Type 0} → List Connector → Result DefaultError A → A → Type 0
Ends cs run r = (All IsNamed cs × (run ≡ ok r)) ⊎ ((All IsNamed cs → ⊥) × (run ≡ panic))

default_connectors-Ends :
    (offset : ℕ) (nodes : Map OneOfSystem) (cs : List Connector)
    → Ends cs
        (default_connectors offset nodes cs)
        (offset + length cs, add_nodes cs nodes, number_connectors offset cs)
unfolding default_connectors
default_connectors-Ends offset nodes [] = inl (tt, ground arith)
default_connectors-Ends offset nodes (c ∷ cs) = elim (Option-cases c.node_name) [
  | inl gone ↦ inr (λ (named, _). named gone, rw (default_connectors, gone) refl)
  | inr (name, given) ↦
      let (m, e, t, _, _) = derive-derived (offset + 1) in
      let n : offset + 1 + length cs ≡ offset + suc (length cs) = omega arith in
      elim (default_connectors-Ends (offset + 1) (add_node name nodes) cs) [
        | inl (named, h) ↦ inl (
          (λ gone. ground (arith, given, gone), named),
          rw (default_connectors, given, e, h, t, n) refl,
        )
        | inr (unnamed, h) ↦
            inr (λ (_, named). unnamed named, rw (default_connectors, given, e, h) refl)
      ]
]

add_nodes-append :
    (cs ds : List Connector) (nodes : Map OneOfSystem)
    → add_nodes (cs ++ ds) nodes ≡ add_nodes ds (add_nodes cs nodes)
add_nodes-append [] ds nodes = refl
add_nodes-append (c ∷ cs) ds nodes = add_nodes-append cs ds (add_named c.node_name nodes)

number_connectors-append :
    (offset : ℕ) (cs ds : List Connector)
    → number_connectors offset (cs ++ ds)
      ≡ number_connectors offset cs ++ number_connectors (offset + length cs) ds
number_connectors-append offset [] ds = ground arith
number_connectors-append offset (c ∷ cs) ds =
    let n : offset + 1 + length cs ≡ offset + suc (length cs) = omega arith in
    rw (number_connectors-append (offset + 1) cs ds, n)

pub default_links-Ends :
    (offset : ℕ) (nodes : Map OneOfSystem) (links : Map Link)
    → Ends (connectors_of links) (default_links offset nodes links) (
      offset + length (connectors_of links),
      add_nodes (connectors_of links) nodes,
      number_links offset links,
    )
unfolding default_links
default_links-Ends offset nodes [] = inl (tt, ground arith)
default_links-Ends offset nodes ((name, link) ∷ links) =
    let cs : List Connector = link.connectors in
    let n : offset + length cs + length (connectors_of links)
        ≡ offset + length (cs ++ connectors_of links) =
      omega (arith, length-append cs (connectors_of links)) in
    elim (default_connectors-Ends offset nodes cs) [
      | inr (unnamed, h) ↦ inr (
        λ named. unnamed (All-split IsNamed cs (connectors_of links) named).0,
        rw (default_links, h) refl,
      )
      | inl (named, h) ↦ elim (default_links-Ends (offset + length cs) (add_nodes cs nodes) links) [
        | inr (unnamed, k) ↦ inr (
          λ all. unnamed (All-split IsNamed cs (connectors_of links) all).1,
          rw (default_links, h, k) refl,
        )
        | inl (more, k) ↦ inl (
          All-append IsNamed cs (connectors_of links) named more,
          rw (default_links, h, k, n, add_nodes-append cs (connectors_of links) nodes) refl,
        )
      ]
    ]

-- what a run that ends has done
pub default_links-eq :
    (nodes : Map OneOfSystem) (links : Map Link) (r : ℕ × Map OneOfSystem × Map Link)
    → default_links 0 nodes links ≡ ok r
    → All IsNamed (connectors_of links)
      × (r ≡ (
        0 + length (connectors_of links),
        add_nodes (connectors_of links) nodes,
        number_links 0 links,
      ))
default_links-eq nodes links r h = elim (default_links-Ends 0 nodes links) [
  | inl (named, e) ↦ (named, ok_inj (sym h ∙ e))
  | inr (_, e) ↦ absurd (ground (arith, h, e))
]

pub connectors_of-number_links :
    (offset : ℕ) (links : Map Link)
    → connectors_of (number_links offset links) ≡ number_connectors offset (connectors_of links)
connectors_of-number_links offset [] = refl
connectors_of-number_links offset ((name, link) ∷ links) = rw (
  number_connectors-append offset link.connectors (connectors_of links),
  connectors_of-number_links (offset + length link.connectors) links,
)

number_connectors-at :
    (offset i : ℕ) (cs : List Connector) (c : Connector)
    → get_elem? (number_connectors offset cs) i ≡ some c
    → (given : Connector) × (get_elem? cs i ≡ some given)
      × (c ≡ with_derived (offset + (i + 1)) given)
number_connectors-at offset i [] c e = cc
number_connectors-at offset zero (d ∷ cs) c e = (d, refl, ground arith)
number_connectors-at offset (suc i) (d ∷ cs) c e =
    let (given, found, same) = number_connectors-at (offset + 1) i cs c e in
    let n : offset + 1 + (i + 1) ≡ offset + (suc i + 1) = omega arith in
    (given, found, rw (← n) same)

-- the `i`-th connector of the links, which `Default` counts through
abbrev pub connector_at : Map Link → ℕ → Option Connector
connector_at links i = get_elem? (connectors_of links) i

number_links-at :
    (links : Map Link) (i : ℕ) (c : Connector)
    → connector_at (number_links 0 links) i ≡ some c
    → (given : Connector) × (connector_at links i ≡ some given) × (c ≡ with_derived (i + 1) given)
number_links-at links i c e =
    let (given, found, same) =
      number_connectors-at 0 i (connectors_of links) c
        (rw (← connectors_of-number_links 0 links) e) in
    let n : 0 + (i + 1) ≡ i + 1 = omega arith in (given, found, rw (← n) same)

-- In a lab of fewer than 2^48 connectors, two connectors that were given no MAC address never get the
-- same one.
pub default_links_distinct :
    (nodes nodes' : Map OneOfSystem) (links links' : Map Link) (end i j : ℕ)
    (c d given_c given_d : Connector)
    → length (connectors_of links) < 2 ^ 48
    → default_links 0 nodes links ≡ ok (end, nodes', links')
    → connector_at links i ≡ some given_c
    → connector_at links j ≡ some given_d
    → given_c.mac ≡ none
    → given_d.mac ≡ none
    → connector_at links' i ≡ some c
    → connector_at links' j ≡ some d
    → c.mac ≡ d.mac
    → i ≡ j
default_links_distinct nodes nodes' links links' end i j c d given_c given_d small ran gi gj ni nj
      ci cj same =
    let numbered : links' ≡ number_links 0 links =
      ap (λ r. r.2) (default_links-eq nodes links _ ran).1 in
    let (a, found_a, is_a) = number_links-at links i c (rw (← numbered) ci) in
    let (b, found_b, is_b) = number_links-at links j d (rw (← numbered) cj) in
    let texts : derived (i + 1) ≡ derived (j + 1) = ground arith in
    let i_small = get_elem?_lt (connectors_of links) i gi in
    let j_small = get_elem?_lt (connectors_of links) j gj in
    let e : i + 1 ≡ j + 1 = derived_inj (i + 1) (j + 1) (omega arith) (omega arith) texts in
    omega arith
