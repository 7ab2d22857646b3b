-- ===== src/Vm/Laws.antt =====
-- The networks of an instance of an SR VM and their interfaces.
use knl.Common.{
  ◌≡◌, ◌≢◌, refl, sym, ap, ◌∙◌, inl, inr, arith, String, ◌==◌, Bool, true, false, Bool-cases,
  if◌then◌else◌, ℕ, Option, none, some, List, [], ◌∷◌, ◌++◌, map, Map, lookup, ok, err, panic,
  >>=-eq-ok, ok_inj, All, All-append,
}
use knl.Names.{is_cpm}
use knl.Api.{Quantity, SrCard, Srvm, KnlConfigSpec}
use knl.Chassis.{deref}
use knl.Defaulter.Slots.{get_sorted_key_slice}
use knl.Lans.Ensure.{Spokes}
use knl.Vm.{Meta, Network, Nic, Vmi}
use knl.Vm.Spokes.{port_of, add_ports, add_link_ports, port_links, or_nil}
use knl.Vm.Build.{
  both, fabric, net, card_vmi, get_vmi, Access, annotations_of, memory_request, main_volume,
}

abbrev pub network_names : List Network → List String
network_names = map (λ n. n.name)

abbrev pub nic_names : List Nic → List String
nic_names = map (λ n. n.name)

-- the networks and the interfaces have one name each, in one order
abbrev Paired : List Network × List Nic → Type 0
Paired (networks, nics) = network_names networks ≡ nic_names nics

abbrev Pinned : Bool → Option Quantity → Option String → Type 0
Pinned true requested hugepages = (requested ≡ none) × (hugepages ≢ none)
Pinned false requested hugepages = (requested ≢ none) × (hugepages ≡ none)

-- the spokes whose connector's port is the slot, in order
unfoldable pub at_slot : Spokes → String → List String → List String
unfolding port_of
at_slot spokes slot [] = []
at_slot spokes slot (spoke ∷ more) = elim (port_of spokes spoke) [
  | ok port ↦ if port == slot then spoke ∷ at_slot spokes slot more else at_slot spokes slot more
  | err _ ↦ at_slot spokes slot more
  | panic ↦ at_slot spokes slot more
]

-- the spokes of a node, link by link
unfoldable pub node_spokes : Map (List String) → List String → List String
unfolding lookup
node_spokes of_node [] = []
node_spokes of_node (link ∷ links) = or_nil (lookup link of_node) ++ node_spokes of_node links

unfoldable pub spokes_of : Spokes → String → List String
unfolding node_spokes get_sorted_key_slice lookup
spokes_of spokes chassis =
    let of_node = or_nil (lookup chassis spokes.spoke_map) in
    node_spokes of_node (get_sorted_key_slice of_node)

-- An instance has one interface for each network, of its name and in its order; its CPUs are
-- pinned if and only if its memory is huge pages, and if and only if no other memory is requested.
unfoldable pub IsConsistent : Vmi → Type 0
IsConsistent vmi =
    (network_names vmi.networks ≡ nic_names vmi.interfaces)
    × Pinned vmi.dedicated_cpu_placement vmi.requested_memory vmi.hugepages

map-append : {A B : Type 0} (f : A → B) (xs ys : List A) → map f (xs ++ ys) ≡ map f xs ++ map f ys
map-append f [] ys = refl
map-append f (x ∷ xs) ys = ap (λ l. f x ∷ l) (map-append f xs ys)

at_slot-append :
    (spokes : Spokes) (slot : String) (xs ys : List String)
    → at_slot spokes slot (xs ++ ys) ≡ at_slot spokes slot xs ++ at_slot spokes slot ys
unfolding at_slot
at_slot-append spokes slot [] ys = refl
at_slot-append spokes slot (x ∷ xs) ys = ground (arith, at_slot-append spokes slot xs ys)

both-Paired : (p q : List Network × List Nic) → Paired p → Paired q → Paired (both p q)
both-Paired (ns, is) (ms, js) h k =
    map-append _ ns ms ∙ (λ i. h i ++ k i) ∙ sym (map-append _ is js)

pinned :
    (half : Quantity → Quantity) (dedicated : Bool) (memory requested : Option Quantity)
    → memory_request half dedicated memory ≡ ok requested
    → Pinned dedicated requested (if dedicated then some "1Gi" else none)
unfolding memory_request
pinned half true memory requested h = (sym (ok_inj h), λ e. cc)
pinned half false memory requested h =
    let (given, e, k) = >>=-eq-ok (deref memory) _ h in (λ gone. ground (arith, k, gone), refl)

fabric-Paired :
    (lab chassis : String) (cpm : Bool) (sysinfo : String) → Paired (fabric lab chassis cpm sysinfo)
unfolding fabric
fabric-Paired lab chassis cpm sysinfo = ground arith

module _ (nad_name : String → String → String) (lab slot : String) (spokes : Spokes) where
  -- what the ports' loop gives for the spokes of the list
  abbrev Covers : List String → List Network × List Nic → Type 0
  Covers names (networks, nics) =
      (network_names networks ≡ at_slot spokes slot names)
      × ((nic_names nics ≡ at_slot spokes slot names)
          × All (λ spoke. (port : String) × (port_of spokes spoke ≡ ok port)) names)

  add_ports-Covers :
      (names : List String) (r : List Network × List Nic)
      → add_ports nad_name lab slot spokes names ≡ ok r
      → Covers names r
  unfolding add_ports at_slot
  add_ports-Covers [] r h = rw (sym (ok_inj h)) (refl, (refl, tt))
  add_ports-Covers (spoke ∷ more) r h =
      let (port, h1, k1) = >>=-eq-ok (port_of spokes spoke) _ h in
      let (rest, h2, k2) = >>=-eq-ok (add_ports nad_name lab slot spokes more) _ k1 in
      let (c, (d, all)) = add_ports-Covers more rest h2 in
      elim (Bool-cases (port == slot)) [
        | inl t ↦
            rw (at_slot, h1, t)
              (rw (sym (ok_inj (rw t at k2)))
                (ap (λ l. spoke ∷ l) c, (ap (λ l. spoke ∷ l) d, ((port, refl), all))))
        | inr f ↦ rw (at_slot, h1, f) (rw (sym (ok_inj (rw f at k2))) (c, (d, ((port, refl), all))))
      ]

  add_link_ports-Covers :
      (of_node : Map (List String)) (links : List String) (r : List Network × List Nic)
      → add_link_ports nad_name lab slot spokes of_node links ≡ ok r
      → Covers (node_spokes of_node links) r
  unfolding add_link_ports node_spokes at_slot
  add_link_ports-Covers of_node [] r h = rw (sym (ok_inj h)) (refl, (refl, tt))
  add_link_ports-Covers of_node (link ∷ links) r h =
      let (here, h1, k1) =
        >>=-eq-ok (add_ports nad_name lab slot spokes (or_nil (lookup link of_node))) _ h in
      let (rest, h2, k2) = >>=-eq-ok (add_link_ports nad_name lab slot spokes of_node links) _ k1 in
      let (c, (d, all)) = add_ports-Covers (or_nil (lookup link of_node)) here h1 in
      let (c', (d', all')) = add_link_ports-Covers of_node links rest h2 in
      rw (sym (ok_inj k2)) (
        map-append _ here.0 rest.0
            ∙ (λ i. c i ++ c' i)
            ∙ sym (
                at_slot-append spokes slot (or_nil (lookup link of_node))
                  (node_spokes of_node links)),
        (
          map-append _ here.1 rest.1
              ∙ (λ i. d i ++ d' i)
              ∙ sym (
                  at_slot-append spokes slot (or_nil (lookup link of_node))
                    (node_spokes of_node links)),
          All-append _ _ _ all all',
        ),
      )

  -- The ports of a card: when the loop ends, there is one network and one interface for each spoke of the
  -- node whose connector's port is the card's slot, of the spoke's name, by sorted link names,
  -- and for no other spoke; and each spoke of the node has a connector with a port.
  pub port_links-at_slot :
      (chassis : String) (networks : List Network) (nics : List Nic)
      → port_links nad_name lab slot spokes chassis ≡ ok (networks, nics)
      → (network_names networks ≡ at_slot spokes slot (spokes_of spokes chassis))
        × ((nic_names nics ≡ at_slot spokes slot (spokes_of spokes chassis))
            × All
                (λ spoke. (port : String) × (port_of spokes spoke ≡ ok port))
                (spokes_of spokes chassis))
  unfolding port_links spokes_of
  port_links-at_slot chassis networks nics h =
      add_link_ports-Covers (or_nil (lookup chassis spokes.spoke_map)) _ (networks, nics) h

module _ (nad_name : String → String → String) (json : Map String → String)
    (cores_of : Quantity → ℕ) (half : Quantity → Quantity) (gconf : KnlConfigSpec) where
  net-Paired :
      (spokes : Spokes) (lab chassis slot : String) (card : SrCard) (sysinfo : String)
      (r : List Network × List Nic)
      → net nad_name json cores_of half gconf spokes lab chassis slot card sysinfo ≡ ok r
      → Paired r
  unfolding net
  net-Paired spokes lab chassis slot card sysinfo r h =
      let (ports, e, k) = >>=-eq-ok (deref card.listen_ports) _ h in
      let (links, e', k') = >>=-eq-ok (port_links nad_name lab slot spokes chassis) _ k in
      let (c, (d, all)) = port_links-at_slot nad_name lab slot spokes chassis links.0 links.1 e' in
      let own = fabric lab chassis (is_cpm slot) sysinfo in
      rw (sym (ok_inj k')) (
        ap (λ l. "pod-net" ∷ l)
          (both-Paired own links (fabric-Paired lab chassis (is_cpm slot) sysinfo) (c ∙ sym d)))

  card_vmi-IsConsistent :
      (spokes : Spokes) (lab : String) (srvm : Srvm) (card : SrCard) (base chassis slot : String)
      (meta : Meta) (system : String) (vmi : Vmi)
      → card_vmi nad_name json cores_of half gconf spokes lab srvm card base chassis slot meta
          system
        ≡ ok vmi
      → IsConsistent vmi
  unfolding card_vmi IsConsistent
  card_vmi-IsConsistent spokes lab srvm card base chassis slot meta system vmi h =
      let (dedicated, h1, k1) = >>=-eq-ok (deref srvm.dedicate) _ h in
      let (cpu, h2, k2) = >>=-eq-ok (deref card.req_cpu) _ k1 in
      let (requested, h3, k3) = >>=-eq-ok (memory_request half dedicated card.req_memory) _ k2 in
      let (volume, h4, k4) = >>=-eq-ok (main_volume gconf srvm.image lab chassis slot) _ k3 in
      let (r, h5, k5) =
        >>=-eq-ok (net nad_name json cores_of half gconf spokes lab chassis slot card base) _ k4 in
      rw (sym (ok_inj k5)) (
        net-Paired spokes lab chassis slot card base r h5,
        pinned half dedicated card.req_memory requested h3,
      )

  -- An instance that `getVMI` returns has one interface for each network, of its name and in its
  -- order; its CPUs are pinned if and only if it has huge pages, and if and only if it has no
  -- separate request of memory.
  pub get_vmi-IsConsistent :
      (spokes : Spokes) (lab ns : String) (srvm : Srvm) (cards : Map SrCard) (chassis slot : String)
      (access : Access) (vmi : Vmi)
      → get_vmi nad_name json cores_of half gconf spokes lab ns srvm cards chassis slot access
        ≡ ok vmi
      → IsConsistent vmi
  unfolding get_vmi
  get_vmi-IsConsistent spokes lab ns srvm cards chassis slot access vmi h =
      let (hw, h1, k1) = >>=-eq-ok (deref srvm.chassis) _ h in
      let (t, h2, k2) = >>=-eq-ok (deref hw.type) _ k1 in
      let (card, h3, k3) = >>=-eq-ok (deref (lookup slot cards)) _ k2 in
      let (base, h4, k4) = >>=-eq-ok (deref card.sys_info) _ k3 in
      let (annotations, h5, k5) = >>=-eq-ok (annotations_of json gconf lab chassis access _) _ k4 in
      card_vmi-IsConsistent spokes lab srvm card base chassis slot _ _ vmi k5
