-- ===== src/Defaulter/Errors.antt =====
-- The only error of `Default`.
use knl.Common.{
  get_elem?, ℕ, suc, ◌≡◌, ◌≢◌, refl, ◌⊎◌, inl, inr, String, Option, none, some, Option-cases, [],
  ◌∷◌, arith, Map, lookup, Result, ok, err, panic, ◌>>=◌, >>=-eq-ok, Result-cases, All,
}
use knl.Api.{LabSpec, OneOfSystem, System, Store}
use knl.Api.OneOf.{get_system, assign_system, get_new_system_via_name}
use knl.LoadDef.{LoadError, load_def, load_nodes}
use knl.Defaulter.{default_lab, lift_load}
use knl.Defaulter.Nodes.{DefaultError, underivable, add_cpms, type_node, type_nodes}
use knl.Defaulter.Macs.{add_nodes, connectors_of, number_links, default_links-Ends}
use knl.Defaulter.Slots.{fill_macs, get_sorted_key_slice}
use knl.Defaulter.NoError.{
  NoError, ok-NoError, bind-NoError, fill_nodes-NoError, fill_ports-NoError, fill_macs_from-NoError,
}

-- every node has a system
abbrev HaveSystems : Map OneOfSystem → Type 0
HaveSystems nodes = All (λ entry. get_system entry.1 ≢ none) nodes

get_system-assign_system :
    (s : System) (node : OneOfSystem) → get_system (assign_system s node) ≢ none
unfolding get_system assign_system
get_system-assign_system (System.vsim s) node h = ground (arith, h)
get_system-assign_system _ node h = ground (arith, h)

type_node-HasSystem :
    (name : String) (node typed : OneOfSystem)
    → type_node name node ≡ ok typed
    → get_system typed ≢ none
unfolding type_node
type_node-HasSystem name node typed h gone = elim (Option-cases (get_system node)) [
  | inr (s, e) ↦
      let same : node ≡ typed = ground (arith, e, h) in ground (arith, rw (← same) at gone, e)
  | inl e ↦ elim (Option-cases (get_new_system_via_name name)) [
    | inl g ↦ ground (arith, e, g, h)
    | inr (sys, g) ↦
        let same : assign_system sys node ≡ typed = ground (arith, e, g, h) in
        get_system-assign_system sys node (rw (← same) at gone)
  ]
]

type_nodes-HaveSystems :
    (nodes nodes' : Map OneOfSystem) → type_nodes nodes ≡ ok nodes' → HaveSystems nodes'
unfolding type_nodes
type_nodes-HaveSystems [] [] h = tt
type_nodes-HaveSystems [] (n ∷ ns) h = cc
type_nodes-HaveSystems ((name, node) ∷ nodes) nodes' h =
    let (typed, h1, h2) = >>=-eq-ok (type_node name node) _ h in
    let (rest, h3, h4) = >>=-eq-ok (type_nodes nodes) _ h2 in
    let same : (name, typed) ∷ rest ≡ nodes' = ground (arith, h4) in
    rw (← same) (type_node-HasSystem name node typed h1, type_nodes-HaveSystems nodes rest h3)

load_nodes-ne-err :
    (def : OneOfSystem) (nodes : Map OneOfSystem) (e : LoadError)
    → HaveSystems nodes
    → load_nodes def nodes ≢ err e
unfolding load_nodes
load_nodes-ne-err def [] e has h = cc
load_nodes-ne-err def ((name, node) ∷ nodes) e (has, more) h =
    elim (Option-cases (get_system node)) [
      | inl g ↦ has g
      | inr ((sys, field), g) ↦ elim (Result-cases (load_nodes def nodes)) [
        | inl (_, p) ↦ ground (arith, g, p, rw (load_nodes, g) at h)
        | inr (inl (x, p)) ↦ load_nodes-ne-err def nodes x more p
        | inr (inr p) ↦ ground (arith, g, p, rw (load_nodes, g) at h)
      ]
    ]

load_def-NoError :
    (def : Option OneOfSystem) (nodes : Map OneOfSystem)
    → HaveSystems nodes
    → NoError (lift_load (load_def def nodes))
unfolding load_def lift_load NoError
load_def-NoError (some def) nodes has e h = elim (Result-cases (load_nodes def nodes)) [
  | inl (_, p) ↦ ground (arith, p, h)
  | inr (inl (x, p)) ↦ load_nodes-ne-err def nodes x has p
  | inr (inr p) ↦ ground (arith, p, h)
]
load_def-NoError none [] has e h = cc
load_def-NoError none ((name, node) ∷ nodes) (has, _) e h = elim (Option-cases (get_system node)) [
  | inl g ↦ has g
  | inr g ↦ ground (arith, g.1, h)
]

bind-err :
    {A B : Type 0} (m : Result DefaultError A) (f : A → Result DefaultError B) (e : DefaultError)
    → (m >>= f) ≡ err e
    → (m ≡ err e) ⊎ ((a : A) × (m ≡ ok a) × (f a ≡ err e))
bind-err (ok a) f e h = inr (a, refl, h)
bind-err (err x) f e h = inl (ground (arith, h))
bind-err panic f e h = cc

-- one of the nodes has the name, and sets no system
abbrev pub IsUntyped : String → Map OneOfSystem → Type 0
IsUntyped name nodes =
    (i : ℕ) × (node : OneOfSystem) × (get_elem? nodes i ≡ some (name, node))
    × (get_system node ≡ none)

type_nodes-err :
    (nodes : Map OneOfSystem) (e : DefaultError)
    → type_nodes nodes ≡ err e
    → (name : String) × (e ≡ underivable name)
      × IsUntyped name nodes
      × (get_new_system_via_name name ≡ none)
unfolding type_nodes type_node lookup NoError
type_nodes-err [] e h = cc
type_nodes-err ((name, node) ∷ nodes) e h = elim (bind-err (type_node name node) _ e h) [
  | inl p ↦ elim (Option-cases (get_system node)) [
    | inr g ↦ absurd (ground (arith, g.1, p))
    | inl g ↦ elim (Option-cases (get_new_system_via_name name)) [
      | inr n ↦ absurd (ground (arith, g, n.1, p))
      | inl n ↦ (name, ground (arith, g, n, p), (0, node, refl, g), n)
    ]
  ]
  | inr (typed, _, h2) ↦ elim (bind-err (type_nodes nodes) _ e h2) [
    | inl p ↦
        let (found, same, (i, given, at, none_set), n) = type_nodes-err nodes e p in
        (found, same, (suc i, given, at, none_set), n)
    | inr (rest, _, h3) ↦ absurd (ok-NoError _ e h3)
  ]
]

-- `Default` returns an error only for a node that sets no system, with a name that no node type has. The
-- node is one that was given or that was added without a system, for a connector or as a CPM.
pub default_lab_error :
    (pointer_text : Option String → String) (def : Option OneOfSystem) (lab : LabSpec)
    (store : Store) (e : DefaultError)
    → default_lab pointer_text def lab store ≡ err e
    → let named : Map OneOfSystem = add_nodes (connectors_of lab.link_list) lab.node_list in
      (name : String) × (e ≡ underivable name)
      × IsUntyped name (add_cpms named named)
      × (get_new_system_via_name name ≡ none)
unfolding default_lab NoError fill_macs
default_lab_error pointer_text def lab store e h =
    let named : Map OneOfSystem = add_nodes (connectors_of lab.link_list) lab.node_list in
    elim (default_links-Ends 0 lab.node_list lab.link_list) [
      | inr (_, fails) ↦ absurd (ground (arith, fails, h))
      | inl (_, ends) ↦ elim (bind-err (type_nodes (add_cpms named named)) _ e (rw ends at h)) [
        | inl p ↦ type_nodes-err (add_cpms named named) e p
        | inr (typed, p, h1) ↦
            let has = type_nodes-HaveSystems (add_cpms named named) typed p in
            let rest =
              bind-NoError (lift_load (load_def def typed)) _ (load_def-NoError def typed has)
                (λ loaded.
                  bind-NoError _ _ (fill_nodes-NoError pointer_text loaded store) (λ (filled, s).
                    bind-NoError _ _ (fill_ports-NoError filled s (number_links 0 lab.link_list))
                      (λ ported.
                        bind-NoError _ _
                          (fill_macs_from-NoError 0 (get_sorted_key_slice filled) filled)
                          (λ done. ok-NoError _)))) in
            absurd (rest e h1)
      ]
    ]
