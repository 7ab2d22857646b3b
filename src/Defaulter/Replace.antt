-- ===== src/Defaulter/Replace.antt =====
-- The steps of `Default` that replace the system of a node put the new one in the place of the old.
use knl.Common.{
  ◌≡◌, refl, ◌⊎◌, inl, inr, Bool-cases, String, Option, some, [], ◌∷◌, ◌==◌, arith, Map, lookup,
  insert, ok, >>=-eq-ok, All,
}
use knl.Api.{OneOfSystem, System, Store}
use knl.Api.OneOf.{validate, get_system, assign_system, empty_one_of}
use knl.Api.OneOf.Laws.{validate_iff}
use knl.LoadDef.{fill_system}
use knl.Defaulter.Slots.{fill_default_val, fill_srvm_node, fill_srsim_node, set_chassis_mac}

-- every node has a property
abbrev pub Nodes : (OneOfSystem → Type 0) → Map OneOfSystem → Type 0
Nodes P nodes = All (λ entry. P entry.1) nodes

pub Nodes-insert :
    (P : OneOfSystem → Type 0) (name : String) (node : OneOfSystem) (nodes : Map OneOfSystem)
    → P node
    → Nodes P nodes
    → Nodes P (insert name node nodes)
unfolding insert
Nodes-insert P name node [] p h = (p, tt)
Nodes-insert P name node ((j, other) ∷ nodes) p (q, h) = elim (Bool-cases (j == name)) [
  | inl t ↦ rw t (p, h)
  | inr f ↦ rw f (q, Nodes-insert P name node nodes p h)
]

pub Nodes-lookup :
    (P : OneOfSystem → Type 0) (name : String) (node : OneOfSystem) (nodes : Map OneOfSystem)
    → lookup name nodes ≡ some node
    → Nodes P nodes
    → P node
unfolding lookup
Nodes-lookup P name node [] e h = cc
Nodes-lookup P name node ((j, other) ∷ nodes) e (q, h) = elim (Bool-cases (j == name)) [
  | inl t ↦ let same : other ≡ node = ground (arith, t, e) in rw (← same) q
  | inr f ↦ Nodes-lookup P name node nodes (rw f at e) h
]

-- one system is set
abbrev pub IsTyped : OneOfSystem → Type 0
IsTyped node = validate node ≡ ok tt

-- one system is set, or none
abbrev pub IsLoose : OneOfSystem → Type 0
IsLoose node = (node ≡ empty_one_of) ⊎ IsTyped node

-- the second system goes to the field of the first
pub Replaces : System → System → Type 0
unfolding assign_system
Replaces s t = assign_system t (assign_system s empty_one_of) ≡ assign_system t empty_one_of

pub only-IsTyped : (s : System) → IsTyped (assign_system s empty_one_of)
unfolding validate assign_system
only-IsTyped (System.vsim s) = refl
only-IsTyped _ = refl

-- a typed node stays typed when its system is replaced
pub assign-IsTyped :
    (node : OneOfSystem) (s t : System) (field : String)
    → IsTyped node
    → get_system node ≡ some (s, field)
    → Replaces s t
    → IsTyped (assign_system t node)
unfolding Replaces
assign-IsTyped node s t field typed found r =
    let (to, of) = validate_iff node in
    let (u, is_u, named) = to typed in
    let same : u ≡ s = ground (arith, named, found) in rw (is_u, same, r) (only-IsTyped t)

pub fill_system-Replaces : (s : System) (def : OneOfSystem) → Replaces s (fill_system s def)
unfolding Replaces fill_system assign_system
fill_system-Replaces (System.vsim s) def = refl
fill_system-Replaces _ def = refl

pub fill_default_val-Replaces :
    (pointer_text : Option String → String) (s t : System) (store store' : Store)
    → fill_default_val pointer_text s store ≡ ok (t, store')
    → Replaces s t
unfolding Replaces fill_default_val assign_system
fill_default_val-Replaces p (System.vsim s) t store store' h =
    let (s', _, e) = >>=-eq-ok (fill_srvm_node p "vsim" s store) _ h in ground (arith, e)
fill_default_val-Replaces p (System.vsri s) t store store' h =
    let (s', _, e) = >>=-eq-ok (fill_srvm_node p "vsri" s store) _ h in ground (arith, e)
fill_default_val-Replaces p (System.magc s) t store store' h =
    let (s', _, e) = >>=-eq-ok (fill_srvm_node p "magc" s store) _ h in ground (arith, e)
fill_default_val-Replaces p (System.srsim s) t store store' h =
    let (s', _, e) = >>=-eq-ok (fill_srsim_node p s) _ h in ground (arith, e)
fill_default_val-Replaces p (System.vm s) t store store' h = ground (arith, h)
fill_default_val-Replaces p (System.srl s) t store store' h = ground (arith, h)
fill_default_val-Replaces p (System.pod s) t store store' h = ground (arith, h)

pub set_chassis_mac-Replaces :
    (name mac : String) (s t : System) → set_chassis_mac name mac s ≡ ok t → Replaces s t
unfolding Replaces set_chassis_mac assign_system
set_chassis_mac-Replaces name mac (System.vsim s) t h = ground (arith, h)
set_chassis_mac-Replaces name mac _ t h = ground (arith, h)
