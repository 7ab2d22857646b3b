-- ===== src/Api/OneOf/Laws.antt =====
-- What `validate`, `GetSystem` and `AssignSystem` say of one another.
use knl.Common.{◌≡◌, refl, ◌↔◌, ◌≢◌, inl, inr, Option-cases, String, none, some, arith, ok}
use knl.Api.{OneOfSystem, System}
use knl.Api.OneOf.{validate, get_system, assign_system, empty_one_of}

-- the name of the field that holds a system
abbrev pub field_name : System → String
field_name (System.vsim s) = "VSIM"
field_name (System.vsri s) = "VSRI"
field_name (System.magc s) = "MAGC"
field_name (System.vm s) = "VM"
field_name (System.srl s) = "SRL"
field_name (System.pod s) = "Pod"
field_name (System.srsim s) = "SRSIM"

pub validate-only : (s : System) → validate (assign_system s empty_one_of) ≡ ok tt
unfolding validate assign_system
validate-only (System.vsim s) = refl
validate-only _ = refl

pub get_system-only :
    (s : System) → get_system (assign_system s empty_one_of) ≡ some (s, field_name s)
unfolding get_system assign_system
get_system-only (System.vsim s) = refl
get_system-only _ = refl

pub get_system-ne-none : (o : OneOfSystem) → validate o ≡ ok tt → get_system o ≢ none
unfolding validate get_system
get_system-ne-none o h = ground arith

only_of_get_system :
    (o : OneOfSystem) (s : System) (name : String)
    → validate o ≡ ok tt
    → get_system o ≡ some (s, name)
    → (o ≡ assign_system s empty_one_of) × (name ≡ field_name s)
unfolding validate get_system assign_system
only_of_get_system o (System.vsim x) name h e = ground arith
only_of_get_system o _ name h e = ground arith

-- `validate` accepts exactly the values in which one field is set: those that `AssignSystem` makes of
-- an empty value. There `GetSystem` returns that system, with the name of its field.
pub validate_iff :
    (o : OneOfSystem)
    → (validate o ≡ ok tt) ↔ (
        (s : System) × (o ≡ assign_system s empty_one_of) × (get_system o ≡ some (s, field_name s)))
validate_iff o = (
  λ h. elim (Option-cases (get_system o)) [
    | inl e ↦ absurd (get_system-ne-none o h e)
    | inr ((s, name), e) ↦
        let (only, named) = only_of_get_system o s name h e in (s, only, rw (← named) e)
  ],
  λ (s, only, found). rw only (validate-only s),
)
