-- ===== src/Fill/Laws.antt =====
-- What `FillNilPointers` does to each leaf of a struct.
use mathlib.Core.Option.{or_else}
use knl.Common.{ℕ, zero, suc, ◌≡◌, refl, Option, none, some, List, [], ◌∷◌, arith}
use knl.Fill.{
  Struct, end, field, Field, nil_struct, struct, nil_ptr, ptr, nil_map, map_of, other, zero_struct,
  zero_field, fill_struct, fill_field,
}

-- The value of the pointer or map that stands at a path of field indices, given as the index in the
-- outer struct and the indices below it; `none` if it is nil, or if a struct on the way is.
unfoldable mutual
  pub leaf : {A : Type 0} → Struct A → ℕ → List ℕ → Option A
  leaf end i p = none
  leaf (field f fs) zero p = leaf_in f p
  leaf (field f fs) (suc i) p = leaf fs i p

  pub leaf_in : {A : Type 0} → Field A → List ℕ → Option A
  leaf_in (struct fs) (i ∷ p) = leaf fs i p
  leaf_in (ptr a) [] = some a
  leaf_in (map_of a) [] = some a
  leaf_in f p = none

-- Two structs of one type: as many fields, of the same kinds.
unfoldable mutual
  pub SameType : {A : Type 0} → Struct A → Struct A → Type 0
  SameType end end = Unit
  SameType (field f fs) (field g gs) = SameKind f g × SameType fs gs
  SameType _ _ = ⊥

  pub SameKind : {A : Type 0} → Field A → Field A → Type 0
  SameKind (struct fs) (struct gs) = SameType fs gs
  SameKind (struct fs) nil_struct = Unit
  SameKind nil_struct nil_struct = Unit
  SameKind nil_struct (struct gs) = Unit
  SameKind nil_ptr nil_ptr = Unit
  SameKind nil_ptr (ptr a) = Unit
  SameKind (ptr a) nil_ptr = Unit
  SameKind (ptr a) (ptr b) = Unit
  SameKind nil_map nil_map = Unit
  SameKind nil_map (map_of a) = Unit
  SameKind (map_of a) nil_map = Unit
  SameKind (map_of a) (map_of b) = Unit
  SameKind (other a) (other b) = Unit
  SameKind _ _ = ⊥

module _ {A : Type 0} (zero_val : A) where
  leaf_in-zero_field : (f : Field A) (p : List ℕ) → leaf_in (zero_field zero_val f) p ≡ none
  unfolding leaf
  leaf_in-zero_field (struct fs) p = refl
  leaf_in-zero_field _ p = refl

  leaf-zero_struct : (s : Struct A) (i : ℕ) (p : List ℕ) → leaf (zero_struct zero_val s) i p ≡ none
  unfolding leaf zero_struct
  leaf-zero_struct end i p = refl
  leaf-zero_struct (field f fs) zero p = leaf_in-zero_field f p
  leaf-zero_struct (field f fs) (suc i) p = leaf-zero_struct fs i p

  zero-SameType : (s : Struct A) → SameType s (zero_struct zero_val s)
  unfolding SameType zero_struct
  zero-SameType end = tt
  zero-SameType (field (struct fs) ss) = (tt, zero-SameType ss)
  zero-SameType (field nil_struct ss) = (tt, zero-SameType ss)
  zero-SameType (field nil_ptr ss) = (tt, zero-SameType ss)
  zero-SameType (field (ptr a) ss) = (tt, zero-SameType ss)
  zero-SameType (field nil_map ss) = (tt, zero-SameType ss)
  zero-SameType (field (map_of a) ss) = (tt, zero-SameType ss)
  zero-SameType (field (other a) ss) = (tt, zero-SameType ss)

  mutual
    unfolding leaf SameType fill_struct or_else

    leaf-fill_struct_lem :
        (s d : Struct A) (i : ℕ) (p : List ℕ)
        → SameType s d
        → leaf (fill_struct zero_val s d) i p ≡ or_else (leaf d i p) (leaf s i p)
    leaf-fill_struct_lem end end i p h = refl
    leaf-fill_struct_lem end (field g gs) i p h = absurd h
    leaf-fill_struct_lem (field f fs) end i p h = absurd h
    leaf-fill_struct_lem (field f fs) (field g gs) zero p h = leaf_in-fill_field f g p h.0
    leaf-fill_struct_lem (field f fs) (field g gs) (suc i) p h = leaf-fill_struct_lem fs gs i p h.1

    leaf_in-fill_field :
        (f g : Field A) (p : List ℕ)
        → SameKind f g
        → leaf_in (fill_field zero_val f g) p ≡ or_else (leaf_in g p) (leaf_in f p)
    leaf_in-fill_field (struct fs) (struct gs) [] h = refl
    leaf_in-fill_field (struct fs) (struct gs) (i ∷ p) h = leaf-fill_struct_lem fs gs i p h
    leaf_in-fill_field (struct fs) nil_struct [] h = refl
    leaf_in-fill_field (struct fs) nil_struct (i ∷ p) h = ground (
      arith,
      leaf-fill_struct_lem fs (zero_struct zero_val fs) i p (zero-SameType fs),
      leaf-zero_struct fs i p,
    )
    leaf_in-fill_field f g [] h = ground arith
    leaf_in-fill_field f g (i ∷ p) h = ground arith

  -- After `FillNilPointers`, each pointer and each map that the destination had is what it was, and
  -- each that was nil is the source's, at any depth.
  pub leaf-fill_struct :
      (src dst : Struct A) (i : ℕ) (p : List ℕ)
      → SameType src dst
      → leaf (fill_struct zero_val src dst) i p ≡ or_else (leaf dst i p) (leaf src i p)
  leaf-fill_struct = leaf-fill_struct_lem
