-- ===== src/Fill.antt =====
-- `FillNilPointers` (api/v1beta1/common.go), which walks two structs of one type by reflection. A
-- struct is the list of its fields, each by the kind that the walk distinguishes; `A` is what the
-- leaves hold.
pub mod Laws
use knl.Common.{String, ◌==◌, if◌then◌else◌, Result, ok, err}

mutual
  pub data Struct (A : Type 0) : Type 0 where
    end : Struct A
    field : Field A → Struct A → Struct A

  -- A pointer to a struct that is not a Kubernetes type, any other pointer, a map (each nil or not),
  -- and a field of any other kind, or one that cannot be set.
  pub data Field (A : Type 0) : Type 0 where
    nil_struct : Field A
    struct : Struct A → Field A
    nil_ptr : Field A
    ptr : A → Field A
    nil_map : Field A
    map_of : A → Field A
    other : A → Field A

module _ {A : Type 0} (zero_val : A) where
  -- `reflect.New` of a field of the same type: everything nil or zero
  abbrev zero_field : Field A → Field A
  zero_field nil_struct = nil_struct
  zero_field (struct fs) = nil_struct
  zero_field nil_ptr = nil_ptr
  zero_field (ptr a) = nil_ptr
  zero_field nil_map = nil_map
  zero_field (map_of a) = nil_map
  zero_field (other a) = other zero_val

  unfoldable pub zero_struct : Struct A → Struct A
  zero_struct end = end
  zero_struct (field f fs) = field (zero_field f) (zero_struct fs)

  -- `fillNilPointersValue` and one round of its loop; the source comes first here
  unfoldable mutual
    unfolding zero_struct

    pub fill_struct : Struct A → Struct A → Struct A
    fill_struct (field s ss) (field d ds) = field (fill_field s d) (fill_struct ss ds)
    fill_struct _ d = d

    pub fill_field : Field A → Field A → Field A
    fill_field (struct ss) nil_struct = struct (fill_struct ss (zero_struct ss))
    fill_field (struct ss) (struct ds) = struct (fill_struct ss ds)
    fill_field (ptr a) nil_ptr = ptr a
    fill_field (map_of a) nil_map = map_of a
    fill_field _ d = d

-- What `FillNilPointers` is given: the kinds of value that its checks tell apart. A type is known by
-- its name.
pub data Any (A : Type 0) : Type 0 where
  invalid : Any A
  struct_val : String → Struct A → Any A
  struct_ptr : String → Struct A → Any A
  not_struct : Any A

pub data FillError : Type 0 where
  src_invalid dst_invalid dst_not_pointer src_not_struct type_mismatch : FillError

module _ {A : Type 0} (zero_val : A) where
  fill_typed : String → Struct A → String → Struct A → Result FillError (Struct A)
  unfolding fill_struct
  fill_typed dt ds st ss = if st == dt then ok (fill_struct zero_val ss ds) else err type_mismatch

  fill_pointer : String → Struct A → Any A → Result FillError (Struct A)
  unfolding fill_typed
  fill_pointer dt ds invalid = err src_invalid
  fill_pointer dt ds (struct_val st ss) = fill_typed dt ds st ss
  fill_pointer dt ds (struct_ptr st ss) = fill_typed dt ds st ss
  fill_pointer dt ds not_struct = err src_not_struct

  -- `FillNilPointers`; it returns the new fields of the struct that `dst` points to
  unfoldable pub fill_nil_pointers : Any A → Any A → Result FillError (Struct A)
  unfolding fill_pointer
  fill_nil_pointers dst invalid = err src_invalid
  fill_nil_pointers invalid src = err dst_invalid
  fill_nil_pointers (struct_ptr dt ds) src = fill_pointer dt ds src
  fill_nil_pointers _ src = err dst_not_pointer
