-- ===== src/LoadDef/Reflect.antt =====
-- The fills at the struct types are the walk of `FillNilPointers` over their fields.
use knl.Common.{◌≡◌, refl, String, Bool, Option, none, some, List, arith}
use knl.Api.{Port, SrChassis, Srvm, SrSim, SrLinux, GeneralPod, GeneralVm, CardsRef}
use knl.Fill.{
  Struct, end, field, Field, nil_struct, struct, nil_ptr, ptr, nil_map, map_of, fill_struct,
  fill_field,
}
use knl.LoadDef.{fill_ptr, fill_chassis_field, fill_srvm, fill_srsim, fill_srl, fill_pod, fill_vm}

-- what the pointers and maps of the API types point to
pub data Leaf : Type 0 where
  text : String → Leaf
  flag : Bool → Leaf
  cards : CardsRef → Leaf
  ports : List Port → Leaf

abbrev as_ptr : {A : Type 0} → (A → Leaf) → Option A → Field Leaf
as_ptr make none = nil_ptr
as_ptr make (some a) = ptr (make a)

abbrev as_map : {A : Type 0} → (A → Leaf) → Option A → Field Leaf
as_map make none = nil_map
as_map make (some a) = map_of (make a)

abbrev chassis_fields : SrChassis → Struct Leaf
chassis_fields c = field (as_ptr text c.type) (
    field (as_ptr text c.model) (
      field (as_map cards c.cards)
        (field (as_ptr text c.sfm) (field (as_ptr text c.chassis_mac) end))))

abbrev as_struct : Option SrChassis → Field Leaf
as_struct none = nil_struct
as_struct (some c) = struct (chassis_fields c)

abbrev pub srvm_fields : Srvm → Struct Leaf
srvm_fields s = field (as_struct s.chassis) (
    field (as_ptr text s.image) (
      field (as_ptr text s.disk_size) (
        field (as_ptr text s.license)
          (field (as_ptr text s.uuid) (field (as_ptr flag s.dedicate) end)))))

abbrev zero_leaf : Leaf
zero_leaf = text ""

ptr-fill :
    {A : Type 0} (make : A → Leaf) (d s : Option A)
    → as_ptr make (fill_ptr d s) ≡ fill_field zero_leaf (as_ptr make s) (as_ptr make d)
unfolding fill_struct
ptr-fill make none none = refl
ptr-fill make none (some s) = refl
ptr-fill make (some d) none = refl
ptr-fill make (some d) (some s) = refl

map-fill :
    {A : Type 0} (make : A → Leaf) (d s : Option A)
    → as_map make (fill_ptr d s) ≡ fill_field zero_leaf (as_map make s) (as_map make d)
unfolding fill_struct
map-fill make none none = refl
map-fill make none (some s) = refl
map-fill make (some d) none = refl
map-fill make (some d) (some s) = refl

chassis-fill :
    (d s : Option SrChassis)
    → as_struct (fill_chassis_field d s) ≡ fill_field zero_leaf (as_struct s) (as_struct d)
unfolding fill_struct fill_chassis_field
chassis-fill none none = refl
chassis-fill (some d) none = refl
chassis-fill none (some s) = ground arith
chassis-fill (some d) (some s) = ground (
  arith,
  ptr-fill text d.type s.type,
  ptr-fill text d.model s.model,
  map-fill cards d.cards s.cards,
)

abbrev pub srsim_fields : SrSim → Struct Leaf
srsim_fields s =
    field (as_ptr text s.image) (field (as_struct s.chassis) (field (as_ptr text s.lic_secret) end))

abbrev pub srl_fields : SrLinux → Struct Leaf
srl_fields s = field (as_ptr text s.image) (
    field (as_ptr text s.chassis) (
      field (as_ptr text s.lic_secret)
        (field (as_ptr text s.req_memory) (field (as_ptr text s.req_cpu) end))))

abbrev pub pod_fields : GeneralPod → Struct Leaf
pod_fields s = field (as_ptr text s.image) (
    field (as_ptr text s.command) (
      field (as_ptr flag s.privileged) (
        field (as_ptr text s.pvc_size)
          (field (as_ptr text s.req_memory) (field (as_ptr text s.req_cpu) end)))))

abbrev pub vm_fields : GeneralVm → Struct Leaf
vm_fields s = field (as_ptr text s.req_memory) (
    field (as_ptr text s.req_cpu) (
      field (as_ptr text s.disk_size) (
        field (as_ptr flag s.pin_cpu) (
          field (as_ptr flag s.huge_page) (
            field (as_ptr text s.image) (
              field (as_ptr text s.init_method) (
                field (as_ptr ports s.ports)
                  (field (as_ptr text s.username) (field (as_ptr text s.password) end)))))))))

-- For every node type, filling a node from the default of its type is the walk of `FillNilPointers`
-- over the fields of the two structs.
pub fill_is_walk :
    ((d s : Srvm)
      → srvm_fields (fill_srvm d s) ≡ fill_struct zero_leaf (srvm_fields s) (srvm_fields d))
    × ((d s : SrSim)
        → srsim_fields (fill_srsim d s) ≡ fill_struct zero_leaf (srsim_fields s) (srsim_fields d))
    × ((d s : SrLinux)
        → srl_fields (fill_srl d s) ≡ fill_struct zero_leaf (srl_fields s) (srl_fields d))
    × ((d s : GeneralPod)
        → pod_fields (fill_pod d s) ≡ fill_struct zero_leaf (pod_fields s) (pod_fields d))
    × ((d s : GeneralVm)
        → vm_fields (fill_vm d s) ≡ fill_struct zero_leaf (vm_fields s) (vm_fields d))
unfolding fill_srvm fill_srsim fill_srl fill_pod fill_vm fill_struct
fill_is_walk = (
  λ d s. simp (ptr-fill, chassis-fill),
  λ d s. simp (ptr-fill, chassis-fill),
  λ d s. simp ptr-fill,
  λ d s. simp ptr-fill,
  λ d s. simp ptr-fill,
)
