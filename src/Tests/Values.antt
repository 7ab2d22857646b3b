-- ===== src/Tests/Values.antt =====
-- The theorems on addresses, allocation, filling and systems, each at a concrete input.
use knl.Common.{
  ℕ, ◌+◌, ◌-◌, ◌%◌, ◌^◌, ◌≤◌, ◌≡◌, ◌↔◌, refl, String, Option, none, some, List, [], ◌∷◌, arith, ok,
  length, All,
}
use knl.Text.{atoi}
use knl.Mac.{HardwareAddr, base_mac_addr, derive_mac, mac_string, parse_mac}
use knl.Mac.Derive.{IsMac48, mac_value, derive_mac_value, derive_mac_inj}
use knl.Mac.Print.{parse_mac-mac_string, mac_string_inj}
use knl.Alloc.{get_available_vnis, get_available_br_index, max_vni, max_bridge_index}
use knl.Alloc.Bits.{list_bits, list_bits-IsLawful}
use knl.Alloc.Taken.{vni_in_use, index_in_use}
use knl.Alloc.Sound.{Ascending, FreshIn, get_available_vnis_sound, get_available_br_index_sound}
use knl.Alloc.Complete.{count_free, count_free-hit, get_available_vnis_complete}
use knl.Fill.{Struct, end, field, nil_struct, struct, ptr, fill_struct}
use mathlib.Core.Option.{or_else}
use knl.Fill.Laws.{leaf, SameType, leaf-fill_struct}
use knl.Api.{OneOfSystem, System}
use knl.Api.OneOf.{validate, get_system, assign_system, empty_one_of, empty_srl}
use knl.Api.OneOf.Laws.{field_name, validate_iff}

abbrev base_six : IsMac48 base_mac_addr
base_six = omega arith

abbrev third_mac : HardwareAddr
third_mac = 18 ∷ 32 ∷ 34 ∷ 0 ∷ 0 ∷ 3 ∷ []

abbrev third_six : IsMac48 third_mac
third_six = omega arith

derive_mac_value_example :
    (m : HardwareAddr) × (derive_mac base_mac_addr 3 ≡ ok m)
    × IsMac48 m
    × (mac_value m ≡ (mac_value base_mac_addr + 3) % 2 ^ 48)
derive_mac_value_example = derive_mac_value base_mac_addr 3 base_six

abbrev three : ℕ
three = 3

derive_mac_inj_example : three ≡ three
derive_mac_inj_example = derive_mac_inj base_mac_addr 3 3 base_six (omega arith) (omega arith) refl

parse_mac-mac_string_example : parse_mac (mac_string third_mac) ≡ some third_mac
parse_mac-mac_string_example = parse_mac-mac_string third_mac third_six

mac_string_inj_example : third_mac ≡ third_mac
mac_string_inj_example = mac_string_inj third_mac third_mac third_six third_six refl

abbrev lans : List (Option ℕ)
lans = some 1 ∷ some 3 ∷ []

vnis_sound_example :
    let free : List ℕ = 2 ∷ 4 ∷ [] in
    (length free ≡ 2)
    × Ascending 0 free
    × All (FreshIn list_bits list_bits-IsLawful max_vni (λ v. vni_in_use v lans)) free
unfolding get_available_vnis list_bits
vnis_sound_example = get_available_vnis_sound list_bits list_bits-IsLawful lans 2 (2 ∷ 4 ∷ []) refl

abbrev nads : List (Option String)
nads = some "2" ∷ none ∷ []

br_index_sound_example :
    let free : List ℕ = 1 ∷ 3 ∷ [] in
    (length free ≡ 2)
    × Ascending 0 free
    × All (FreshIn list_bits list_bits-IsLawful max_bridge_index (λ v. index_in_use v nads)) free
unfolding get_available_br_index atoi list_bits
br_index_sound_example =
    get_available_br_index_sound list_bits list_bits-IsLawful nads 2 (1 ∷ 3 ∷ []) refl

abbrev one_lan : List (Option ℕ)
one_lan = some 5 ∷ []

one_free : 1 ≤ count_free (λ v. vni_in_use v one_lan) 1 (max_vni - 1)
one_free = omega (arith, count_free-hit (λ v. vni_in_use v one_lan) 1 16777213 refl)

vnis_complete_example : (l : List ℕ) × (get_available_vnis list_bits (ok one_lan) 1 ≡ ok l)
vnis_complete_example =
    get_available_vnis_complete list_bits list_bits-IsLawful one_lan 1 (refl, tt) one_free

abbrev full : Struct ℕ
full = field (struct (field (ptr 7) end)) (field (ptr 8) end)

abbrev sparse : Struct ℕ
sparse = field nil_struct (field (ptr 9) end)

fill_leaf_example :
    leaf (fill_struct 0 full sparse) 0 (0 ∷ [])
    ≡ or_else (leaf sparse 0 (0 ∷ [])) (leaf full 0 (0 ∷ []))
unfolding SameType
fill_leaf_example = leaf-fill_struct 0 full sparse 0 (0 ∷ []) (tt, (tt, tt))

abbrev srl_node : OneOfSystem
srl_node = record empty_one_of { srl = some empty_srl }

validate_example : (validate srl_node ≡ ok tt) ↔ (
    (s : System) × (srl_node ≡ assign_system s empty_one_of)
    × (get_system srl_node ≡ some (s, field_name s)))
validate_example = validate_iff srl_node
