-- ===== src/Names.antt =====
-- The names of nodes, cards and objects: what a node's name says of its type and card
-- (api/v1beta1/system.go, api/v1beta1/srvm_common.go, api/v1beta1/common.go), and the names that the
-- operator gives to the objects it creates (api/v1beta1/common.go, api/v1beta1/link.go).
use Prim.Native.Char.{code}
use Prim.Native.String.{[], ◌∷◌}
use knl.Common.{
  ℕ, String, ◌<>◌, Bool, true, false, ◌||◌, Option, none, some, is_nil, List, [], ◌∷◌, eqb, ◌==◌,
  starts_with, if◌then◌else◌, ℤ, pos,
}
use knl.Text.{to_lower, trim_space, split, fields, cut_prefix, atoi, itoa}

-- `NodeType` is a string.
abbrev pub NodeType : Type 0
NodeType = String

-- the text in front of the first dash; `none` if there is no dash
before_dash : String → Option String
before_dash [] = none
before_dash (c ∷ s) = elim (eqb (code c) b'-') [
  | true ↦ some ""
  | false ↦ elim (before_dash s) [ none ↦ none | some p ↦ some (c ∷ p) ]
]

-- `GetNodeTypeViaName`: a dash at index 0 does not count
unfoldable pub get_node_type_via_name : String → NodeType
unfolding before_dash
get_node_type_via_name name = elim (before_dash name) [
  | none ↦ "unknown"
  | some [] ↦ "unknown"
  | some (c ∷ p) ↦ c ∷ p
]

unfoldable pub is_srvm : NodeType → Bool
is_srvm t = t == "magc" || t == "vsim" || t == "vsri"

unfoldable pub is_sr_type : NodeType → Bool
unfolding is_srvm
is_sr_type t = if is_srvm t then true else t == "srsim"

unfoldable pub is_cpm : String → Bool
unfolding to_lower
is_cpm slot = to_lower slot == "a" || to_lower slot == "b"

-- The results of `ParseSRVMName`, which returns the first three also beside an error. The `vmid` is
-- `none` where `strconv.Atoi` failed; no caller reads it then.
pub record SrvmName : Type 0 where
  pub vmtype : NodeType
  pub vmid : Option ℤ
  pub cardid : String
  pub failed : Bool

abbrev third : NodeType → Option ℤ → List String → SrvmName
third t i [] = record { vmtype = t; vmid = i; cardid = ""; failed = true }
third t i (card ∷ _) = record { vmtype = t; vmid = i; cardid = card; failed = is_nil i }

parse_parts : List String → SrvmName
parse_parts (t ∷ id ∷ more) =
    if t == "vsri"
    then record { vmtype = t; vmid = atoi id; cardid = "a"; failed = is_nil (atoi id) }
    else if t == "vsim" || t == "magc"
    then third t (atoi id) more
    else record { vmtype = t; vmid = atoi id; cardid = ""; failed = is_nil (atoi id) }
parse_parts _ = record { vmtype = ""; vmid = some (pos 0); cardid = ""; failed = true }

unfoldable pub parse_srvm_name : String → SrvmName
unfolding parse_parts atoi split trim_space
parse_srvm_name name = parse_parts (split b'-' (trim_space name))

new_parts : List String → Option NodeType
unfolding is_srvm
new_parts (t ∷ _ ∷ _) = if is_srvm t then some t else none
new_parts _ = none

-- `ParseSRVMName_New`; `none` is an error
unfoldable pub parse_srvm_name_new : String → Option NodeType
unfolding new_parts split trim_space
parse_srvm_name_new name = new_parts (split b'-' (trim_space name))

-- `ParseCardID`: the number of the card and whether it is a CPM; `none` is an error
unfoldable pub parse_card_id : String → Option (ℤ × Bool)
unfolding atoi
parse_card_id card =
    if card == "a"
    then some (pos 199, true)
    else if card == "b"
    then some (pos 198, true)
    else elim (atoi card) [ none ↦ none | some n ↦ some (n, false) ]

unfoldable pub is_integrated_chassis : String → Bool
unfolding to_lower
is_integrated_chassis model =
    let m = to_lower model in
    if m == "sr-1" || m == "sr-1s" || m == "vsr-i" || m == "sr-1se"
    then true
    else starts_with m "sr-1x-" || starts_with m "sr-1-"

chassis_field : List String → String
unfolding trim_space cut_prefix
chassis_field [] = ""
chassis_field (f ∷ fs) = elim (cut_prefix (trim_space f) "chassis=") [
  | none ↦ chassis_field fs
  | some model ↦ model
]

unfoldable pub get_chassis_from_sysinfo_str : String → String
unfolding chassis_field fields trim_space
get_chassis_from_sysinfo_str sysinfo = chassis_field (fields (trim_space sysinfo))

unfoldable pub is_integrated_chassis_via_sysinfo : String → Bool
unfolding is_integrated_chassis get_chassis_from_sysinfo_str
is_integrated_chassis_via_sysinfo sysinfo =
    is_integrated_chassis (get_chassis_from_sysinfo_str sysinfo)

unfoldable pub get_pod_name : String → String → String
get_pod_name lab node = lab <> "-" <> node

unfoldable pub get_k8lan_name : String → String → String
get_k8lan_name lab link = lab <> "-" <> link

unfoldable pub get_vsros_fb_name : String → String → String
unfolding to_lower
get_vsros_fb_name lab chassis = to_lower (lab <> "-" <> chassis <> "-fb")

unfoldable pub get_magc_df_name : String → String → String
get_magc_df_name lab chassis = "magc-" <> lab <> "-" <> chassis <> "-fb"

unfoldable pub get_node_link_comb_name : String → String → String → String
get_node_link_comb_name lab node link = lab <> "-" <> node <> "-" <> link

unfoldable pub get_srvm_dv_name : String → String → String → String
unfolding to_lower
get_srvm_dv_name lab node slot = to_lower (lab <> "-" <> node <> "-" <> slot)

unfoldable pub get_vmpc_dv_name : String → String → String
unfolding to_lower
get_vmpc_dv_name lab node = to_lower (lab <> "-" <> node)

unfoldable pub get_srvm_card_vm_name : String → String → String → String
unfolding to_lower
get_srvm_card_vm_name lab chassis slot = to_lower (lab <> "-" <> chassis <> "-" <> slot)

unfoldable pub get_spoke_name : ℕ → ℕ → String
unfolding itoa
get_spoke_name vni index = "klan" <> itoa vni <> "-" <> itoa index
