-- ===== src/Mac.antt =====
-- MAC addresses: `DeriveMac` and its base addresses (api/v1beta1/common.go), the print and the
-- parser of the standard library's `net.HardwareAddr`.
pub mod Derive
pub mod Print
use Prim.Native.String.{[], ◌∷◌}
use knl.Common.{
  ℕ, zero, suc, ◌+◌, ◌-◌, ◌*◌, ◌/◌, ◌%◌, ◌^◌, String, ◌<>◌, Bool, true, false, ◌&&◌, ◌||◌, Option,
  none, some, List, [], ◌∷◌, leb, eqb, ltb, if◌then◌else◌, Result, ok, panic, length, take, drop,
}
use knl.Text.{codes, digit, emit}

-- `net.HardwareAddr`: the bytes of an address
abbrev pub HardwareAddr : Type 0
HardwareAddr = List ℕ

abbrev pub base_mac_addr : HardwareAddr
base_mac_addr = 0x12 ∷ 32 ∷ 34 ∷ 0 ∷ 0 ∷ 0 ∷ []

abbrev pub chassis_base_mac_addr : HardwareAddr
chassis_base_mac_addr = 2 ∷ 0xcc ∷ 0 ∷ 0 ∷ 0 ∷ 0 ∷ []

abbrev pub vm_base_mac : HardwareAddr
vm_base_mac = 2 ∷ 0xff ∷ 0 ∷ 0 ∷ 0 ∷ 99 ∷ []

-- `binary.BigEndian.Uint64`; it panics if there are fewer than eight bytes
uint64_be : List ℕ → Option ℕ
uint64_be (a ∷ b ∷ c ∷ d ∷ e ∷ f ∷ g ∷ h ∷ _) =
    some (((((((a * 256 + b) * 256 + c) * 256 + d) * 256 + e) * 256 + f) * 256 + g) * 256 + h)
uint64_be _ = none

-- `binary.BigEndian.PutUint64`
put_uint64 : ℕ → List ℕ
put_uint64 n =
    (n / 2 ^ 56 % 256)
    ∷ (n / 2 ^ 48 % 256)
    ∷ (n / 2 ^ 40 % 256)
    ∷ (n / 2 ^ 32 % 256)
    ∷ (n / 2 ^ 24 % 256)
    ∷ (n / 2 ^ 16 % 256)
    ∷ (n / 2 ^ 8 % 256)
    ∷ (n % 256)
    ∷ []

-- `DeriveMac`, for an offset that is not negative
unfoldable pub derive_mac : HardwareAddr → ℕ → Result Unit HardwareAddr
unfolding uint64_be put_uint64
derive_mac basemac offset = elim (uint64_be (0 ∷ 0 ∷ basemac)) [
  | none ↦ panic
  | some basenum ↦ ok (take 6 (drop 2 (put_uint64 ((basenum + offset) % 2 ^ 64))))
]

unfoldable pub derive_chassis_mac : ℕ → Result Unit HardwareAddr
unfolding derive_mac
derive_chassis_mac offset = derive_mac chassis_base_mac_addr offset

print_rest : List ℕ → String
print_rest [] = ""
print_rest (b ∷ bs) = ":" ∷ digit (b / 16) ∷ digit (b % 16) ∷ print_rest bs

-- `HardwareAddr.String`
unfoldable pub mac_string : HardwareAddr → String
unfolding print_rest digit
mac_string [] = ""
mac_string (b ∷ bs) = digit (b / 16) ∷ digit (b % 16) ∷ print_rest bs

-- the value of a hexadecimal digit of either case
hex_value : ℕ → Option ℕ
hex_value c =
    if leb b'0' c && leb c b'9'
    then some (c - b'0')
    else if leb b'a' c && leb c b'f'
    then some (c - b'a' + 10)
    else if leb b'A' c && leb c b'F'
    then some (c - b'A' + 10)
    else none

join_nibbles : Option ℕ → Option ℕ → Option ℕ
join_nibbles (some h) (some l) = some (h * 16 + l)
join_nibbles _ _ = none

abbrev prepend : Option ℕ → Option (List ℕ) → Option (List ℕ)
prepend (some b) (some bs) = some (b ∷ bs)
prepend _ _ = none

-- two digits to a byte, with a separator between the bytes
hex_pairs : ℕ → List ℕ → Option (List ℕ)
hex_pairs sep (a ∷ b ∷ []) = prepend (join_nibbles (hex_value a) (hex_value b)) (some [])
hex_pairs sep (a ∷ b ∷ c ∷ s) =
    let rest = hex_pairs sep s in
    if eqb c sep then prepend (join_nibbles (hex_value a) (hex_value b)) rest else none
hex_pairs sep _ = none

-- four digits to two bytes, with a dot between the groups
hex_quads : List ℕ → Option (List ℕ)
hex_quads (a ∷ b ∷ c ∷ d ∷ []) =
    prepend (join_nibbles (hex_value a) (hex_value b))
      (prepend (join_nibbles (hex_value c) (hex_value d)) (some []))
hex_quads (a ∷ b ∷ c ∷ d ∷ e ∷ s) =
    let rest = hex_quads s in
    if eqb e b'.'
    then prepend (join_nibbles (hex_value a) (hex_value b))
        (prepend (join_nibbles (hex_value c) (hex_value d)) rest)
    else none
hex_quads _ = none

-- an address has 6, 8 or 20 bytes
right_size : Option (List ℕ) → Option HardwareAddr
right_size none = none
right_size (some m) =
    if eqb (length m) 6 || eqb (length m) 8 || eqb (length m) 20 then some m else none

parse_codes : List ℕ → Option HardwareAddr
parse_codes (a ∷ b ∷ c ∷ d ∷ e ∷ s) =
    if eqb c b':' || eqb c b'-'
    then right_size (hex_pairs c (a ∷ b ∷ c ∷ d ∷ e ∷ s))
    else if eqb e b'.'
    then right_size (hex_quads (a ∷ b ∷ c ∷ d ∷ e ∷ s))
    else none
parse_codes _ = none

-- `net.ParseMAC`; `none` is an error
unfoldable pub parse_mac : String → Option HardwareAddr
unfolding parse_codes right_size hex_pairs hex_quads hex_value join_nibbles
parse_mac s = if ltb (length (codes s)) 14 then none else parse_codes (codes s)
