-- ===== src/Chassis.antt =====
-- Cards and chassis of the SR node types (api/v1beta1/sr.go).
pub mod Fill
pub mod Sysinfo
use knl.Common.{
  ℕ, zero, suc, ◌+◌, String, ◌<>◌, Bool, true, false, ◌&&◌, not, Option, none, some, is_nil, List,
  [], ◌∷◌, ltb, leb, ◌==◌, if◌then◌else◌, Map, lookup, insert, keys, Result, ok, err, panic, ◌>>=◌,
  ◌>>◌, ℤ, pos, negsuc, length,
}
use knl.Text.{atoi, itoa, to_lower, trim_space}
use knl.Names.{NodeType, is_cpm, is_integrated_chassis}
use knl.Api.{SrCard, SrChassis, Xiom, Port}
use knl.Api.Defaults.{get_cpm_vm_listen_ports, get_iom_vm_listen_ports}

pub data ChassisError : Type 0 where
  no_card_type mdas_and_xioms no_model no_type no_slot_a : ChassisError

-- `*p`, which panics at nil
abbrev pub deref {ℓ} : {E A : Type ℓ} → Option A → Result E A
deref none = panic
deref (some a) = ok a

-- `SetDefaultGeneric`
abbrev pub set_default_generic {ℓ} : {A : Type ℓ} → Option A → A → Option A
set_default_generic none def = some def
set_default_generic (some a) def = some a

abbrev pub is_empty {ℓ} : {A : Type ℓ} → List A → Bool
is_empty [] = true
is_empty (x ∷ xs) = false

abbrev pub has_mdas : Option (List String) → Bool
has_mdas none = false
has_mdas (some mdas) = not (is_empty mdas)

-- `SRCard.Validate`
unfoldable pub validate_card : SrCard → Result ChassisError Unit
validate_card card =
    if is_nil card.model
    then err no_card_type
    else if not (is_empty card.xiom) && has_mdas card.mdas
    then err mdas_and_xioms
    else ok tt

unfoldable pub validate_cards : Map SrCard → Result ChassisError Unit
unfolding validate_card
validate_cards [] = ok tt
validate_cards ((slot, card) ∷ cards) = do validate_card card; validate_cards cards

-- `SRChassis.Validate`, where `cards` is the card map of the chassis
unfoldable pub validate_chassis : SrChassis → Map SrCard → Result ChassisError Unit
unfolding validate_cards
validate_chassis chassis cards =
    if is_nil chassis.model
    then err no_model
    else if is_nil chassis.type
    then err no_type
    else do validate_cards cards; if is_nil (lookup "A" cards) then err no_slot_a else ok tt

-- `GetDefaultCPMSlot`: the first CPM slot that the loop meets
unfoldable pub get_default_cpm_slot : Map SrCard → String
get_default_cpm_slot [] = "n/a"
get_default_cpm_slot ((slot, card) ∷ cards) =
    let rest = get_default_cpm_slot cards in if is_cpm slot then slot else rest

-- `%d` of an `int`
unfoldable pub itoa_int : ℤ → String
unfolding itoa
itoa_int (pos n) = itoa n
itoa_int (negsuc n) = "-" <> itoa (n + 1)

abbrev leb_int : ℤ → ℤ → Bool
leb_int (pos a) (pos b) = leb a b
leb_int (pos a) (negsuc b) = false
leb_int (negsuc a) (pos b) = true
leb_int (negsuc a) (negsuc b) = leb b a

-- the first element after `sort.Ints`
least : List ℤ → Option ℤ
least [] = none
least (i ∷ is) = elim (least is) [ none ↦ some i | some j ↦ if leb_int i j then some i else some j ]

abbrev default_slot : Option ℤ → String
default_slot none = "n/a"
default_slot (some i) = itoa_int i

abbrev first_slot : Map SrCard → String
first_slot [] = "n/a"
first_slot ((slot, card) ∷ cards) = slot

module _ {E : Type 0} where
  -- whether a line card may hold ports: for a MAG-c only an `iom-v`
  unfoldable pub iom_fits : Option NodeType → SrCard → Result E Bool
  iom_fits type card = do
    t ← deref type
    if t == "magc" then (do m ← deref card.model; ok (to_lower m == "iom-v")) else ok true

  -- the loop of `GetDefaultMDASlot` over the slots of a distributed chassis
  unfoldable pub iom_list : Option NodeType → Map SrCard → Result E (List ℤ)
  unfolding iom_fits
  iom_list type [] = ok []
  iom_list type ((slot, card) ∷ cards) =
      let rest = iom_list type cards in
      if is_cpm slot then rest else elim (atoi (trim_space slot)) [
        | none ↦ panic
        | some n ↦ do fits ← iom_fits type card; more ← rest; ok (if fits then n ∷ more else more)
      ]

  -- `GetDefaultMDASlot`
  unfoldable pub get_default_mda_slot : SrChassis → Map SrCard → Result E String
  unfolding iom_list least itoa_int
  get_default_mda_slot chassis cards = do
    model ← deref chassis.model
    if is_integrated_chassis model
        then ok (first_slot cards)
        else do ioms ← iom_list chassis.type cards; ok (default_slot (least ioms))
