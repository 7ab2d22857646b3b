-- ===== src/Chassis/Fill.antt =====
-- The defaults of a card: `SRCard.FillDefaultVal` (api/v1beta1/sr.go), and of the chassis' cards:
-- `SRVM.FillDefaultVal` (api/v1beta1/srvm.go).
use knl.Common.{
  String, Option, none, some, List, [], ◌∷◌, ◌==◌, if◌then◌else◌, Map, lookup, insert, keys, Result,
  ok, err, panic, ◌>>=◌,
}
use knl.Names.{NodeType, is_cpm}
use knl.Api.{SrCard, SrChassis}
use knl.Api.Defaults.{get_cpm_vm_listen_ports, get_iom_vm_listen_ports}
use knl.Chassis.{ChassisError, deref, set_default_generic, validate_chassis}
use knl.Chassis.Sysinfo.{get_default_sysinfo_str}

abbrev with_resources : String → String → SrCard → SrCard
with_resources memory cpu card = record card {
  req_memory = set_default_generic card.req_memory memory;
  req_cpu = set_default_generic card.req_cpu cpu;
}

-- The branch of a line card of a MAG-c. It compares the first MDA with the model of a card.
abbrev fill_magc_iom : Option (List String) → SrCard → Result ChassisError SrCard
fill_magc_iom none card = panic
fill_magc_iom (some []) card = ok card
fill_magc_iom (some (mda ∷ _)) card =
    if mda == "iom-v-mg"
    then ok (with_resources "32Gi" "8" card)
    else ok (with_resources "8Gi" "4" card)

-- the `switch` on the node type
fill_resources : NodeType → String → SrCard → Result ChassisError SrCard
fill_resources nt slot card =
    if nt == "srsim"
    then ok (record card { req_memory = set_default_generic card.req_memory "4Gi" })
    else if nt == "vsim"
    then ok (with_resources "4Gi" "2" card)
    else if nt == "vsri"
    then ok (with_resources "6Gi" "2" card)
    else if nt == "magc"
    then if is_cpm slot then ok (with_resources "16Gi" "2" card) else fill_magc_iom card.mdas card
    else ok card

abbrev fill_ports : NodeType → String → SrCard → SrCard
fill_ports nt slot card =
    if nt == "srsim"
    then card
    else if is_cpm slot
    then record card {
      listen_ports = set_default_generic card.listen_ports get_cpm_vm_listen_ports;
    }
    else record card {
      listen_ports = set_default_generic card.listen_ports get_iom_vm_listen_ports;
    }

-- `SRCard.FillDefaultVal`
unfoldable pub fill_card : NodeType → String → SrCard → Result ChassisError SrCard
unfolding fill_resources
fill_card nt slot card = do filled ← fill_resources nt slot card; ok (fill_ports nt slot filled)

module _ (pointer_text : Option String → String) where
  -- one round of the loop: the system information of a slot, then the rest of its card
  fill_slot : SrChassis → String → Map SrCard → Result ChassisError (Map SrCard)
  unfolding fill_card
  fill_slot chassis slot cards = do
    sysinfo ← get_default_sysinfo_str pointer_text chassis cards slot
    card ← deref (lookup slot cards)
    type ← deref chassis.type
    filled ←
        fill_card type slot (record card { sys_info = set_default_generic card.sys_info sysinfo })
    ok (insert slot filled cards)

  fill_slots : SrChassis → List String → Map SrCard → Result ChassisError (Map SrCard)
  unfolding fill_slot
  fill_slots chassis [] cards = ok cards
  fill_slots chassis (slot ∷ slots) cards = do
    filled ← fill_slot chassis slot cards
    fill_slots chassis slots filled

  -- `SRVM.FillDefaultVal`: the new card map of the chassis. A chassis that does not validate is left
  -- alone, and a nil chassis makes the caller panic before.
  unfoldable pub fill_chassis : SrChassis → Map SrCard → Result ChassisError (Map SrCard)
  unfolding fill_slots
  fill_chassis chassis cards = elim (validate_chassis chassis cards) [
    | ok _ ↦ fill_slots chassis (keys cards) cards
    | err _ ↦ ok cards
    | panic ↦ panic
  ]
