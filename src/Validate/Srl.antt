-- ===== src/Validate/Srl.antt =====
-- Hardware of an SR Linux chassis (api/v1beta1/srl.go and srl_chassis.go): the table of the products, and
-- the text of six fields, which is parsed.
pub mod RoundTrip
use knl.Common.{
  ℕ, ◌+◌, ℤ, pos, String, ◌<>◌, Option, none, some, List, [], ◌∷◌, Map, lookup, Result, ok, err,
  panic, ◌>>=◌, if◌then◌else◌,
}
use knl.Text.{atoi, fields_func, to_lower}
use knl.Validate.Imports.{Parsers}

-- The map of slot configurations has one entry, `slot`.
pub record SrlChassis : Type 0 where
  pub chassis_type : ℤ
  pub base_mac : String
  pub cpm : ℤ
  pub slot : ℤ
  pub card_type : ℤ
  pub mda_type : ℤ

pub data SrlError : Type 0 where
  field_num invalid_chassis_type invalid_cpm invalid_slot invalid_iom invalid_mda invalid_mac :
      SrlError

-- chassis, cpm, iom, mda
unfoldable pub chassis_dict : Map (ℕ × ℕ × ℕ × ℕ)
chassis_dict =
    ("ixr-d1", (64, 175, 175, 196))
    ∷ ("ixr-d2l", (72, 187, 187, 200))
    ∷ ("ixr-d3l", (73, 188, 188, 202))
    ∷ ("ixr-h2", (61, 179, 179, 197))
    ∷ ("ixr-h3", (62, 178, 178, 198))
    ∷ ("ixr-10e", (69, 184, 182, 199))
    ∷ ("ixr-18e", (70, 184, 24, 11))
    ∷ ("ixr-6e", (68, 184, 182, 199))
    ∷ ("ixr-d5", (71, 190, 190, 201))
    ∷ ("ixr-x1b", (82, 32, 32, 19))
    ∷ ("ixr-x3b", (81, 27, 27, 12))
    ∷ ("ixr-h5-32d", (47, 180, 180, 106))
    ∷ ("sxr-1d-32d", (54, 11, 11, 201))
    ∷ ("ixs-a1", (80, 196, 196, 8))
    ∷ []

-- `strconv.Atoi` with the error of its caller
abbrev pub number : SrlError → String → Result SrlError ℤ
number e s = elim (atoi s) [ none ↦ err e | some n ↦ ok n ]

module _ (P : Parsers) where
  unfoldable pub parse_fields : List String → Result SrlError SrlChassis
  unfolding atoi
  parse_fields (f0 ∷ f1 ∷ f2 ∷ f3 ∷ f4 ∷ f5 ∷ []) = do
    chassis_type ← number invalid_chassis_type f0
    cpm ← number invalid_cpm f2
    slot ← number invalid_slot f3
    card_type ← number invalid_iom f4
    mda_type ← number invalid_mda f5
    if P.parse_mac f1
        then ok (record {
          chassis_type = chassis_type;
          base_mac = f1;
          cpm = cpm;
          slot = slot;
          card_type = card_type;
          mda_type = mda_type;
        })
        else err invalid_mac
  parse_fields _ = err field_num

  -- `parseChassisStr`
  unfoldable pub parse_chassis_str : String → Result SrlError SrlChassis
  unfolding parse_fields fields_func
  parse_chassis_str chassis = parse_fields (fields_func b'-' chassis)

  -- `getSRLChassisViaTypeStrDict`
  unfoldable pub get_srl_chassis_via_type_str_dict : String → Option SrlChassis
  unfolding chassis_dict to_lower
  get_srl_chassis_via_type_str_dict chassis_type =
      elim (lookup (to_lower chassis_type) chassis_dict) [
        | none ↦ none
        | some (chassis, cpm, iom, mda) ↦ some (record {
          chassis_type = pos chassis;
          base_mac = "";
          cpm = pos cpm;
          slot = pos 1;
          card_type = pos iom;
          mda_type = pos mda;
        })
      ]

  -- `getSRLChassisViaTypeStr`
  unfoldable pub get_srl_chassis_via_type_str : String → Result SrlError SrlChassis
  unfolding get_srl_chassis_via_type_str_dict parse_chassis_str
  get_srl_chassis_via_type_str chassis_type =
      elim (get_srl_chassis_via_type_str_dict chassis_type) [
        | some chassis ↦ ok chassis
        | none ↦ parse_chassis_str chassis_type
      ]
