-- ===== src/Chassis/Sysinfo.antt =====
-- `GetDefaultSysinfoStr` (api/v1beta1/sr.go) and `GenSysinfo` (api/v1beta1/common.go).
use knl.Common.{
  ℕ, ◌+◌, String, ◌<>◌, Option, none, some, List, [], ◌∷◌, ◌==◌, if◌then◌else◌, Map, lookup, Result,
  ok, ◌>>=◌,
}
use knl.Text.{itoa, to_lower, trim_space}
use knl.Names.{is_cpm}
use knl.Api.{SrCard, SrChassis, Xiom}
use knl.Chassis.{deref}

-- `mda/<n>=<model> ` for each MDA, from the number `n` on
mda_fields : String → ℕ → List String → String
unfolding itoa
mda_fields prefix n [] = ""
mda_fields prefix n (mda ∷ mdas) =
    prefix <> itoa n <> "=" <> mda <> " " <> mda_fields prefix (n + 1) mdas

abbrev card_mdas : Option (List String) → List String
card_mdas none = []
card_mdas (some mdas) = mdas

-- `pointer_text` is what `%v` prints of a `*string`: the program does not dereference the model of
-- an XIOM here.
module _ (pointer_text : Option String → String) where
  xiom_fields : Map Xiom → String
  unfolding mda_fields
  xiom_fields [] = ""
  xiom_fields ((slot, xiom) ∷ xioms) =
      "xiom/"
      <> slot
      <> "="
      <> pointer_text xiom.model
      <> " "
      <> mda_fields ("mda/" <> slot <> "/") 1 xiom.mdas
      <> xiom_fields xioms

  abbrev magc_fields : String → String → String
  magc_fields slot model =
      "vf2vf=1 "
      <> (if is_cpm slot
          then ""
          else "ofabric/1=2 "
            <> (if to_lower (trim_space model) == "iom-v-mg"
                then "control-cpu-cores=4 compact-fp=1 "
                else "control-cpu-cores=2 "))

  abbrev head_fields : Option String → String → String → String → String
  head_fields none model card slot =
      "chassis=" <> model <> " card=" <> card <> " slot=" <> slot <> " "
  head_fields (some sfm) model card slot =
      "chassis=" <> model <> " sfm=" <> sfm <> " card=" <> card <> " slot=" <> slot <> " "

  -- `GetDefaultSysinfoStr`, where `cards` is the card map of the chassis
  unfoldable pub get_default_sysinfo_str :
      {E : Type 0} → SrChassis → Map SrCard → String → Result E String
  unfolding xiom_fields mda_fields
  get_default_sysinfo_str chassis cards slot = do
    model ← deref chassis.model
    card ← deref (lookup slot cards)
    card_model ← deref card.model
    type ← deref chassis.type
    ok (
        head_fields chassis.sfm model card_model slot
        <> xiom_fields card.xiom
        <> mda_fields "mda/" 1 (card_mdas card.mdas)
        <> (if type == "magc" then magc_fields slot card_model else ""))

-- `GenSysinfo`
unfoldable pub gen_sysinfo : String → String → String → String
gen_sysinfo base cfg_url lic_url =
    "TIMOS: " <> base <> " address=10.0.2.2/24@active address=10.0.2.3/24@standby primary-config="
    <> cfg_url <> " license-file=" <> lic_url <> " static-route=0.0.0.0/0@10.0.2.1"
