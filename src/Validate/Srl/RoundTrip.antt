-- ===== src/Validate/Srl/RoundTrip.antt =====
-- The text of six fields that names the hardware of an SR Linux chassis is read back as written.
use Prim.Native.Char.{Char}
use Prim.Native.String.{◌∷◌, char_at}
use mathlib.Core.List.{[], ◌∷◌}
use mathlib.Core.Path.{subst}
use knl.Common.{ℕ, ◌≤◌, ◌≡◌, ◌≢◌, refl, pos, String, ◌<>◌, true, ℤ, ok, >>=-of-ok, some}
use knl.Text.{itoa, max_int, atoi}
use knl.Text.Decimal.{atoi-itoa, StartsDigit, StartsDigit-itoa}
use knl.Text.Split.{lacks, NoSep-of_lacks, NoSep-itoa, fields_func-part, fields_func-last}
use knl.Validate.Imports.{Parsers}
use knl.Validate.Srl.{parse_fields, SrlError, parse_chassis_str, number}

abbrev hyphen : Char
hyphen = char_at "-" 0

-- `chassis_type-base_mac-cpm-slot-iom-mda`
unfoldable pub chassis_str : ℕ → String → ℕ → ℕ → ℕ → ℕ → String
unfolding itoa
chassis_str chassis mac cpm slot iom mda =
    itoa chassis
    <> (hyphen
        ∷ (mac
            <> (hyphen
                ∷ (itoa cpm
                    <> (hyphen ∷ (itoa slot <> (hyphen ∷ (itoa iom <> (hyphen ∷ itoa mda)))))))))

itoa-ne-empty : (n : ℕ) → itoa n ≢ ""
itoa-ne-empty n h = subst StartsDigit h (StartsDigit-itoa n)

number_of : (e : SrlError) (s : String) (z : ℤ) → atoi s ≡ some z → number e s ≡ ok z
number_of e s z h = rw (number, h) refl

module _ (P : Parsers) where
  parse_fields_ok :
      (f0 f1 f2 f3 f4 f5 : String) (z0 z2 z3 z4 z5 : ℤ)
      → atoi f0 ≡ some z0
      → atoi f2 ≡ some z2
      → atoi f3 ≡ some z3
      → atoi f4 ≡ some z4
      → atoi f5 ≡ some z5
      → P.parse_mac f1 ≡ true
      → parse_fields P (f0 ∷ f1 ∷ f2 ∷ f3 ∷ f4 ∷ f5 ∷ [])
        ≡ ok (record {
          chassis_type = z0;
          base_mac = f1;
          cpm = z2;
          slot = z3;
          card_type = z4;
          mda_type = z5;
        })
  unfolding parse_fields
  parse_fields_ok f0 f1 f2 f3 f4 f5 z0 z2 z3 z4 z5 h0 h2 h3 h4 h5 m =
      >>=-of-ok _ (number_of _ f0 z0 h0) (
        >>=-of-ok _ (number_of _ f2 z2 h2) (
          >>=-of-ok _ (number_of _ f3 z3 h3)
            (>>=-of-ok _ (number_of _ f4 z4 h4) (>>=-of-ok _ (number_of _ f5 z5 h5) (rw m refl)))))

  -- The text of six fields is read back as these fields, when the numbers are in the range of `int` and the
  -- MAC address is one that the parser accepts, without dashes.
  pub parse_chassis_str-chassis_str :
      (chassis : ℕ) (mac : String) (cpm slot iom mda : ℕ)
      → chassis ≤ max_int
      → cpm ≤ max_int
      → slot ≤ max_int
      → iom ≤ max_int
      → mda ≤ max_int
      → lacks b'-' mac ≡ true
      → mac ≢ ""
      → P.parse_mac mac ≡ true
      → parse_chassis_str P (chassis_str chassis mac cpm slot iom mda)
        ≡ ok (record {
          chassis_type = pos chassis;
          base_mac = mac;
          cpm = pos cpm;
          slot = pos slot;
          card_type = pos iom;
          mda_type = pos mda;
        })
  unfolding parse_chassis_str chassis_str
  parse_chassis_str-chassis_str chassis mac cpm slot iom mda h0 h2 h3 h4 h5 lacks_dash full right =
      let free = NoSep-of_lacks b'-' mac lacks_dash in
      rw
        (
          fields_func-part b'-' hyphen (itoa chassis) _ refl (NoSep-itoa chassis)
              (itoa-ne-empty chassis),
          fields_func-part b'-' hyphen mac _ refl free full,
          fields_func-part b'-' hyphen (itoa cpm) _ refl (NoSep-itoa cpm) (itoa-ne-empty cpm),
          fields_func-part b'-' hyphen (itoa slot) _ refl (NoSep-itoa slot) (itoa-ne-empty slot),
          fields_func-part b'-' hyphen (itoa iom) _ refl (NoSep-itoa iom) (itoa-ne-empty iom),
          fields_func-last b'-' (itoa mda) (NoSep-itoa mda) (itoa-ne-empty mda),
        )
        (parse_fields_ok (itoa chassis) mac (itoa cpm) (itoa slot) (itoa iom) (itoa mda) _ _ _ _ _
          (atoi-itoa chassis h0) (atoi-itoa cpm h2) (atoi-itoa slot h3) (atoi-itoa iom h4)
          (atoi-itoa mda h5) right)
