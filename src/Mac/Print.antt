-- ===== src/Mac/Print.antt =====
-- What `HardwareAddr.String` prints, `net.ParseMAC` reads back.
use Prim.Native.Char.{code}
use Prim.Native.String.{[], ◌∷◌}
use mathlib.Core.Option.{some-injective}
use knl.Common.{
  ℕ, ◌/◌, ◌%◌, ◌<◌, ◌≡◌, refl, ◌∙◌, sym, ap, Bool, true, false, Option, none, some, List, [], ◌∷◌,
  arith, eqb, All, all_below, all_below_sound,
}
use knl.Text.{codes, digit}
use knl.Mac.{HardwareAddr, hex_value, join_nibbles, hex_pairs, parse_mac, print_rest, mac_string}
use knl.Mac.Derive.{IsMac48, of_length}

nibbles : ℕ → Option ℕ
nibbles b = join_nibbles (hex_value (code (digit (b / 16)))) (hex_value (code (digit (b % 16))))

abbrev is_some_of : Option ℕ → ℕ → Bool
is_some_of none n = false
is_some_of (some m) n = eqb m n

nibbles_table : all_below 256 (λ b. is_some_of (nibbles b) b) ≡ true
unfolding nibbles all_below join_nibbles hex_value digit
nibbles_table = refl

is_some_of_sound : (o : Option ℕ) (n : ℕ) → is_some_of o n ≡ true → o ≡ some n
is_some_of_sound o n h = ground arith

byte-read :
    (b : ℕ)
    → b < 256
    → join_nibbles (hex_value (code (digit (b / 16)))) (hex_value (code (digit (b % 16)))) ≡ some b
unfolding nibbles
byte-read b h = is_some_of_sound (nibbles b) b (all_below_sound 256 _ b nibbles_table h)

hex_pairs-print :
    (b : ℕ) (bs : List ℕ)
    → b < 256
    → All (λ x. x < 256) bs
    → hex_pairs b':' (code (digit (b / 16)) ∷ code (digit (b % 16)) ∷ codes (print_rest bs))
      ≡ some (b ∷ bs)
unfolding hex_pairs print_rest
hex_pairs-print b [] h _ = rw (byte-read b h)
hex_pairs-print b (c ∷ cs) h (hc, hs) = rw (hex_pairs-print c cs hc hs, byte-read b h)

print_six :
    (a b c d e f : ℕ)
    → let m : HardwareAddr = a ∷ b ∷ c ∷ d ∷ e ∷ f ∷ [] in
      All (λ x. x < 256) m → parse_mac (mac_string m) ≡ some m
unfolding parse_mac mac_string
print_six a b c d e f h = rw (hex_pairs-print a (b ∷ c ∷ d ∷ e ∷ f ∷ []) h.0 h.1)

-- Six bytes are read back from their print.
pub parse_mac-mac_string : (m : HardwareAddr) → IsMac48 m → parse_mac (mac_string m) ≡ some m
parse_mac-mac_string m (l, h) =
    let (a, b, c, d, e, f, p) = of_length m l in rw p (print_six a b c d e f (rw p at h))

-- Two addresses of six bytes that print alike are equal.
pub mac_string_inj :
    (m n : HardwareAddr) → IsMac48 m → IsMac48 n → mac_string m ≡ mac_string n → m ≡ n
mac_string_inj m n hm hn e =
    some-injective m n
      (sym (parse_mac-mac_string m hm) ∙ ap parse_mac e ∙ parse_mac-mac_string n hn)
