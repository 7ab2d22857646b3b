-- ===== src/Text.antt =====
-- What the program uses of Go's `strings`, `strconv` and `fmt`, over ASCII texts: lower case,
-- trimming, splitting, decimal and hexadecimal print, and `strconv.Atoi`.
pub mod Decimal
pub mod Split
use Prim.Native.Char.{Char, code}
use Prim.Native.String.{[], ◌∷◌, char_at}
use knl.Common.{
  ℕ, zero, suc, ◌+◌, ◌-◌, ◌*◌, ◌/◌, ◌%◌, ◌^◌, String, Bool, true, false, ◌&&◌, ◌||◌, Option, none,
  some, List, ltb, leb, eqb, ◌==◌, if◌then◌else◌, ℤ, pos, negsuc,
}

-- the code points of a text: its bytes, as it is ASCII
abbrev pub codes : String → List ℕ
codes [] = List.[]
codes (c ∷ s) = List.◌∷◌ (code c) (codes s)

to_lower_char : Char → Char
to_lower_char c =
    if leb b'A' (code c) && leb (code c) b'Z'
    then char_at "abcdefghijklmnopqrstuvwxyz" (code c - b'A')
    else c

-- `strings.ToLower`
unfoldable pub to_lower : String → String
unfolding to_lower_char
to_lower [] = ""
to_lower (c ∷ s) = to_lower_char c ∷ to_lower s

-- `unicode.IsSpace`, in ASCII
is_space : Char → Bool
is_space c = (leb 9 (code c) && leb (code c) 13) || eqb (code c) 32

trim_left : String → String
trim_left [] = ""
trim_left (c ∷ s) = elim (is_space c) [ true ↦ trim_left s | false ↦ c ∷ s ]

trim_right : String → String
trim_right [] = ""
trim_right (c ∷ s) = let rest = trim_right s in if is_space c && rest == "" then "" else c ∷ rest

-- `strings.TrimSpace`
unfoldable pub trim_space : String → String
unfolding is_space trim_left trim_right
trim_space s = trim_right (trim_left s)

unfoldable pub push_front : Char → List String → List String
push_front c List.[] = List.◌∷◌ (c ∷ "") List.[]
push_front c (List.◌∷◌ p ps) = List.◌∷◌ (c ∷ p) ps

-- the parts of a text between the characters that a test picks
unfoldable pub split_by : (Char → Bool) → String → List String
unfolding push_front
split_by sep [] = List.◌∷◌ "" List.[]
split_by sep (c ∷ s) =
    let rest = split_by sep s in if sep c then List.◌∷◌ "" rest else push_front c rest

-- `strings.Split(s, sep)` for a separator of one byte
unfoldable pub split : ℕ → String → List String
unfolding split_by
split sep s = split_by (λ c. eqb (code c) sep) s

unfoldable pub drop_empty : List String → List String
drop_empty List.[] = List.[]
drop_empty (List.◌∷◌ p ps) = let rest = drop_empty ps in if p == "" then rest else List.◌∷◌ p rest

-- `strings.FieldsFunc(s, func(c rune) bool { return c == sep })`
unfoldable pub fields_func : ℕ → String → List String
unfolding split drop_empty
fields_func sep s = drop_empty (split sep s)

-- `strings.Fields`
unfoldable pub fields : String → List String
unfolding split_by drop_empty is_space
fields s = drop_empty (split_by is_space s)

-- `strings.CutPrefix(s, prefix)`; `none` if the prefix is not there
unfoldable pub cut_prefix : String → String → Option String
cut_prefix s [] = some s
cut_prefix [] (d ∷ p) = none
cut_prefix (c ∷ s) (d ∷ p) =
    let rest = cut_prefix s p in if eqb (code c) (code d) then rest else none

-- the digits of `fmt`, `strconv` and `math/big`, for the bases up to 62
unfoldable pub digit : ℕ → Char
digit d = char_at "0123456789abcdefghijklmnopqrstuvwxyzABCDEFGHIJKLMNOPQRSTUVWXYZ" d

-- the digits of `n` in front of `out`; each round divides by the base, so `n` rounds are enough
unfoldable pub emit : ℕ → ℕ → ℕ → String → String
unfolding digit
emit base zero n out = out
emit base (suc f) n out =
    let rest = emit base f (n / base) (digit (n % base) ∷ out) in if eqb n 0 then out else rest

-- `strconv.Itoa` and `%d`, for a number that is not negative
unfoldable pub itoa : ℕ → String
unfolding emit
itoa n = if eqb n 0 then "0" else emit 10 n n ""

-- the number that decimal digits spell behind `n`
unfoldable pub scan : String → ℕ → Option ℕ
scan [] n = some n
scan (c ∷ s) n =
    let rest = scan s (n * 10 + (code c - b'0')) in
    if leb b'0' (code c) && leb (code c) b'9' then rest else none

-- one digit at least
unfoldable pub scan_digits : String → Option ℕ
unfolding scan
scan_digits [] = none
scan_digits (c ∷ s) = scan (c ∷ s) 0

abbrev pub max_int : ℕ
max_int = 2 ^ 63 - 1

in_range_pos : Option ℕ → Option ℤ
in_range_pos none = none
in_range_pos (some n) = if leb n max_int then some (pos n) else none

in_range_neg : Option ℕ → Option ℤ
in_range_neg none = none
in_range_neg (some zero) = some (pos 0)
in_range_neg (some (suc n)) = if leb n max_int then some (negsuc n) else none

-- `strconv.Atoi`: an optional sign and digits, in the range of `int`; `none` is an error
unfoldable pub atoi : String → Option ℤ
unfolding scan_digits in_range_pos in_range_neg
atoi [] = none
atoi (c ∷ s) =
    if eqb (code c) b'-'
    then in_range_neg (scan_digits s)
    else if eqb (code c) b'+'
    then in_range_pos (scan_digits s)
    else in_range_pos (scan_digits (c ∷ s))
