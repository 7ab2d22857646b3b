-- ===== src/Text/Decimal.antt =====
-- Printing a number in decimal and reading it back.
use Prim.Native.Char.{code}
use Prim.Native.String.{[], ◌∷◌}
use mathlib.Core.Option.{some-injective}
use knl.Common.{
  Bool-cases, inl, inr, ℕ, zero, suc, ◌+◌, ◌-◌, ◌*◌, ◌/◌, ◌%◌, ◌≤◌, ◌<◌, ◌≡◌, refl, String, true,
  some, arith, eqb, pos, all_below, all_below_sound, eqb→eq, le→leb, ne→eqb, sym, ap, ◌∙◌,
}
use knl.Text.{digit, emit, itoa, scan, atoi, max_int}

digit_table : all_below 10 (λ d. eqb (code (digit d)) (b'0' + d)) ≡ true
unfolding digit all_below
digit_table = refl

pub code-digit : (d : ℕ) → d < 10 → code (digit d) ≡ b'0' + d
code-digit d h = eqb→eq _ _ (all_below_sound 10 _ d digit_table h)

scan-digit : (d n : ℕ) (out : String) → d < 10 → scan (digit d ∷ out) n ≡ scan out (n * 10 + d)
unfolding scan
scan-digit d n out h =
    let same : b'0' + d - b'0' ≡ d = omega arith in
    rw (
      code-digit d h,
      le→leb b'0' (b'0' + d) (omega arith),
      le→leb (b'0' + d) b'9' (omega arith),
      same,
    )

-- Reading the digits of `n` and then `out` is reading `out` behind `n`.
scan-emit : (f n : ℕ) (out : String) → n ≤ f → scan (emit 10 f n out) 0 ≡ scan out n
unfolding emit
scan-emit zero n out h = let e : n ≡ 0 = omega arith in rw e
scan-emit (suc f) n out h =
    ground (arith, scan-emit f (n / 10) (digit (n % 10) ∷ out), scan-digit (n % 10) (n / 10) out)

-- A text that starts with a decimal digit.
abbrev pub StartsDigit : String → Type 0
StartsDigit [] = ⊥
StartsDigit (c ∷ s) = (b'0' ≤ code c) × (code c ≤ b'9')

StartsDigit-digit : (d : ℕ) (out : String) → d < 10 → StartsDigit (digit d ∷ out)
StartsDigit-digit d out h = rw (code-digit d h) (omega arith)

StartsDigit-emit : (f n : ℕ) (out : String) → StartsDigit out → StartsDigit (emit 10 f n out)
unfolding emit
StartsDigit-emit zero n out h = h
StartsDigit-emit (suc f) n out h = elim (Bool-cases (eqb n 0)) [
  | inl e ↦ rw e h
  | inr e ↦ rw e (
      StartsDigit-emit f (n / 10) (digit (n % 10) ∷ out)
        (StartsDigit-digit (n % 10) out (omega arith)))
]

pub StartsDigit-itoa : (n : ℕ) → StartsDigit (itoa n)
unfolding itoa
StartsDigit-itoa zero = omega arith
StartsDigit-itoa (suc n) =
    rw (ne→eqb (suc n) 0 (omega arith))
      (StartsDigit-emit n (suc n / 10) _ (StartsDigit-digit (suc n % 10) "" (omega arith)))

atoi_of_StartsDigit :
    (s : String) (n : ℕ) → StartsDigit s → scan s 0 ≡ some n → n ≤ max_int → atoi s ≡ some (pos n)
unfolding atoi
atoi_of_StartsDigit [] n h e m = absurd h
atoi_of_StartsDigit (c ∷ s) n h e m =
    rw (
      e,
      ne→eqb (code c) b'-' (omega arith),
      ne→eqb (code c) b'+' (omega arith),
      le→leb n max_int m,
    )

pub scan-itoa : (n : ℕ) → scan (itoa n) 0 ≡ some n
unfolding itoa scan
scan-itoa zero = refl
scan-itoa (suc n) = rw (ne→eqb (suc n) 0 (omega arith)) (
    scan-emit n (suc n / 10) (digit (suc n % 10) ∷ "") (omega arith)
    ∙ scan-digit (suc n % 10) (suc n / 10) "" (omega arith)
    ∙ ap some (omega arith))

-- Every `int` that is not negative is read back from its decimal print.
pub atoi-itoa : (n : ℕ) → n ≤ max_int → atoi (itoa n) ≡ some (pos n)
atoi-itoa n h = atoi_of_StartsDigit (itoa n) n (StartsDigit-itoa n) (scan-itoa n) h

-- Different numbers print differently.
pub itoa_inj : (m n : ℕ) → itoa m ≡ itoa n → m ≡ n
itoa_inj m n h = some-injective m n (sym (scan-itoa m) ∙ ap (λ s. scan s 0) h ∙ scan-itoa n)
