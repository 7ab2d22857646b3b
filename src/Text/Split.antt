-- ===== src/Text/Split.antt =====
-- Splitting a text that was joined from parts without the separator.
use Prim.Native.Char.{code, Char}
use Prim.Native.String.{[], ◌∷◌}
use Prim.Native.String.append
use knl.Common.{
  ℕ, zero, suc, ◌/◌, ◌%◌, ◌≡◌, ◌≢◌, refl, ap, String, ◌<>◌, eq_iff, List, arith, eqb, Bool, true,
  not, ◌&&◌, ne→eqb, Bool-cases, inl, inr,
}
use knl.Text.{split_by, split, drop_empty, fields_func, push_front, emit, itoa, digit}
use knl.Text.Decimal.{code-digit}

-- No character of the text is the separator.
abbrev pub NoSep : ℕ → String → Type 0
NoSep sep [] = Unit
NoSep sep (c ∷ s) = (code c ≢ sep) × NoSep sep s

unfoldable pub lacks : ℕ → String → Bool
lacks sep [] = true
lacks sep (c ∷ s) = not (eqb (code c) sep) && lacks sep s

pub NoSep-of_lacks : (sep : ℕ) (s : String) → lacks sep s ≡ true → NoSep sep s
unfolding lacks
NoSep-of_lacks sep [] h = tt
NoSep-of_lacks sep (c ∷ s) h =
    (λ same. ground (arith, h, same), NoSep-of_lacks sep s (ground (arith, h)))

-- a part, in front of the separator and of more
split-part :
    (sep : ℕ) (c : Char) (part rest : String)
    → code c ≡ sep
    → NoSep sep part
    → split sep (part <> (c ∷ rest)) ≡ List.◌∷◌ part (split sep rest)
unfolding split split_by
split-part sep c [] rest here free =
    let t : eqb (code c) sep ≡ true = ground (arith, here) in
    rw (append.nil (c ∷ rest), split, t) refl
split-part sep c (d ∷ part) rest here (other, free) =
    rw (append.cons d part (c ∷ rest), split, ne→eqb (code d) sep other)
      (ap (push_front d) (split-part sep c part rest here free))

-- the last part
split-last : (sep : ℕ) (part : String) → NoSep sep part → split sep part ≡ List.◌∷◌ part List.[]
unfolding split split_by
split-last sep [] free = refl
split-last sep (d ∷ part) (other, free) =
    rw (ne→eqb (code d) sep other) (ap (push_front d) (split-last sep part free))

pub fields_func-part :
    (sep : ℕ) (c : Char) (part rest : String)
    → code c ≡ sep
    → NoSep sep part
    → part ≢ ""
    → fields_func sep (part <> (c ∷ rest)) ≡ List.◌∷◌ part (fields_func sep rest)
unfolding fields_func drop_empty
fields_func-part sep c part rest here free full =
    rw (split-part sep c part rest here free) (ground (arith, full, eq_iff part ""))

pub fields_func-last :
    (sep : ℕ) (part : String)
    → NoSep sep part
    → part ≢ ""
    → fields_func sep part ≡ List.◌∷◌ part List.[]
unfolding fields_func drop_empty
fields_func-last sep part free full =
    rw (split-last sep part free) (ground (arith, full, eq_iff part ""))

-- The digits of a number are free dash.
abbrev dash : ℕ
dash = b'-'

NoSep-emit : (f n : ℕ) (out : String) → NoSep dash out → NoSep dash (emit 10 f n out)
unfolding emit
NoSep-emit zero n out free = free
NoSep-emit (suc f) n out free = elim (Bool-cases (eqb n 0)) [
  | inl e ↦ rw e free
  | inr e ↦ rw e (
      NoSep-emit f (n / 10) (digit (n % 10) ∷ out)
        (rw (code-digit (n % 10) (omega arith)) (omega arith), free))
]

pub NoSep-itoa : (n : ℕ) → NoSep dash (itoa n)
unfolding itoa
NoSep-itoa n = elim (Bool-cases (eqb n 0)) [
  | inl e ↦ rw e ((λ h. absurd (omega arith)), tt)
  | inr e ↦ rw e (NoSep-emit n n "" tt)
]
