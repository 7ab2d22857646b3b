-- ===== src/Common/Results.antt =====
-- `(value, error)` results. A run that panics is an outcome of its own.
use mathlib.Core.Path.{◌≡◌, refl, ap}
use native.Mathlib.Omega.{arith}
use mathlib.Core.Bool.{Bool, true, false}
use mathlib.Core.Option.{Option, none, some}
use knl.Common.Tests.{if◌then◌else◌, is_nil}
use mathlib.Core.Logic.{◌⊎◌, inl, inr, ◌↔◌, ◌≢◌}

-- `ok` is a return with a nil error, `err` one with an error, and `panic` a run-time panic.
pub data Result {ℓ} (E : Type ℓ) (A : Type ℓ) : Type ℓ where
  ok : A → Result E A
  err : E → Result E A
  panic : Result E A

infixl 5 ◌>>=◌ ◌>>◌
abbrev pub ◌>>=◌ {ℓ} : {E A B : Type ℓ} → Result E A → (A → Result E B) → Result E B
ok a >>= f = f a
err e >>= f = err e
panic >>= f = panic

abbrev pub ◌>>◌ {ℓ} : {E A B : Type ℓ} → Result E A → Result E B → Result E B
m >> k = m >>= λ _. k

pub >>=-eq-ok {ℓ} :
    {E A B : Type ℓ} (first : Result E A) (next : A → Result E B) {y : B}
    → (first >>= next) ≡ ok y
    → (x : A) × (first ≡ ok x) × (next x ≡ ok y)
>>=-eq-ok (ok x) next done = (x, refl, done)
>>=-eq-ok (err e) next done = cc
>>=-eq-ok panic next done = cc

-- To split on a computed result and keep the equation.
pub Result-cases {ℓ} :
    {E A : Type ℓ} (r : Result E A)
    → ((a : A) × (r ≡ ok a)) ⊎ (((e : E) × (r ≡ err e)) ⊎ (r ≡ panic))
Result-cases (ok a) = inl (a, refl)
Result-cases (err e) = inr (inl (e, refl))
Result-cases panic = inr (inr refl)

-- Checks that run one after another, and the condition under which they succeed.
pub iff_trans {ℓ κ μ} : {A : Type ℓ} {B : Type κ} {C : Type μ} → A ↔ B → B ↔ C → A ↔ C
iff_trans (f, g) (h, k) = (λ a. h (f a), λ c. g (k c))

pub >>-iff {ℓ} :
    {E : Type 0} {P Q : Type ℓ} {m k : Result E Unit}
    → (m ≡ ok tt) ↔ P
    → (k ≡ ok tt) ↔ Q
    → ((m >> k) ≡ ok tt) ↔ (P × Q)
>>-iff {m = ok a} (f, g) (h, i) = (λ x. (f refl, h x), λ (p, q). i q)
>>-iff {m = err e} (f, g) h = (λ x. cc, λ (p, q). absurd (ground (arith, g p)))
>>-iff {m = panic} (f, g) h = (λ x. cc, λ (p, q). absurd (ground (arith, g p)))

pub >>-ne-panic {ℓ} : {E : Type ℓ} (m k : Result E Unit) → m ≢ panic → k ≢ panic → (m >> k) ≢ panic
>>-ne-panic (ok a) k p q = q
>>-ne-panic (err e) k p q = p
>>-ne-panic panic k p q = p

-- a guard that returns an error
pub guard_iff {ℓ} :
    {E : Type 0} {P Q : Type ℓ} (bad : Bool) (e : E) {k : Result E Unit}
    → (bad ≡ false) ↔ P
    → (k ≡ ok tt) ↔ Q
    → ((if bad then err e else k) ≡ ok tt) ↔ (P × Q)
guard_iff true e (f, g) h = (λ x. cc, λ (p, q). absurd (ground (arith, g p)))
guard_iff false e (f, g) (h, i) = (λ x. (f refl, h x), λ (p, q). i q)

-- the guard that comes last
pub last_guard_iff {ℓ} :
    {E : Type 0} {P : Type ℓ} (bad : Bool) (e : E)
    → (bad ≡ false) ↔ P
    → ((if bad then err e else ok tt) ≡ ok tt) ↔ P
last_guard_iff true e (f, g) = (λ x. cc, λ p. absurd (ground (arith, g p)))
last_guard_iff false e (f, g) = (λ x. f refl, λ p. refl)

pub is_nil_iff {ℓ} : {A : Type ℓ} (o : Option A) → (is_nil o ≡ false) ↔ (o ≢ none)
is_nil_iff none = (λ h. cc, λ h. absurd (h refl))
is_nil_iff (some a) = (λ h n. cc, λ h. refl)

pub >>=-ne-panic {ℓ} :
    {E A B : Type ℓ} (m : Result E A) (k : A → Result E B)
    → m ≢ panic
    → ((a : A) → m ≡ ok a → k a ≢ panic)
    → (m >>= k) ≢ panic
>>=-ne-panic (ok a) k p q = q a refl
>>=-ne-panic (err e) k p q = λ h. cc
>>=-ne-panic panic k p q = λ h. p refl

pub >>=-of-ok {ℓ} :
    {E A B : Type ℓ} {m : Result E A} (k : A → Result E B) {a : A} {r : Result E B}
    → m ≡ ok a
    → k a ≡ r
    → (m >>= k) ≡ r
>>=-of-ok k e h = rw e h

ok_or {ℓ} : {E A : Type ℓ} → A → Result E A → A
ok_or a (ok b) = b
ok_or a (err e) = a
ok_or a panic = a

pub ok_inj {ℓ} : {E A : Type ℓ} {a b : A} → ◌≡◌ {A = Result E A} (ok a) (ok b) → a ≡ b
unfolding ok_or
ok_inj {a = a} h = ap (ok_or a) h
