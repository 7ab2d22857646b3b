-- ===== src/Mac/Derive.antt =====
-- The addresses that `DeriveMac` gives.
use knl.Common.{ℕ, ◌+◌, ◌*◌, ◌%◌, ◌^◌, ◌<◌, ◌≡◌, refl, List, [], ◌∷◌, arith, ok, length, All}
use knl.Mac.{HardwareAddr, derive_mac}

abbrev value_from : ℕ → List ℕ → ℕ
value_from n [] = n
value_from n (b ∷ bs) = value_from (n * 256 + b) bs

-- an address as a number
abbrev pub mac_value : HardwareAddr → ℕ
mac_value = value_from 0

-- six bytes
abbrev pub IsMac48 : HardwareAddr → Type 0
IsMac48 m = (length m ≡ 6) × All (λ b. b < 256) m

derive_six :
    (a b c d e f offset : ℕ)
    → let base : HardwareAddr = a ∷ b ∷ c ∷ d ∷ e ∷ f ∷ [] in
      All (λ x. x < 256) base
      → (m : HardwareAddr) × (derive_mac base offset ≡ ok m)
        × IsMac48 m
        × (mac_value m ≡ (mac_value base + offset) % 2 ^ 48)
unfolding derive_mac
derive_six a b c d e f offset h = (_, refl, omega arith, omega arith)

abbrev pub Six : HardwareAddr → Type 0
Six m = (a : ℕ) × (b : ℕ) × (c : ℕ) × (d : ℕ) × (e : ℕ) × (f : ℕ) × (m ≡ a ∷ b ∷ c ∷ d ∷ e ∷ f ∷ [])

pub of_length : (m : HardwareAddr) → length m ≡ 6 → Six m
of_length (a ∷ b ∷ c ∷ d ∷ e ∷ f ∷ []) l = (a, b, c, d, e, f, refl)
of_length [] l = absurd (omega arith)
of_length (_ ∷ []) l = absurd (omega arith)
of_length (_ ∷ _ ∷ []) l = absurd (omega arith)
of_length (_ ∷ _ ∷ _ ∷ []) l = absurd (omega arith)
of_length (_ ∷ _ ∷ _ ∷ _ ∷ []) l = absurd (omega arith)
of_length (_ ∷ _ ∷ _ ∷ _ ∷ _ ∷ []) l = absurd (omega arith)
of_length (_ ∷ _ ∷ _ ∷ _ ∷ _ ∷ _ ∷ _ ∷ _) l = absurd (omega arith)

-- From a base of six bytes `DeriveMac` never panics: it gives six bytes, which are the base plus the
-- offset, modulo 2^48, as big-endian numbers.
pub derive_mac_value :
    (base : HardwareAddr) (offset : ℕ)
    → IsMac48 base
    → (m : HardwareAddr) × (derive_mac base offset ≡ ok m)
      × IsMac48 m
      × (mac_value m ≡ (mac_value base + offset) % 2 ^ 48)
derive_mac_value base offset (l, h) =
    let (a, b, c, d, e, f, p) = of_length base l in rw p (derive_six a b c d e f offset (rw p at h))

-- Two offsets below 2^48 that give one address from one base of six bytes are equal.
pub derive_mac_inj :
    (base : HardwareAddr) (i j : ℕ)
    → IsMac48 base
    → i < 2 ^ 48
    → j < 2 ^ 48
    → derive_mac base i ≡ derive_mac base j
    → i ≡ j
derive_mac_inj base i j h hi hj e =
    let (m, em, _, vm) = derive_mac_value base i h in
    let (n, en, _, vn) = derive_mac_value base j h in
    let same : mac_value m ≡ mac_value n = ground (arith, em, en, e) in omega arith
