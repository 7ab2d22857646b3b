-- ===== src/Alloc/Bits.antt =====
-- The bit set of github.com/bits-and-blooms/bitset, as the program relies on it, and a plain bit
-- set that behaves so.
use knl.Common.{
  ℕ, zero, suc, ◌+◌, ◌-◌, ◌≤◌, ◌<◌, ◌≡◌, refl, Bool, true, false, ◌||◌, Option, none, some, List,
  [], ◌∷◌, arith, ltb, eqb, if◌then◌else◌,
}

pub record BitSet : Type 1 where
  pub Bits : Type 0
  pub new : ℕ → Bits
  pub set : Bits → ℕ → Bits
  pub next_clear : Bits → ℕ → Option ℕ
  -- observers, by which the laws speak
  pub test : Bits → ℕ → Bool
  pub size : Bits → ℕ

-- What the library documents: `New(n)` has `n` clear bits, `Set` sets one bit and grows the set to
-- hold it, and `NextClear(i)` finds the first clear bit of the set from `i` on, if there is one.
pub record IsLawful (B : BitSet) : Type 0 where
  pub test-new : (n k : ℕ) → B.test (B.new n) k ≡ false
  pub size-new : (n : ℕ) → B.size (B.new n) ≡ n
  pub test-set : (b : B.Bits) (i k : ℕ) → B.test (B.set b i) k ≡ (eqb i k || B.test b k)
  pub size-set :
      (b : B.Bits) (i : ℕ) → B.size (B.set b i) ≡ (if ltb i (B.size b) then B.size b else i + 1)
  pub next_some :
      (b : B.Bits) (i j : ℕ)
      → B.next_clear b i ≡ some j
      → (i ≤ j) × (j < B.size b) × (B.test b j ≡ false)
  pub next_first :
      (b : B.Bits) (i j k : ℕ) → B.next_clear b i ≡ some j → i ≤ k → k < j → B.test b k ≡ true
  pub next_none :
      (b : B.Bits) (i k : ℕ) → B.next_clear b i ≡ none → i ≤ k → k < B.size b → B.test b k ≡ true

-- A bit set as the list of its set bits.
pub record ListBits : Type 0 where
  pub count : ℕ
  pub on : List ℕ

contains : ℕ → List ℕ → Bool
contains k [] = false
contains k (x ∷ xs) = eqb x k || contains k xs

-- the first clear bit among the `fuel` ones from `i` on
search_clear : List ℕ → ℕ → ℕ → Option ℕ
search_clear on zero i = none
search_clear on (suc fuel) i = elim (contains i on) [
  | true ↦ search_clear on fuel (i + 1)
  | false ↦ some i
]

unfoldable pub list_bits : BitSet
unfolding search_clear contains
list_bits = record {
  Bits = ListBits;
  new = λ n. record { count = n; on = [] };
  set = λ b i. record { count = if ltb i b.count then b.count else i + 1; on = i ∷ b.on };
  next_clear = λ b i. search_clear b.on (b.count - i) i;
  test = λ b k. contains k b.on;
  size = λ b. b.count;
}

search_some :
    (on : List ℕ) (fuel i j : ℕ)
    → search_clear on fuel i ≡ some j
    → (i ≤ j) × (j < i + fuel) × (contains j on ≡ false)
unfolding search_clear
search_some on zero i j h = cc
search_some on (suc fuel) i j h = ground (arith, search_some on fuel (i + 1) j)

search_first :
    (on : List ℕ) (fuel i j k : ℕ)
    → search_clear on fuel i ≡ some j
    → i ≤ k
    → k < j
    → contains k on ≡ true
unfolding search_clear
search_first on zero i j k h p q = cc
search_first on (suc fuel) i j k h p q = ground (arith, search_first on fuel (i + 1) j k)

search_none :
    (on : List ℕ) (fuel i k : ℕ)
    → search_clear on fuel i ≡ none
    → i ≤ k
    → k < i + fuel
    → contains k on ≡ true
unfolding search_clear
search_none on zero i k h p q = absurd (omega arith)
search_none on (suc fuel) i k h p q = ground (arith, search_none on fuel (i + 1) k)

pub list_bits-IsLawful : IsLawful list_bits
unfolding list_bits
list_bits-IsLawful = record {
  test-new = λ n k. refl;
  size-new = λ n. refl;
  test-set = λ b i k. refl;
  size-set = λ b i. refl;
  next_some = λ b i j h. ground (arith, search_some b.on (b.count - i) i j h);
  next_first = λ b i j k h. search_first b.on (b.count - i) i j k h;
  next_none = λ b i k h p q. search_none b.on (b.count - i) i k h p (omega arith);
}
