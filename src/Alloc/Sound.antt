-- ===== src/Alloc/Sound.antt =====
-- What a successful allocation returns.
use knl.Common.{
  ℕ, zero, suc, ◌+◌, ◌≤◌, ◌≡◌, String, Bool, false, ◌||◌, Option, List, [], ◌∷◌, arith, eqb, ok,
  length, All, >>=-eq-ok, Option-cases, Result-cases, inl, inr,
}
use knl.Alloc.{
  take_clear, mark_vnis, mark_labels, get_available_vnis, get_available_br_index, max_vni,
  max_bridge_index,
}
use knl.Alloc.Bits.{BitSet, IsLawful}
use knl.Alloc.Taken.{vni_in_use, index_in_use, mark_vnis-marks, mark_labels-marks}

-- The numbers rise strictly, from `lo` on; so no two are equal.
abbrev pub Ascending : ℕ → List ℕ → Type 0
Ascending lo [] = Unit
Ascending lo (x ∷ xs) = (lo ≤ x) × Ascending (suc x) xs

module _ (B : BitSet) (L : IsLawful B) where
  -- a number that the loop may return
  record IsFree (limit : ℕ) (b : B.Bits) (x : ℕ) : Type 0 where
    pub within : x ≤ limit
    pub clear : B.test b x ≡ false

  take_clear_sound :
      (limit : ℕ) (b : B.Bits) (n next : ℕ) (l : List ℕ)
      → take_clear B limit b n next ≡ ok l
      → (length l ≡ n) × Ascending next l × All (IsFree limit b) l
  unfolding take_clear
  take_clear_sound limit b zero next l h = ground arith
  take_clear_sound limit b (suc n) next l h = elim (Option-cases (B.next_clear b next)) [
    | inl e ↦ absurd (ground arith)
    | inr (x, e) ↦ elim (Result-cases (take_clear B limit b n (x + 1))) [
      | inl (rest, er) ↦
          let (a, s, f) = take_clear_sound limit b n (x + 1) rest er in
          ground (arith, L.next_some b next x e, a, s, f)
      | inr bad ↦ absurd (ground arith)
    ]
  ]

  -- what is returned: positive, in range and not in use
  abbrev pub FreshIn : ℕ → (ℕ → Bool) → ℕ → Type 0
  FreshIn limit used x = (1 ≤ x) × (x ≤ limit) × (used x ≡ false)

  All-FreshIn :
      (limit : ℕ) (b : B.Bits) (used : ℕ → Bool) (l : List ℕ)
      → ((k : ℕ) → B.test b k ≡ (eqb 0 k || used k))
      → All (IsFree limit b) l
      → All (FreshIn limit used) l
  All-FreshIn limit b used [] bits f = tt
  All-FreshIn limit b used (x ∷ xs) bits (p, f) =
      (ground (arith, bits x), All-FreshIn limit b used xs bits f)

  start_bits : (n k : ℕ) → B.test (B.set (B.new n) 0) k ≡ (eqb 0 k || false)
  start_bits n k = ground (arith, L.test-set (B.new n) 0 k, L.test-new n k)

  -- A successful `GetAvailableVNIs` returns as many numbers as were asked for, rising strictly, each
  -- in 1 to 16777215 and the VNI of no listed LAN. The bit set follows its laws.
  pub get_available_vnis_sound :
      (lans : List (Option ℕ)) (n : ℕ) (l : List ℕ)
      → get_available_vnis B (ok lans) n ≡ ok l
      → (length l ≡ n) × Ascending 0 l × All (FreshIn max_vni (λ v. vni_in_use v lans)) l
  unfolding get_available_vnis
  get_available_vnis_sound lans n l h =
      let start = B.set (B.new max_vni) 0 in
      let (b, eb, el) = >>=-eq-ok (mark_vnis B start lans) (λ c. take_clear B max_vni c n 0) h in
      let (sizes, bits) = mark_vnis-marks B L lans start b eb in
      let (a, s, f) = take_clear_sound max_vni b n 0 l el in
      (a, s, All-FreshIn max_vni b _ l (λ k. ground (arith, bits k, start_bits max_vni k)) f)

  -- A successful `GetAvailableBrIndex` returns as many numbers as were asked for, rising strictly,
  -- each in 1 to 16777215 and in no listed bridge label. The bit set follows its laws.
  pub get_available_br_index_sound :
      (nads : List (Option String)) (n : ℕ) (l : List ℕ)
      → get_available_br_index B (ok nads) n ≡ ok l
      → (length l ≡ n) × Ascending 0 l × All (FreshIn max_bridge_index (λ i. index_in_use i nads)) l
  unfolding get_available_br_index
  get_available_br_index_sound nads n l h =
      let start = B.set (B.new max_bridge_index) 0 in
      let (b, eb, el) =
        >>=-eq-ok (mark_labels B start nads) (λ c. take_clear B max_bridge_index c n 0) h in
      let (sizes, bits) = mark_labels-marks B L nads start b eb in
      let (a, s, f) = take_clear_sound max_bridge_index b n 0 l el in
      (
        a,
        s,
        All-FreshIn max_bridge_index b _ l
            (λ k. ground (arith, bits k, start_bits max_bridge_index k)) f,
      )
