-- ===== src/Alloc/Taken.antt =====
-- Which bits are set when the allocation loop starts.
use knl.Common.{
  ℕ, ◌≤◌, ◌≡◌, String, Bool, false, ◌||◌, Option, none, some, List, [], ◌∷◌, arith, eqb, ok, ℤ,
  to_uint64, Option-cases, inl, inr,
}
use knl.Text.{atoi}
use knl.Alloc.{mark_vnis, mark_labels}
use knl.Alloc.Bits.{BitSet, IsLawful}

-- `v` is the VNI of a listed LAN.
abbrev pub vni_in_use : ℕ → List (Option ℕ) → Bool
vni_in_use v [] = false
vni_in_use v (none ∷ lans) = vni_in_use v lans
vni_in_use v (some vni ∷ lans) = eqb vni v || vni_in_use v lans

-- the bit that a label sets
abbrev pub label_is : ℕ → Option ℤ → Bool
label_is v none = false
label_is v (some i) = eqb (to_uint64 i) v

-- `v` is the number in a listed bridge label.
abbrev pub index_in_use : ℕ → List (Option String) → Bool
index_in_use v [] = false
index_in_use v (none ∷ nads) = index_in_use v nads
index_in_use v (some val ∷ nads) = label_is v (atoi val) || index_in_use v nads

module _ (B : BitSet) (L : IsLawful B) where
  pub size-set-le : (b : B.Bits) (i : ℕ) → B.size b ≤ B.size (B.set b i)
  size-set-le b i = rw L.size-set (ground arith)

  pub mark_vnis-marks :
      (lans : List (Option ℕ)) (b c : B.Bits)
      → mark_vnis B b lans ≡ ok c
      → (B.size b ≤ B.size c) × ((k : ℕ) → B.test c k ≡ (B.test b k || vni_in_use k lans))
  unfolding mark_vnis
  mark_vnis-marks [] b c h = (ground arith, λ k. ground arith)
  mark_vnis-marks (none ∷ lans) b c h = cc
  mark_vnis-marks (some v ∷ lans) b c h =
      let (sizes, bits) = mark_vnis-marks lans (B.set b v) c h in
      (omega (arith, size-set-le b v), λ k. ground (arith, bits k, L.test-set b v k))

  pub mark_labels-marks :
      (nads : List (Option String)) (b c : B.Bits)
      → mark_labels B b nads ≡ ok c
      → (B.size b ≤ B.size c) × ((k : ℕ) → B.test c k ≡ (B.test b k || index_in_use k nads))
  unfolding mark_labels
  mark_labels-marks [] b c h = (ground arith, λ k. ground arith)
  mark_labels-marks (none ∷ nads) b c h = mark_labels-marks nads b c h
  mark_labels-marks (some val ∷ nads) b c h = elim (Option-cases (atoi val)) [
    | inl e ↦ absurd (ground arith)
    | inr (i, e) ↦
        let (sizes, bits) = mark_labels-marks nads (B.set b (to_uint64 i)) c (ground arith) in
        (
          omega (arith, size-set-le b (to_uint64 i)),
          λ k. ground (arith, bits k, L.test-set b (to_uint64 i) k),
        )
  ]
