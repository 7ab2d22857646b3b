-- ===== src/Alloc/Complete.antt =====
-- An allocation fails only for want of free numbers.
use native.Mathlib.Nat.{zero-add, add-zero}
use knl.Common.{
  ℕ, zero, suc, ◌+◌, ◌-◌, ◌≤◌, ◌<◌, ◌≡◌, refl, Bool, true, false, ◌||◌, Option, none, some, List,
  [], ◌∷◌, arith, ltb, eqb, if◌then◌else◌, ok, All, Option-cases, ltb→lt, is_nil, Bool-cases, inl,
  inr,
}
use knl.Alloc.{take_clear, mark_vnis, get_available_vnis, max_vni}
use knl.Alloc.Bits.{BitSet, IsLawful}
use knl.Alloc.Taken.{vni_in_use, size-set-le, mark_vnis-marks}

-- How many of the `k` numbers from `lo` on fail a test.
pub count_free : (ℕ → Bool) → ℕ → ℕ → ℕ
count_free used lo zero = 0
count_free used lo (suc k) =
    let rest = count_free used (lo + 1) k in if used lo then rest else suc rest

count_free-eq :
    (p q : ℕ → Bool) (lo k : ℕ)
    → ((x : ℕ) → lo ≤ x → p x ≡ q x)
    → count_free p lo k ≡ count_free q lo k
unfolding count_free
count_free-eq p q lo zero h = refl
count_free-eq p q lo (suc k) h =
    ground (arith, h lo, count_free-eq p q (lo + 1) k (λ x le. h x (omega arith)))

-- Numbers that are all in use can be skipped.
count_free-skip :
    (used : ℕ → Bool) (d lo k : ℕ)
    → ((x : ℕ) → lo ≤ x → x < lo + d → used x ≡ true)
    → count_free used lo (d + k) ≡ count_free used (lo + d) k
unfolding count_free
count_free-skip used zero lo k h = rw (zero-add, add-zero)
count_free-skip used (suc d) lo k h =
    let e : suc d + k ≡ suc (d + k) = omega arith in
    let g : lo + suc d ≡ lo + 1 + d = omega arith in
    rw (e, g, h lo (omega arith) (omega arith))
      (count_free-skip used d (lo + 1) k (λ x a b. h x (omega arith) (omega arith)))

count_free-none :
    (used : ℕ → Bool) (lo k : ℕ)
    → ((x : ℕ) → lo ≤ x → x < lo + k → used x ≡ true)
    → count_free used lo k ≡ 0
unfolding count_free
count_free-none used lo zero h = refl
count_free-none used lo (suc k) h =
    rw (h lo (omega arith) (omega arith))
      (count_free-none used (lo + 1) k (λ x a b. h x (omega arith) (omega arith)))

pub count_free-hit :
    (used : ℕ → Bool) (lo k : ℕ)
    → used lo ≡ false
    → count_free used lo (suc k) ≡ suc (count_free used (lo + 1) k)
unfolding count_free
count_free-hit used lo k h = rw h

-- The number 0 is reserved.
count_free_from_one :
    (p q : ℕ → Bool) (k : ℕ)
    → ((x : ℕ) → p x ≡ (eqb 0 x || q x))
    → count_free p 0 (suc k) ≡ count_free q 1 k
unfolding count_free
count_free_from_one p q k h =
    ground (arith, h 0, count_free-eq p q 1 k (λ x le. ground (arith, h x)))

module _ (B : BitSet) (L : IsLawful B) where
  -- The first clear bit found is below the bound, and leaves one clear bit fewer.
  found_in_range :
      (bound : ℕ) (b : B.Bits) (n next x : ℕ)
      → B.next_clear b next ≡ some x
      → suc n ≤ count_free (B.test b) next (bound - next)
      → (x < bound) × (n ≤ count_free (B.test b) (x + 1) (bound - (x + 1)))
  found_in_range bound b n next x e h = elim (Bool-cases (ltb x bound)) [
    | inr over ↦ absurd (
        omega (
          arith,
          count_free-none (B.test b) next (bound - next)
              (λ k p q. L.next_first b next x k e p (ground arith)),
        ))
    | inl lt ↦
        let below : x < bound = ltb→lt x bound lt in
        let (from, _, clear) = L.next_some b next x e in
        let skip =
          count_free-skip (B.test b) (x - next) next (suc (bound - (x + 1)))
            (λ k p q. L.next_first b next x k e p (omega arith)) in
        let hit = count_free-hit (B.test b) x (bound - (x + 1)) clear in
        let span : (x - next) + suc (bound - (x + 1)) ≡ bound - next = omega arith in
        let to_x : next + (x - next) ≡ x = omega arith in
        (below, omega (arith, rw (span, to_x) at skip, hit))
  ]

  -- With enough clear bits below `bound` the loop returns.
  take_clear_complete :
      (limit bound : ℕ) (b : B.Bits) (n next : ℕ)
      → bound ≤ limit + 1
      → bound ≤ B.size b
      → n ≤ count_free (B.test b) next (bound - next)
      → (l : List ℕ) × (take_clear B limit b n next ≡ ok l)
  unfolding take_clear
  take_clear_complete limit bound b zero next hl hs h = ([], refl)
  take_clear_complete limit bound b (suc n) next hl hs h =
      elim (Option-cases (B.next_clear b next)) [
        | inl e ↦ absurd (
            omega (
              arith,
              count_free-none (B.test b) next (bound - next)
                  (λ x p q. L.next_none b next x e p (omega arith)),
            ))
        | inr (x, e) ↦
            let (below, enough) = found_in_range bound b n next x e h in
            let (rest, er) = take_clear_complete limit bound b n (x + 1) hl hs enough in
            (x ∷ rest, ground arith)
      ]

  mark_vnis_total :
      (lans : List (Option ℕ)) (b : B.Bits)
      → All (λ o. is_nil o ≡ false) lans
      → (c : B.Bits) × (mark_vnis B b lans ≡ ok c)
  unfolding mark_vnis
  mark_vnis_total [] b h = (b, refl)
  mark_vnis_total (none ∷ lans) b h = absurd (ground arith)
  mark_vnis_total (some v ∷ lans) b h = mark_vnis_total lans (B.set b v) h.1

  -- `GetAvailableVNIs` succeeds if every listed LAN has a VNI and enough of the numbers 1 to 16777214
  -- are the VNI of none of them. The bit set follows its laws.
  pub get_available_vnis_complete :
      (lans : List (Option ℕ)) (n : ℕ)
      → All (λ o. is_nil o ≡ false) lans
      → n ≤ count_free (λ v. vni_in_use v lans) 1 (max_vni - 1)
      → (l : List ℕ) × (get_available_vnis B (ok lans) n ≡ ok l)
  unfolding get_available_vnis
  get_available_vnis_complete lans n h enough =
      let start = B.set (B.new max_vni) 0 in
      let (b, eb) = mark_vnis_total lans start h in
      let (sizes, bits) = mark_vnis-marks B L lans start b eb in
      let large : max_vni ≤ B.size b =
        omega (arith, sizes, size-set-le B L (B.new max_vni) 0, L.size-new max_vni) in
      let same =
        count_free_from_one (B.test b) (λ v. vni_in_use v lans) (max_vni - 1)
          (λ k. ground (arith, bits k, L.test-set (B.new max_vni) 0 k, L.test-new max_vni k)) in
      rw eb (
        take_clear_complete max_vni max_vni b n 0 (omega arith) large (omega (arith, same, enough)))
