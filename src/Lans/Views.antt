-- ===== src/Lans/Views.antt =====
-- LANs of a cluster with distinct VNIs, and what adding one LAN does.
use knl.Common.{
  ℕ, suc, ◌<◌, ◌≡◌, ◌≢◌, sym, ◌∙◌, ◌⊎◌, inl, inr, arith, String, ◌==◌, eq_iff, Bool-cases, Option,
  some, List, [], ◌∷◌, All, All-map,
}
use knl.Alloc.Sound.{Ascending}
use knl.Cluster.Interface.{Client}
use knl.Lans.{Lan, LanSpec}
use knl.Lans.Ensure.{first, after_first}

abbrev pub next_bound : ℕ → List ℕ → ℕ
next_bound lo [] = lo
next_bound lo (v ∷ vnis) = suc v

module _ (C : Client LanSpec) where
  -- No two LANs of the cluster have one VNI.
  unfoldable pub UniqueVnis : C.St → Type 0
  UniqueVnis st =
      (m n m' n' : String) (o o' : Lan) (vni : ℕ)
      → C.view st m n ≡ some o
      → C.view st m' n' ≡ some o'
      → o.body.vni ≡ some vni
      → o'.body.vni ≡ some vni
      → (m ≡ m') × (n ≡ n')

  -- no LAN of the cluster has the VNI
  abbrev pub IsUnused : C.St → ℕ → Type 0
  IsUnused st vni = (m n : String) (o : Lan) → C.view st m n ≡ some o → o.body.vni ≢ some vni

  abbrev pub SameView : C.St → C.St → Type 0
  SameView st st' = (m n : String) → C.view st' m n ≡ C.view st m n

  -- one LAN was added, whose VNI is the one given
  abbrev pub AddsLan : C.St → C.St → Option ℕ → Type 0
  AddsLan st st' vni =
      (m : String) × (n : String) × (o : Lan) × (o.body.vni ≡ vni)
      × (C.view st' m n ≡ some o)
      × ((m' n' : String) → ((m' ≡ m) × (n' ≡ n) → ⊥) → C.view st' m' n' ≡ C.view st m' n')

  pub SameView-UniqueVnis : (st st' : C.St) → SameView st st' → UniqueVnis st → UniqueVnis st'
  unfolding UniqueVnis
  SameView-UniqueVnis st st' same u m n m' n' o o' vni e e' v v' =
      u m n m' n' o o' vni (sym (same m n) ∙ e) (sym (same m' n') ∙ e') v v'

  pub SameView-IsUnused :
      (st st' : C.St) → SameView st st' → (vni : ℕ) → IsUnused st vni → IsUnused st' vni
  SameView-IsUnused st st' same vni u m n o e = u m n o (sym (same m n) ∙ e)

  -- what stands at a name after a LAN was added
  pub added_cases :
      (st st' : C.St) (vni : Option ℕ)
      → AddsLan st st' vni
      → (m : String) × (n : String) × ((m' n' : String) (o : Lan)
          → C.view st' m' n' ≡ some o
          → ((m' ≡ m) × (n' ≡ n) × (o.body.vni ≡ vni)) ⊎ (C.view st m' n' ≡ some o))
  added_cases st st' vni (m, n, lan, given, there, others) = (
    m,
    n,
    λ m' n' o e. elim (Bool-cases (m' == m)) [
      | inr f ↦ inr (sym (others m' n' (λ (p, q). ground (arith, f, p, eq_iff m' m))) ∙ e)
      | inl t ↦ elim (Bool-cases (n' == n)) [
        | inr g ↦ inr (sym (others m' n' (λ (p, q). ground (arith, g, q, eq_iff n' n))) ∙ e)
        | inl u ↦
            let p = (eq_iff m' m).0 t in
            let q = (eq_iff n' n).0 u in
            let same : lan ≡ o = ground (arith, rw (p, q) at e, there) in
            inl (p, q, rw same at given)
      ]
    ],
  )

  pub AddsLan-UniqueVnis :
      (st st' : C.St) (vni : ℕ)
      → AddsLan st st' (some vni)
      → IsUnused st vni
      → UniqueVnis st
      → UniqueVnis st'
  unfolding UniqueVnis
  AddsLan-UniqueVnis st st' vni adds unused u m n m' n' o o' v e e' ev ev' =
      let (a, b, cases) = added_cases st st' (some vni) adds in
      elim (cases m n o e) [
        | inl (p, q, w) ↦ elim (cases m' n' o' e') [
          | inl (p', q', _) ↦ (p ∙ sym p', q ∙ sym q')
          | inr old' ↦ absurd (unused m' n' o' old' (ev' ∙ sym ev ∙ w))
        ]
        | inr old ↦ elim (cases m' n' o' e') [
          | inl (_, _, w') ↦ absurd (unused m n o old (ev ∙ sym ev' ∙ w'))
          | inr old' ↦ u m n m' n' o o' v old old' ev ev'
        ]
      ]

  pub AddsLan-IsUnused :
      (st st' : C.St) (vni other : ℕ)
      → AddsLan st st' (some vni)
      → vni < other
      → IsUnused st other
      → IsUnused st' other
  AddsLan-IsUnused st st' vni other adds lt u m n o e has =
      let (a, b, cases) = added_cases st st' (some vni) adds in
      elim (cases m n o e) [
        | inl (_, _, w) ↦ ground (arith, w, has, lt)
        | inr old ↦ u m n o old has
      ]

  pub AddsLan-All :
      (st st' : C.St) (vni lo : ℕ) (vnis : List ℕ)
      → AddsLan st st' (some vni)
      → vni < lo
      → Ascending lo vnis
      → All (IsUnused st) vnis
      → All (IsUnused st') vnis
  AddsLan-All st st' vni lo [] adds lt a h = tt
  AddsLan-All st st' vni lo (v ∷ vnis) adds lt (le, a) (u, h) = (
    AddsLan-IsUnused st st' vni v adds (omega arith) u,
    AddsLan-All st st' vni (suc v) vnis adds (omega arith) a h,
  )

  -- after a round the VNIs are still unique, and the rest of the list is still unused
  pub after_round :
      (st st' : C.St) (vnis : List ℕ) (lo : ℕ)
      → UniqueVnis st
      → Ascending lo vnis
      → All (IsUnused st) vnis
      → SameView st st' ⊎ ((vni : ℕ) × (first vnis ≡ some vni) × AddsLan st st' (some vni))
      → UniqueVnis st'
        × Ascending (next_bound lo vnis) (after_first vnis)
        × All (IsUnused st') (after_first vnis)
  after_round st st' [] lo u a h (inl same) = (SameView-UniqueVnis st st' same u, tt, tt)
  after_round st st' [] lo u a h (inr (vni, e, _)) = absurd (ground (arith, e))
  after_round st st' (v ∷ vnis) lo u (_, a) (_, h) (inl same) = (
    SameView-UniqueVnis st st' same u,
    a,
    All-map (IsUnused st) (IsUnused st') (SameView-IsUnused st st' same) vnis h,
  )
  after_round st st' (v ∷ vnis) lo u (_, a) (unused, h) (inr (vni, e, adds)) =
      let same : v ≡ vni = ground (arith, e) in
      let adds_v : AddsLan st st' (some v) = rw same adds in
      (
        AddsLan-UniqueVnis st st' v adds_v unused u,
        a,
        AddsLan-All st st' v (suc v) vnis adds_v (omega arith) a h,
      )
