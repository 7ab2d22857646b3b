-- ===== src/Cluster/Laws.antt =====
-- What `IsOwnedbyLab` accepts, and what `createIfNotExistsOrRemove` leaves in the cluster.
use knl.Common.{
  ℕ, zero, suc, ◌≡◌, ◌↔◌, ◌⊎◌, inl, inr, refl, sym, ap, ◌∙◌, arith, String, ◌==◌, eq_iff,
  Bool-cases, true, false, List, [], ◌∷◌, some, Result, ok, err, panic, Result-cases, get_elem?,
}
use knl.Cluster.{lift, find_owner, is_owned_by_lab, create_if_not_exists_or_remove}
use knl.Cluster.Interface.{Owner, Object, ApiError, not_found, api_failed, Client, IsLawful}

-- one of the owners has the UID
abbrev pub HasOwner : String → List Owner → Type 0
HasOwner uid owners =
    (i : ℕ) × (owner : Owner) × (get_elem? owners i ≡ some owner) × (owner.uid ≡ uid)

find_owner-HasOwner :
    (uid object : String) (names : List String) (owners : List Owner)
    → find_owner uid object names owners ≡ ok tt
    → HasOwner uid owners
unfolding find_owner
find_owner-HasOwner uid object names [] h = cc
find_owner-HasOwner uid object names (o ∷ owners) h = elim (Bool-cases (o.uid == uid)) [
  | inl t ↦ (0, o, refl, (eq_iff o.uid uid).0 t)
  | inr f ↦
      let (i, p, found, same) =
        find_owner-HasOwner uid object (o.name ∷ names) owners (rw (find_owner, f) at h) in
      (suc i, p, found, same)
]

HasOwner-find_owner :
    (uid object : String) (names : List String) (owners : List Owner) (i : ℕ) (owner : Owner)
    → get_elem? owners i ≡ some owner
    → owner.uid ≡ uid
    → find_owner uid object names owners ≡ ok tt
unfolding find_owner
HasOwner-find_owner uid object names [] i p e same = cc
HasOwner-find_owner uid object names (o ∷ owners) zero p e same =
    ground (arith, e, same, eq_iff o.uid uid)
HasOwner-find_owner uid object names (o ∷ owners) (suc i) p e same =
    ground (arith, HasOwner-find_owner uid object (o.name ∷ names) owners i p e same)

owned-HasOwner :
    {B : Type 0} (o : Object B) (uid : String) (owners : List Owner)
    → o.owners ≡ owners
    → is_owned_by_lab o uid ≡ ok tt
    → HasOwner uid owners
unfolding is_owned_by_lab
owned-HasOwner o uid [] e h = absurd (ground (arith, e, h))
owned-HasOwner o uid (p ∷ ps) e h =
    find_owner-HasOwner uid o.name [] (p ∷ ps) (rw (is_owned_by_lab, e) at h)

HasOwner-owned :
    {B : Type 0} (o : Object B) (uid : String) (owners : List Owner)
    → o.owners ≡ owners
    → HasOwner uid owners
    → is_owned_by_lab o uid ≡ ok tt
unfolding is_owned_by_lab
HasOwner-owned o uid [] e (i, q, f, s) = cc
HasOwner-owned o uid (p ∷ ps) e (i, q, f, s) =
    rw (is_owned_by_lab, e) (HasOwner-find_owner uid o.name [] (p ∷ ps) i q f s)

pub lift_state : {S : Type 0} (r : S × Result ApiError Unit) → (lift r).0 ≡ r.0
lift_state (st, ok _) = refl
lift_state (st, err _) = refl
lift_state (st, panic) = refl

-- `IsOwnedbyLab` accepts an object if and only if one of its owners has the UID of the lab.
pub is_owned_by_lab_iff :
    {B : Type 0} (o : Object B) (uid : String)
    → (is_owned_by_lab o uid ≡ ok tt) ↔ HasOwner uid o.owners
is_owned_by_lab_iff o uid = (owned-HasOwner o uid o.owners refl, HasOwner-owned o uid o.owners refl)

module _ {B : Type 0} (C : Client B) (L : IsLawful C)
    (set_owner : Object B → Result ApiError (Object B))
    (keeps : (o o' : Object B) → set_owner o ≡ ok o' → o'.name ≡ o.name) where
  -- When it succeeds in making sure of an object with an owner, the cluster has an object of that name
  -- in the namespace: one that was there and is owned by the lab, or the one given, with its owner set.
  -- The client follows its documented laws, and setting the owner keeps the name.
  pub create_if_not_exists_ensures :
      (st : C.St) (ns uid : String) (target : Object B)
      → (create_if_not_exists_or_remove C st ns uid set_owner target true false).1 ≡ ok tt
      → (o : Object B) × (C.view
            (create_if_not_exists_or_remove C st ns uid set_owner target true false).0
            ns
            target.name
          ≡ some o)
        × (HasOwner uid o.owners ⊎ (set_owner target ≡ ok o))
  unfolding create_if_not_exists_or_remove
  create_if_not_exists_ensures st ns uid target h = elim (Result-cases (set_owner target)) [
    | inr (inl (_, p)) ↦ absurd (ground (arith, p, h))
    | inr (inr p) ↦ absurd (ground (arith, p, h))
    | inl (owned, p) ↦ elim (Result-cases (C.get st ns owned.name)) [
      | inr (inr q) ↦ absurd (ground (arith, p, q, h))
      | inr (inl (api_failed, q)) ↦ absurd (ground (arith, p, q, h))
      | inl (o, q) ↦
          let named = keeps target owned p in
          let accepted : is_owned_by_lab o uid ≡ ok tt =
            rw (create_if_not_exists_or_remove, p, q) at h in
          rw (create_if_not_exists_or_remove, p, q)
            (
              o,
              rw named at (L.get_found st ns owned.name o q),
              inl ((is_owned_by_lab_iff o uid).0 accepted),
            )
      | inr (inl (not_found, q)) ↦
          let named = keeps target owned p in
          elim (Result-cases (C.create st ns owned).1) [
            | inl (_, e) ↦
                let written = L.create_written st ns owned e in
                rw (create_if_not_exists_or_remove, p, q, lift_state (C.create st ns owned))
                  (
                    owned,
                    ap (λ n. C.view (C.create st ns owned).0 ns n) (sym named) ∙ written,
                    inr refl,
                  )
            | inr (inl (_, e)) ↦ absurd (ground (arith, p, q, e, h))
            | inr (inr e) ↦ absurd (ground (arith, p, q, e, h))
          ]
    ]
  ]
