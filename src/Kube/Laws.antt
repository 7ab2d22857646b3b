-- ===== src/Kube/Laws.antt =====
-- What the effects of `Ensure` do to the cluster: nothing that is there is changed, and what was
-- created is there.
use knl.Common.{
  panic, err, refl, ◌≡◌, refl, sym, ap, ◌∙◌, inl, inr, arith, String, Bool, false, if◌then◌else◌,
  none, some, Result, ok, err, panic, Result-cases,
}
use knl.Cluster.{create_if_not_exists_or_remove, when_found, ClusterError}
use knl.Cluster.Interface.{Object, ApiError, not_found, api_failed, Client, IsLawful}
use knl.Cluster.Laws.{lift_state}
use knl.Kube.{
  Resource, Target, object_of, place, ParsedLab, EnsureError, Action, from, ◌>>=◌, ensure_object,
  created,
}

-- a sequence that succeeds, as its two parts
pub >>=-ok :
    {S A B : Type 0} (m : Action S A) (f : A → Action S B) (st : S) {b : B}
    → ((m >>= f) st).1 ≡ ok b
    → (a : A) × ((m st).1 ≡ ok a)
      × ((f a (m st).0).1 ≡ ok b)
      × (((m >>= f) st).0 ≡ (f a (m st).0).0)
unfolding ◌>>=◌
>>=-ok m f st h = elim (Result-cases (m st).1) [
  | inl (a, e) ↦ (a, e, ground (arith, e, h), ground (arith, e))
  | inr (inl (_, e)) ↦ absurd (ground (arith, e, h))
  | inr (inr e) ↦ absurd (ground (arith, e, h))
]

created_state :
    {S : Type 0} (what : String) (r : S × Result ClusterError Unit) → (created what r).0 ≡ r.0
created_state what (st, ok _) = refl
created_state what (st, err _) = refl
created_state what (st, panic) = refl

created_ok :
    {S : Type 0} (what : String) (r : S × Result ClusterError Unit)
    → (created what r).1 ≡ ok tt
    → r.1 ≡ ok tt
created_ok what (st, ok tt) h = refl
created_ok what (st, err _) h = cc
created_ok what (st, panic) h = cc

module _ {B : Type 0} (C : Client B) where
  -- The second state has every object of the first, as it was.
  unfoldable pub Extends : C.St → C.St → Type 0
  Extends st st' =
      (ns name : String) (o : Object B) → C.view st ns name ≡ some o → C.view st' ns name ≡ some o

  abbrev pub IsThere : C.St → String → String → Type 0
  IsThere st ns name = (o : Object B) × (C.view st ns name ≡ some o)

  pub Extends-refl : (st : C.St) → Extends st st
  unfolding Extends
  Extends-refl st ns name o e = e

  pub Extends-trans : (st st' st'' : C.St) → Extends st st' → Extends st' st'' → Extends st st''
  unfolding Extends
  Extends-trans st st' st'' f g ns name o e = g ns name o (f ns name o e)

  pub Extends-IsThere :
      (st st' : C.St)
      → Extends st st'
      → (ns name : String) → IsThere st ns name
      → IsThere st' ns name
  unfolding Extends
  Extends-IsThere st st' f ns name (o, e) = (o, f ns name o e)

  module _ (L : IsLawful C) where
    pub create-Extends :
        (st : C.St) (ns : String) (o : Object B)
        → C.view st ns o.name ≡ none
        → Extends st (C.create st ns o).0
    unfolding Extends
    create-Extends st ns o gone m name p e =
        L.create_others st ns o m name (λ (q, r). ground (arith, gone, e, q, r)) ∙ e

    module _ (set_owner : Object B → Result ApiError (Object B)) (ns uid : String)
        (target : Object B) (need_owner : Bool) where
      abbrev with_owner : Result ApiError (Object B)
      with_owner = if need_owner then set_owner target else ok target

      when_found_state :
          (st : C.St) (o : Object B) → (when_found C st ns uid o need_owner false).0 ≡ st
      when_found_state st o = ground arith

      -- creation changes no object that is there
      pub create_if-Extends :
          (st : C.St)
          → Extends st
              (create_if_not_exists_or_remove C st ns uid set_owner target need_owner false).0
      unfolding create_if_not_exists_or_remove
      create_if-Extends st = elim (Result-cases with_owner) [
        | inr (inl (_, p)) ↦ rw (create_if_not_exists_or_remove, p) (Extends-refl st)
        | inr (inr p) ↦ rw (create_if_not_exists_or_remove, p) (Extends-refl st)
        | inl (owned, p) ↦ elim (Result-cases (C.get st ns owned.name)) [
          | inr (inr q) ↦ rw (create_if_not_exists_or_remove, p, q) (Extends-refl st)
          | inr (inl (api_failed, q)) ↦ rw (create_if_not_exists_or_remove, p, q) (Extends-refl st)
          | inl (o, q) ↦
              rw (create_if_not_exists_or_remove, p, q, when_found_state st o) (Extends-refl st)
          | inr (inl (not_found, q)) ↦
              rw (create_if_not_exists_or_remove, p, q, lift_state (C.create st ns owned))
                (create-Extends st ns owned (L.get_missing st ns owned.name q))
        ]
      ]

      named :
          ((o o' : Object B) → set_owner o ≡ ok o' → o'.name ≡ o.name)
          → (owned : Object B) → with_owner ≡ ok owned
          → owned.name ≡ target.name
      named keeps owned p = ground (arith, keeps target owned, p)

      -- when it succeeds, an object is there
      pub create_if-IsThere :
          ((o o' : Object B) → set_owner o ≡ ok o' → o'.name ≡ o.name)
          → (st : C.St)
          → (create_if_not_exists_or_remove C st ns uid set_owner target need_owner false).1 ≡ ok tt
          → IsThere
              (create_if_not_exists_or_remove C st ns uid set_owner target need_owner false).0
              ns
              target.name
      unfolding create_if_not_exists_or_remove
      create_if-IsThere keeps st h = elim (Result-cases with_owner) [
        | inr (inl (_, p)) ↦ absurd (ground (arith, p, h))
        | inr (inr p) ↦ absurd (ground (arith, p, h))
        | inl (owned, p) ↦ elim (Result-cases (C.get st ns owned.name)) [
          | inr (inr q) ↦ absurd (ground (arith, p, q, h))
          | inr (inl (api_failed, q)) ↦ absurd (ground (arith, p, q, h))
          | inl (o, q) ↦
              rw (create_if_not_exists_or_remove, p, q, when_found_state st o)
                (o, rw (named keeps owned p) at (L.get_found st ns owned.name o q))
          | inr (inl (not_found, q)) ↦ elim (Result-cases (C.create st ns owned).1) [
            | inr (inl (_, e)) ↦ absurd (ground (arith, p, q, e, h))
            | inr (inr e) ↦ absurd (ground (arith, p, q, e, h))
            | inl (_, e) ↦
                rw (create_if_not_exists_or_remove, p, q, lift_state (C.create st ns owned))
                  (
                    owned,
                    ap (λ n. C.view (C.create st ns owned).0 ns n) (sym (named keeps owned p))
                        ∙ L.create_written st ns owned e,
                  )
          ]
        ]
      ]

-- The action changes no object that is there.
pub record IsSafe {B A : Type 0} (C : Client B) (m : Action C.St A) : Type 0 where
  pub keeps : (st : C.St) → Extends C st (m st).0

pub from-IsSafe : {B A : Type 0} {C : Client B} (r : Result EnsureError A) → IsSafe C (from r)
unfolding from
from-IsSafe {C = C} r = record { keeps = λ st. Extends-refl C st }

then_keeps :
    {B X Y : Type 0} (C : Client B) (m : Action C.St X) (f : X → Action C.St Y)
    → IsSafe C m
    → ((x : X) → IsSafe C (f x))
    → (st : C.St) → Extends C st ((m >>= f) st).0
unfolding ◌>>=◌
then_keeps C m f s t st = elim (Result-cases (m st).1) [
  | inl (a, e) ↦
      rw (◌>>=◌, e)
        (Extends-trans C st (m st).0 (f a (m st).0).0 (s.keeps st) ((t a).keeps (m st).0))
  | inr (inl (_, e)) ↦ rw (◌>>=◌, e) (s.keeps st)
  | inr (inr e) ↦ rw (◌>>=◌, e) (s.keeps st)
]

pub >>=-IsSafe :
    {B X Y : Type 0} {C : Client B} {m : Action C.St X} {f : X → Action C.St Y}
    → IsSafe C m
    → ((x : X) → IsSafe C (f x))
    → IsSafe C (m >>= f)
>>=-IsSafe {C = C} {m = m} {f = f} s t = record { keeps = then_keeps C m f s t }

pub from_then-IsSafe :
    {B X Y : Type 0} {C : Client B} {r : Result EnsureError X} {f : X → Action C.St Y}
    → ((x : X) → r ≡ ok x → IsSafe C (f x))
    → IsSafe C (from r >>= f)
unfolding from ◌>>=◌
from_then-IsSafe {r = ok x} t = record { keeps = λ st. (t x refl).keeps st }
from_then-IsSafe {C = C} {r = err e} t = record { keeps = λ st. Extends-refl C st }
from_then-IsSafe {C = C} {r = panic} t = record { keeps = λ st. Extends-refl C st }

module _ (C : Client Resource) (L : IsLawful C)
    (set_owner : Object Resource → Result ApiError (Object Resource)) where
  ensure_object-Extends :
      (plab : ParsedLab) (what : String) (target : Target) (need_owner : Bool) (st : C.St)
      → Extends C st (ensure_object C set_owner plab what target need_owner st).0
  unfolding ensure_object
  ensure_object-Extends plab what target need_owner st =
      rw
        (created_state what (
          create_if_not_exists_or_remove C st (place target) plab.uid set_owner (object_of target)
            need_owner false))
        (create_if-Extends C L set_owner (place target) plab.uid (object_of target) need_owner st)

  pub ensure_object-IsSafe :
      (plab : ParsedLab) (what : String) (target : Target) (need_owner : Bool)
      → IsSafe C (ensure_object C set_owner plab what target need_owner)
  ensure_object-IsSafe plab what target need_owner = record {
    keeps = ensure_object-Extends plab what target need_owner;
  }

  pub ensure_object-IsThere :
      (keeps : (o o' : Object Resource) → set_owner o ≡ ok o' → o'.name ≡ o.name) (plab : ParsedLab)
      (what : String) (target : Target) (need_owner : Bool) (st : C.St)
      → (ensure_object C set_owner plab what target need_owner st).1 ≡ ok tt
      → IsThere C
          (ensure_object C set_owner plab what target need_owner st).0
          (place target)
          target.meta.name
  unfolding ensure_object
  ensure_object-IsThere keeps plab what target need_owner st h =
      let run =
        create_if_not_exists_or_remove C st (place target) plab.uid set_owner (object_of target)
          need_owner false in
      rw (created_state what run) (
        create_if-IsThere C L set_owner (place target) plab.uid (object_of target) need_owner keeps
          st (created_ok what run h))
