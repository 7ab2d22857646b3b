-- ===== src/Kube/Gives.antt =====
-- What a sequence of effects leaves in the cluster when it succeeds, step by step.
use mathlib.Core.Path.{subst}
use knl.Common.{◌≡◌, sym, String, Bool, Result, ok}
use knl.Cluster.Interface.{Object, ApiError, Client, IsLawful}
use knl.Kube.{Resource, Target, place, ParsedLab, EnsureError, Action, from, ◌>>=◌, ensure_object}
use knl.Kube.Laws.{
  Extends, IsThere, IsSafe, >>=-ok, ensure_object-IsSafe, ensure_object-IsThere, Extends-IsThere,
}

-- From a state of `P`, the action returns only with a value and a state of `Q`.
pub record IsGiving {S A : Type 0} (P : S → Type 0) (m : Action S A) (Q : A → S → Type 0)
    : Type 0 where
  pub gives : (st : S) (a : A) → P st → (m st).1 ≡ ok a → Q a (m st).0

then_gives :
    {S A B : Type 0} (P : S → Type 0) (m : Action S A) (f : A → Action S B) (R : A → S → Type 0)
    (Q : B → S → Type 0)
    → IsGiving P m R
    → ((a : A) → IsGiving (R a) (f a) Q)
    → (st : S) (b : B) → P st
    → ((m >>= f) st).1 ≡ ok b
    → Q b ((m >>= f) st).0
then_gives P m f R Q g k st b p h =
    let (a, e, h', s) = >>=-ok m f st h in
    subst (Q b) (sym s) ((k a).gives (m st).0 b (g.gives st a p e) h')

pub >>=-IsGiving :
    {S A B : Type 0} {P : S → Type 0} {m : Action S A} {f : A → Action S B} {R : A → S → Type 0}
    {Q : B → S → Type 0}
    → IsGiving P m R
    → ((a : A) → IsGiving (R a) (f a) Q)
    → IsGiving P (m >>= f) Q
>>=-IsGiving {P = P} {m = m} {f = f} {R = R} {Q = Q} g k = record {
  gives = then_gives P m f R Q g k;
}

from_gives :
    {S A : Type 0} (P : S → Type 0) (r : Result EnsureError A) (st : S) (a : A)
    → P st
    → (from r st).1 ≡ ok a
    → (r ≡ ok a) × P (from r st).0
unfolding from
from_gives P r st a p e = (e, p)

-- a step that reads no state
pub from_then :
    {S A B : Type 0} {P : S → Type 0} {r : Result EnsureError A} {f : A → Action S B}
    {Q : B → S → Type 0}
    → ((a : A) → r ≡ ok a → IsGiving P (f a) Q)
    → IsGiving P (from r >>= f) Q
from_then {P = P} {r = r} {f = f} {Q = Q} k = record {
  gives =
      then_gives P (from r) f (λ a st. (r ≡ ok a) × P st) Q (record { gives = from_gives P r })
        (λ a. record { gives = λ st b p h. (k a p.0).gives st b p.1 h });
}

pub weaken :
    {S A : Type 0} {P : S → Type 0} {m : Action S A} {Q Q' : A → S → Type 0}
    → IsGiving P m Q
    → ((a : A) (st : S) → Q a st → Q' a st)
    → IsGiving P m Q'
weaken {m = m} g k = record { gives = λ st a p h. k a (m st).0 (g.gives st a p h) }

-- a last step that reads no state
pub from_last :
    {S A : Type 0} {P : S → Type 0} {r : Result EnsureError A} {Q : A → S → Type 0}
    → ((a : A) (st : S) → r ≡ ok a → P st → Q a st)
    → IsGiving P (from r) Q
from_last {P = P} {r = r} k = record {
  gives = λ st a p h. let (e, q) = from_gives P r st a p h in k a (from r st).0 e q;
}

module _ (C : Client Resource) where
  -- what holds of a state holds after more objects are there
  abbrev pub IsStable : (C.St → Type 0) → Type 0
  IsStable P = (st st' : C.St) → Extends C st st' → P st → P st'

  pub none-IsStable : IsStable (λ _. Unit)
  none-IsStable st st' e p = tt

  pub IsThere-IsStable :
      (P : C.St → Type 0) (ns name : String)
      → IsStable P
      → IsStable (λ st. P st × IsThere C st ns name)
  IsThere-IsStable P ns name s st st' e (p, h) =
      (s st st' e p, Extends-IsThere C st st' e ns name h)

module _ (C : Client Resource) (L : IsLawful C)
    (set_owner : Object Resource → Result ApiError (Object Resource))
    (keeps : (o o' : Object Resource) → set_owner o ≡ ok o' → o'.name ≡ o.name) where
  -- a target is there after it was ensured, beside all that was there
  pub ensure_object-IsGiving :
      (P : C.St → Type 0) (plab : ParsedLab) (what : String) (target : Target) (need : Bool)
      → IsStable C P
      → IsGiving P
          (ensure_object C set_owner plab what target need)
          (λ _ st. P st × IsThere C st (place target) target.meta.name)
  ensure_object-IsGiving P plab what target need stable = record {
    gives = λ st a p h. (
      stable st _ ((ensure_object-IsSafe C L set_owner plab what target need).keeps st) p,
      ensure_object-IsThere C L set_owner keeps plab what target need st h,
    );
  }

  pub object_then :
      {B : Type 0} {P : C.St → Type 0} {Q : B → C.St → Type 0} {f : Unit → Action C.St B}
      (plab : ParsedLab) (what : String) (target : Target) (need : Bool)
      → IsStable C P
      → ((a : Unit) → IsGiving (λ st. P st × IsThere C st (place target) target.meta.name) (f a) Q)
      → IsGiving P (ensure_object C set_owner plab what target need >>= f) Q
  object_then {P = P} plab what target need stable k =
      >>=-IsGiving (ensure_object-IsGiving P plab what target need stable) k

  pub object_last :
      {P : C.St → Type 0} {Q : Unit → C.St → Type 0} (plab : ParsedLab) (what : String)
      (target : Target) (need : Bool)
      → IsStable C P
      → ((st : C.St) → P st → IsThere C st (place target) target.meta.name → Q tt st)
      → IsGiving P (ensure_object C set_owner plab what target need) Q
  object_last {P = P} plab what target need stable k = record {
    gives = λ st a p h.
        let (q, there) = (ensure_object-IsGiving P plab what target need stable).gives st a p h in
        k (ensure_object C set_owner plab what target need st).0 q there;
  }

  pub IsSafe-IsGiving :
      {A : Type 0} (P : C.St → Type 0) {m : Action C.St A}
      → IsStable C P
      → IsSafe C m
      → IsGiving P m (λ _. P)
  IsSafe-IsGiving P {m} stable safe = record {
    gives = λ st a p h. stable st (m st).0 (safe.keeps st) p;
  }

  -- what held before still holds after a safe action
  pub framed :
      {A : Type 0} (P : C.St → Type 0) {m : Action C.St A} {Q : A → C.St → Type 0}
      → IsStable C P
      → IsSafe C m
      → IsGiving (λ _. Unit) m Q
      → IsGiving P m (λ a st. P st × Q a st)
  framed P {m} stable safe g = record {
    gives = λ st a p h. (stable st (m st).0 (safe.keeps st) p, g.gives st a tt h);
  }
