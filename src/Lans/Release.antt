-- ===== src/Lans/Release.antt =====
-- What `deleteExternalResources` leaves of the LANs when it succeeds.
use mathlib.Core.Path.{subst}
use mathlib.Core.Option.{some_inj}
use knl.Common.{
  ◌≡◌, ◌≢◌, refl, sym, ap, ◌∙◌, ◌⊎◌, inl, inr, arith, String, ◌==◌, eq_iff, Bool, false, Bool-cases,
  none, some, List, [], ◌∷◌, Map, keys, ok, Result-cases, All,
}
use knl.Names.{get_k8lan_name}
use knl.Api.{Link}
use knl.Cluster.Interface.{not_found, api_failed, Client}
use knl.Lans.{Lan, LanSpec, new_lan, release_lan, delete_external_resources}

-- The laws of reads and updates: a read shows the object that is there, an object has the name that
-- it stands at, a name that is written is not empty, and an update that succeeds writes the object,
-- which may then be gone with its last finalizer, and changes no other.
pub record IsWritable (C : Client LanSpec) : Type 0 where
  pub found :
      (st : C.St) (ns name : String) (lan : Lan)
      → C.get st ns name ≡ ok lan
      → C.view st ns name ≡ some lan
  pub kept :
      (st : C.St) (ns name : String) (lan : Lan) → C.view st ns name ≡ some lan → lan.name ≡ name
  pub named : (st : C.St) (ns : String) (lan : Lan) → (C.update st ns lan).1 ≡ ok tt → lan.name ≢ ""
  pub written :
      (st : C.St) (ns : String) (lan : Lan)
      → (C.update st ns lan).1 ≡ ok tt
      → (C.view (C.update st ns lan).0 ns lan.name ≡ some lan)
        ⊎ (C.view (C.update st ns lan).0 ns lan.name ≡ none)
  pub others :
      (st : C.St) (ns : String) (lan : Lan) (ns' name : String)
      → ((ns' ≡ ns) × (name ≡ lan.name) → ⊥)
      → C.view (C.update st ns lan).0 ns' name ≡ C.view st ns' name

-- the LAN is gone or has no finalizer, which the test finds
unfoldable pub IsFree :
    (C : Client LanSpec) → (List String → Bool) → C.St → String → String → Type 0
IsFree C has st ns name = (lan : Lan) → C.view st ns name ≡ some lan → has lan.finalizers ≡ false

module _ (C : Client LanSpec) (W : IsWritable C) (remove : List String → List String)
    (has : List String → Bool) (gone : (l : List String) → has (remove l) ≡ false) where
  abbrev released : Lan → Lan
  released lan = record lan { finalizers = remove lan.finalizers }

  -- a round that succeeds is an update of the LAN that it read
  release_lan-ok :
      (st : C.St) (ns name : String)
      → (release_lan C remove st ns name).1 ≡ ok tt
      → (lan : Lan) × (lan.name ≡ name)
        × ((release_lan C remove st ns name).0 ≡ (C.update st ns (released lan)).0)
        × ((C.update st ns (released lan)).1 ≡ ok tt)
  unfolding release_lan
  release_lan-ok st ns name h = elim (Result-cases (C.get st ns name)) [
    | inr (inr e) ↦ absurd (ground (arith, e, h))
    | inr (inl (api_failed, e)) ↦ absurd (ground (arith, e, h))
    | inr (inl (not_found, e)) ↦ elim (Result-cases (C.update st "" (released new_lan)).1) [
      | inl (_, f) ↦ absurd (W.named st "" (released new_lan) f refl)
      | inr (inl (_, f)) ↦ absurd (ground (arith, e, f, h))
      | inr (inr f) ↦ absurd (ground (arith, e, f, h))
    ]
    | inl (lan, e) ↦ elim (Result-cases (C.update st ns (released lan)).1) [
      | inl (_, f) ↦
          (lan, W.kept st ns name lan (W.found st ns name lan e), ground (arith, e, f), f)
      | inr (inl (_, f)) ↦ absurd (ground (arith, e, f, h))
      | inr (inr f) ↦ absurd (ground (arith, e, f, h))
    ]
  ]

  release_lan-IsFree :
      (st : C.St) (ns name : String)
      → (release_lan C remove st ns name).1 ≡ ok tt
      → IsFree C has (release_lan C remove st ns name).0 ns name
  unfolding IsFree
  release_lan-IsFree st ns name h lan' e =
      let (lan, named, moved, fine) = release_lan-ok st ns name h in
      let seen : C.view (C.update st ns (released lan)).0 ns lan.name ≡ some lan' =
        ap (λ n. C.view (C.update st ns (released lan)).0 ns n) named
        ∙ sym (ap (λ s. C.view s ns name) moved)
        ∙ e in
      elim (W.written st ns (released lan) fine) [
        | inr none_left ↦ absurd (ground (arith, none_left, seen))
        | inl there ↦
            subst (λ l. has l.finalizers ≡ false) (some_inj.0 (sym there ∙ seen))
              (gone lan.finalizers)
      ]

  -- a LAN that is free stays so
  release_lan-stays :
      (st : C.St) (ns name other : String)
      → (release_lan C remove st ns name).1 ≡ ok tt
      → IsFree C has st ns other
      → IsFree C has (release_lan C remove st ns name).0 ns other
  unfolding IsFree
  release_lan-stays st ns name other h free = elim (Bool-cases (other == name)) [
    | inl t ↦ rw ((eq_iff other name).0 t) (release_lan-IsFree st ns name h)
    | inr f ↦ λ lan' e.
        let (lan, named, moved, fine) = release_lan-ok st ns name h in
        let apart =
          W.others st ns (released lan) ns other
            (λ (_, q). ground (arith, f, q, named, eq_iff other name)) in
        free lan' (sym apart ∙ sym (ap (λ s. C.view s ns other) moved) ∙ e)
  ]

  stays :
      (st : C.St) (ns lab other : String) (links : Map Link)
      → (delete_external_resources C remove st ns lab links).1 ≡ ok tt
      → IsFree C has st ns other
      → IsFree C has (delete_external_resources C remove st ns lab links).0 ns other
  unfolding delete_external_resources
  stays st ns lab other [] h free = free
  stays st ns lab other ((link, _) ∷ links) h free =
      let name = get_k8lan_name lab link in
      elim (Result-cases (release_lan C remove st ns name).1) [
        | inr (inl (_, e)) ↦ absurd (ground (arith, e, h))
        | inr (inr e) ↦ absurd (ground (arith, e, h))
        | inl (_, e) ↦
            rw (delete_external_resources, e)
              (stays (release_lan C remove st ns name).0 ns lab other links
                (rw (delete_external_resources, e) at h)
                (release_lan-stays st ns name other e free))
      ]

  -- When `deleteExternalResources` succeeds, the LAN of each link is gone or has no finalizer.
  pub delete_external_resources-IsFree :
      (st : C.St) (ns lab : String) (links : Map Link)
      → (delete_external_resources C remove st ns lab links).1 ≡ ok tt
      → All
          (λ link.
            IsFree C has
              (delete_external_resources C remove st ns lab links).0
              ns
              (get_k8lan_name lab link))
          (keys links)
  unfolding delete_external_resources keys
  delete_external_resources-IsFree st ns lab [] h = tt
  delete_external_resources-IsFree st ns lab ((link, l) ∷ links) h =
      let name = get_k8lan_name lab link in
      let next = (release_lan C remove st ns name).0 in
      elim (Result-cases (release_lan C remove st ns name).1) [
        | inr (inl (_, e)) ↦ absurd (ground (arith, e, h))
        | inr (inr e) ↦ absurd (ground (arith, e, h))
        | inl (_, e) ↦
            let moved : (delete_external_resources C remove st ns lab ((link, l) ∷ links)).0
                ≡ (delete_external_resources C remove next ns lab links).0 =
              rw (delete_external_resources, e) refl in
            let rest = rw (delete_external_resources, e) at h in
            subst (λ s. All (λ k. IsFree C has s ns (get_k8lan_name lab k)) (link ∷ keys links))
              (sym moved)
              (
                stays next ns lab name links rest (release_lan-IsFree st ns name e),
                delete_external_resources-IsFree next ns lab links rest,
              )
      ]
