-- ===== src/Lans/Delete.antt =====
-- When `deleteExternalResources` can succeed.
use knl.Common.{
  ◌≡◌, ◌≢◌, ap, ◌∙◌, inl, inr, String, ◌==◌, eq_iff, Bool-cases, none, some, List, [], ◌∷◌, arith,
  Map, keys, ok, Result-cases, All, All-map,
}
use knl.Names.{get_k8lan_name}
use knl.Api.{Link}
use knl.Cluster.Interface.{not_found, api_failed, Client, IsLawful}
use knl.Lans.{Lan, LanSpec, new_lan, update_lan, release_lan, delete_external_resources}

module _ (C : Client LanSpec) (L : IsLawful C) (remove_finalizer : List String → List String) where
  abbrev released : Lan → Lan
  released lan = record lan { finalizers = remove_finalizer lan.finalizers }

  update_lan-ok :
      (st : C.St) (ns name : String) (lan : Lan)
      → (update_lan C remove_finalizer st ns name lan).1 ≡ ok tt
      → ((update_lan C remove_finalizer st ns name lan).0 ≡ (C.update st ns (released lan)).0)
        × ((C.update st ns (released lan)).1 ≡ ok tt)
  update_lan-ok st ns name lan h = elim (Result-cases (C.update st ns (released lan)).1) [
    | inl (_, e) ↦ (ground (arith, e), e)
    | inr (inl (_, e)) ↦ absurd (ground (arith, e, h))
    | inr (inr e) ↦ absurd (ground (arith, e, h))
  ]

  -- a round that succeeds found its LAN and wrote it back without the finalizer
  release_lan-ok :
      (st : C.St) (ns name : String)
      → (release_lan C remove_finalizer st ns name).1 ≡ ok tt
      → (lan : Lan) × (C.view st ns name ≡ some lan)
        × ((release_lan C remove_finalizer st ns name).0 ≡ (C.update st ns (released lan)).0)
        × ((C.update st ns (released lan)).1 ≡ ok tt)
  unfolding release_lan
  release_lan-ok st ns name h = elim (Result-cases (C.get st ns name)) [
    | inl (lan, e) ↦
        let (moved, fine) = update_lan-ok st ns name lan (rw (release_lan, e) at h) in
        (lan, L.get_found st ns name lan e, rw (release_lan, e) moved, fine)
    | inr (inl (not_found, e)) ↦
        let (_, fine) = update_lan-ok st "" name new_lan (rw (release_lan, e) at h) in
        absurd (L.update_found st "" (released new_lan) fine (L.nameless st ""))
    | inr (inl (api_failed, e)) ↦ absurd (ground (arith, e, h))
    | inr (inr e) ↦ absurd (ground (arith, e, h))
  ]

  -- the object that a round leaves at any name
  release_lan-view :
      (st : C.St) (ns name other : String)
      → (release_lan C remove_finalizer st ns name).1 ≡ ok tt
      → (C.view (release_lan C remove_finalizer st ns name).0 ns other ≢ none)
      → C.view st ns other ≢ none
  release_lan-view st ns name other h there gone =
      let (lan, found, moved, fine) = release_lan-ok st ns name h in
      elim (Bool-cases (other == name)) [
        | inl t ↦ let same : other ≡ name = (eq_iff other name).0 t in cc
        | inr f ↦
            let named : lan.name ≡ name = L.name_kept st ns name lan found in
            let apart =
              L.update_others st ns (released lan) ns other
                (λ (_, q). ground (arith, f, q, named, eq_iff other name)) in
            there (ap (λ s. C.view s ns other) moved ∙ apart ∙ gone)
      ]

  -- `deleteExternalResources` succeeds only if the LAN of every link is there: a LAN that is already
  -- gone makes it fail. The client follows its documented laws.
  pub delete_external_resources_needs_lans :
      (st : C.St) (ns lab : String) (links : Map Link)
      → (delete_external_resources C remove_finalizer st ns lab links).1 ≡ ok tt
      → All (λ link. C.view st ns (get_k8lan_name lab link) ≢ none) (keys links)
  unfolding delete_external_resources keys
  delete_external_resources_needs_lans st ns lab [] h = tt
  delete_external_resources_needs_lans st ns lab ((link, _) ∷ links) h =
      let name = get_k8lan_name lab link in
      elim (Result-cases (release_lan C remove_finalizer st ns name).1) [
        | inl (_, e) ↦
            let next = (release_lan C remove_finalizer st ns name).0 in
            let (lan, found, _, _) = release_lan-ok st ns name e in
            let rest =
              delete_external_resources_needs_lans next ns lab links (ground (arith, e, h)) in
            (
              λ gone. ground (arith, found, gone),
              All-map (λ l. C.view next ns (get_k8lan_name lab l) ≢ none)
                  (λ l. C.view st ns (get_k8lan_name lab l) ≢ none)
                  (λ l. release_lan-view st ns name (get_k8lan_name lab l) e) (keys links) rest,
            )
        | inr (inl (_, e)) ↦ absurd (ground (arith, e, h))
        | inr (inr e) ↦ absurd (ground (arith, e, h))
      ]
