-- ===== src/Reconcile/Laws.antt =====
-- What a run of the lab reconciler does to the finalizers, and what comes before and after.
use text.Mathlib.TextLemmas.{append_inj}
use knl.Common.{
  ◌≡◌, ◌≢◌, refl, sym, ap, ◌∙◌, inl, inr, arith, String, ◌==◌, eq_iff, true, Option-cases, Option,
  none, some, List, [], ◌∷◌, Map, Result, ok, err, panic, Result-cases,
}
use knl.Api.{Link}
use knl.Cluster.Interface.{Object, ApiError, not_found, api_failed, Client, IsLawful}
use knl.Kube.{Resource, collection}
use knl.Lans.{Lan, new_lan, update_lan, delete_external_resources, release_lan}
use knl.Lans.Release.{IsWritable}
use knl.Names.{get_k8lan_name}
use knl.Reconcile.{labs}
use knl.Reconcile.LanClient.{lan_client, as_lan, seen, decoded, object_of_lan}

as_lan-name : (o : Object Resource) (lan : Lan) → as_lan o ≡ some lan → lan.name ≡ o.name
as_lan-name o lan h = ground (arith, h)

lan_found :
    (r : Result ApiError (Object Resource)) (lan : Lan)
    → decoded r ≡ ok lan
    → (o : Object Resource) × (r ≡ ok o) × (as_lan o ≡ some lan)
lan_found (ok o) lan h = elim (Option-cases (as_lan o)) [
  | inl e ↦ absurd (ground (arith, e, h))
  | inr (l, e) ↦ (o, refl, ground (arith, e, h))
]
lan_found (err e) lan h = cc
lan_found panic lan h = cc

lan_seen :
    (r : Option (Object Resource)) (lan : Lan)
    → seen r ≡ some lan
    → (o : Object Resource) × (r ≡ some o) × (as_lan o ≡ some lan)
lan_seen none lan h = cc
lan_seen (some o) lan h = (o, refl, h)

-- collections of two kinds are apart, and those of one kind are told apart by their namespaces
pub apart : (ns ns' : String) → collection ns "lans" ≢ collection ns' "labs"
unfolding collection
apart ns ns' h =
    let (e, _) = append_inj {s₁ = "lans"} {s₂ = "labs"} h refl in
    let t : ("lans" == "labs") ≡ true = (eq_iff "lans" "labs").1 e in cc

same_namespace : (ns ns' kind : String) → collection ns kind ≡ collection ns' kind → ns ≡ ns'
unfolding collection
same_namespace ns ns' kind h =
    let (_, e) = append_inj {s₁ = kind} {s₂ = kind} h refl in
    (append_inj {s₁ = "/"} {s₂ = "/"} e refl).1

module _ (C : Client Resource) (L : IsLawful C) where
  pub lan_client-IsWritable : IsWritable (lan_client C)
  lan_client-IsWritable = record {
    found = λ st ns name lan h.
        let (o, e, same) = lan_found (C.get st (collection ns "lans") name) lan h in
        ap seen (L.get_found st (collection ns "lans") name o e) ∙ same;
    kept = λ st ns name lan h.
        let (o, e, same) = lan_seen (C.view st (collection ns "lans") name) lan h in
        as_lan-name o lan same ∙ L.name_kept st (collection ns "lans") name o e;
    named = λ st ns lan h nameless.
        L.update_found st (collection ns "lans") (object_of_lan lan) h
          (rw nameless (L.nameless st (collection ns "lans")));
    written = λ st ns lan h.
        elim (L.update_written st (collection ns "lans") (object_of_lan lan) h) [
          | inl there ↦ inl (ap seen there)
          | inr (gone, _) ↦ inr (ap seen gone)
        ];
    others = λ st ns lan ns' name apart'. ap seen (
        L.update_others st (collection ns "lans") (object_of_lan lan) (collection ns' "lans") name
          (λ (e, q). apart' (same_namespace ns' ns "lans" e, q)));
  }

  update_keeps :
      (st : C.St) (ns ns' name : String) (lan : Lan)
      → C.view ((lan_client C).update st ns lan).0 (labs ns') name ≡ C.view st (labs ns') name
  update_keeps st ns ns' name lan =
      L.update_others st (collection ns "lans") (object_of_lan lan) (labs ns') name
        (λ (e, _). apart ns ns' (sym e))

  module _ (remove : List String → List String) where
    update_lan_state :
        (st : C.St) (ns name : String) (lan : Lan)
        → (update_lan (lan_client C) remove st ns name lan).0
          ≡ ((lan_client C).update st ns (record lan { finalizers = remove lan.finalizers })).0
    update_lan_state st ns name lan = ground arith

    release_keeps :
        (st : C.St) (ns name ns' other : String)
        → C.view (release_lan (lan_client C) remove st ns name).0 (labs ns') other
          ≡ C.view st (labs ns') other
    unfolding release_lan
    release_keeps st ns name ns' other = elim (Result-cases ((lan_client C).get st ns name)) [
      | inr (inr e) ↦ rw (release_lan, e) refl
      | inr (inl (api_failed, e)) ↦ rw (release_lan, e) refl
      | inr (inl (not_found, e)) ↦
          rw (release_lan, e, update_lan_state st "" name new_lan) (update_keeps st "" ns' other _)
      | inl (lan, e) ↦
          rw (release_lan, e, update_lan_state st ns name lan) (update_keeps st ns ns' other _)
    ]

    -- releasing the LANs changes no lab
    pub delete_keeps :
        (st : C.St) (ns lab ns' other : String) (links : Map Link)
        → C.view
            (delete_external_resources (lan_client C) remove st ns lab links).0
            (labs ns')
            other
          ≡ C.view st (labs ns') other
    unfolding delete_external_resources
    delete_keeps st ns lab ns' other [] = refl
    delete_keeps st ns lab ns' other ((link, _) ∷ links) =
        let name = get_k8lan_name lab link in
        let first = release_keeps st ns name ns' other in
        elim (Result-cases (release_lan (lan_client C) remove st ns name).1) [
          | inr (inl (_, e)) ↦ rw (delete_external_resources, e) first
          | inr (inr e) ↦ rw (delete_external_resources, e) first
          | inl (_, e) ↦
              rw (delete_external_resources, e)
                (delete_keeps (release_lan (lan_client C) remove st ns name).0 ns lab ns' other
                    links
                  ∙ first)
        ]
