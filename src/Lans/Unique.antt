-- ===== src/Lans/Unique.antt =====
-- `EnsureLinks` never gives two LANs one VNI.
use knl.Common.{
  ℕ, zero, suc, ◌+◌, ◌≡◌, ◌≢◌, refl, ap, ◌∙◌, ◌⊎◌, inl, inr, arith, String, ◌==◌, eq_iff,
  Bool-cases, true, false, Option, none, some, List, [], ◌∷◌, map, Map, lookup, Result, ok, err,
  panic, >>=-eq-ok, Result-cases, Option-cases, length, get_elem?, All, All-map,
}
use knl.Names.{get_k8lan_name, get_spoke_name}
use knl.Api.{Connector, Link, KnlConfigSpec}
use knl.Alloc.{get_available_vnis, max_vni}
use knl.Alloc.Bits as Bits
use knl.Alloc.Bits.{BitSet}
use knl.Alloc.Sound.{Ascending, FreshIn, get_available_vnis_sound}
use knl.Alloc.Taken.{vni_in_use}
use knl.Chassis.{deref}
use knl.Cluster.{ClusterError, create_if_not_exists_or_remove}
use knl.Cluster.Laws.{lift_state}
use knl.Cluster.Interface.{ApiError, not_found, api_failed, Client, IsLawful}
use knl.Defaulter.Slots.{get_sorted_key_slice}
use knl.Lans.{Lan, LanSpec, LanError}
use knl.Lans.Ensure.{
  Spokes, add_spokes, with_spoke, add_spoke, new_lan_of, created, first, after_first, listed,
  ensure_lan, ensure_link, ensure_each, ensure_links,
}
use knl.Lans.Views.{UniqueVnis, IsUnused, SameView, AddsLan, after_round, next_bound}

-- the loop over the connectors keeps the name and the VNI of the LAN
add_spokes-keeps :
    (link : String) (i : ℕ) (cs : List Connector) (lan lan' : Lan) (spokes spokes' : Spokes)
    → add_spokes link i cs lan spokes ≡ ok (lan', spokes')
    → (lan'.name ≡ lan.name) × (lan'.body.vni ≡ lan.body.vni)
unfolding add_spokes
add_spokes-keeps link i [] lan lan' spokes spokes' h = ground (arith, h)
add_spokes-keeps link i (c ∷ cs) lan lan' spokes spokes' h =
    let (vni, e, h1) = >>=-eq-ok (deref lan.body.vni) _ h in
    let (node, e', h2) = >>=-eq-ok (deref c.node_name) _ h1 in
    add_spokes-keeps link (i + 1) cs (with_spoke (get_spoke_name vni i) lan) lan'
      (add_spoke link (get_spoke_name vni i) node c spokes) spokes' h2

module _ (C : Client LanSpec) (L : IsLawful C) (set_owner : Lan → Result ApiError Lan)
    (keeps : (o o' : Lan) → set_owner o ≡ ok o' → (o'.name ≡ o.name) × (o'.body ≡ o.body))
    (gconf : KnlConfigSpec) (ns lab uid : String) where
  create-view :
      (st : C.St) (lan owned : Lan)
      → C.view st ns owned.name ≡ none
      → owned.body ≡ lan.body
      → let st' = (C.create st ns owned).0 in SameView C st st' ⊎ AddsLan C st st' lan.body.vni
  create-view st lan owned gone body =
      let st' = (C.create st ns owned).0 in
      let others : (m n : String)
          → ((m ≡ ns) × (n ≡ owned.name) → ⊥)
          → C.view st' m n ≡ C.view st m n =
        λ m n apart. L.create_others st ns owned m n apart in
      let failed : (C.create st ns owned).1 ≢ ok tt → SameView C st st' = λ bad m n.
        elim (Bool-cases (m == ns)) [
          | inr f ↦ others m n (λ (p, q). ground (arith, f, p, eq_iff m ns))
          | inl t ↦ elim (Bool-cases (n == owned.name)) [
            | inr g ↦ others m n (λ (p, q). ground (arith, g, q, eq_iff n owned.name))
            | inl u ↦
                rw ((eq_iff m ns).0 t, (eq_iff n owned.name).0 u) (L.create_failed st ns owned bad)
          ]
        ] in
      elim (Result-cases (C.create st ns owned).1) [
        | inl (_, e) ↦
            inr
              (ns, owned.name, owned, ap (λ b. b.vni) body, L.create_written st ns owned e, others)
        | inr (inl (_, e)) ↦ inl (failed (λ q. ground (arith, e, q)))
        | inr (inr e) ↦ inl (failed (λ q. ground (arith, e, q)))
      ]

  create_if-view :
      (st : C.St) (lan : Lan)
      → let (st', _) = create_if_not_exists_or_remove C st ns uid set_owner lan true false in
        SameView C st st' ⊎ ((C.view st ns lan.name ≡ none) × AddsLan C st st' lan.body.vni)
  unfolding create_if_not_exists_or_remove
  create_if-view st lan = elim (Result-cases (set_owner lan)) [
    | inr (inl (e, p)) ↦ rw (create_if_not_exists_or_remove, p) (inl (λ m n. refl))
    | inr (inr p) ↦ rw (create_if_not_exists_or_remove, p) (inl (λ m n. refl))
    | inl (owned, p) ↦ elim (Result-cases (C.get st ns owned.name)) [
      | inl (o, q) ↦ rw (create_if_not_exists_or_remove, p, q) (inl (λ m n. refl))
      | inr (inr q) ↦ rw (create_if_not_exists_or_remove, p, q) (inl (λ m n. refl))
      | inr (inl (api_failed, q)) ↦ rw (create_if_not_exists_or_remove, p, q) (inl (λ m n. refl))
      | inr (inl (not_found, q)) ↦
          let (named, body) = keeps lan owned p in
          let gone = L.get_missing st ns owned.name q in
          let moved = lift_state (C.create st ns owned) in
          rw (create_if_not_exists_or_remove, p, q, moved)
            (elim (create-view st lan owned gone body) [
              | inl same ↦ inl same
              | inr adds ↦ inr (rw named at gone, adds)
            ])
    ]
  ]

  created-state :
      (name : String) (spokes : Spokes) (r : C.St × Result ClusterError Unit)
      → (created C set_owner gconf ns lab uid name spokes r).0 ≡ r.0
  created-state name spokes (st, ok _) = refl
  created-state name spokes (st, err e) = refl
  created-state name spokes (st, panic) = refl

  ensure_lan-view :
      (st : C.St) (name : String) (link : Link) (spokes : Spokes) (lan : Result LanError Lan)
      → let st' = (ensure_lan C set_owner gconf ns lab uid st name link spokes lan).0 in
        SameView C st st'
        ⊎ ((l : Lan) × (lan ≡ ok l) × (C.view st ns l.name ≡ none) × AddsLan C st st' l.body.vni)
  unfolding ensure_lan
  ensure_lan-view st name link spokes (err e) = inl (λ m n. refl)
  ensure_lan-view st name link spokes panic = inl (λ m n. refl)
  ensure_lan-view st name link spokes (ok l) =
      elim (Result-cases (add_spokes name 0 link.connectors l spokes)) [
        | inr (inl (e, p)) ↦ rw (ensure_lan, p) (inl (λ m n. refl))
        | inr (inr p) ↦ rw (ensure_lan, p) (inl (λ m n. refl))
        | inl ((full, spokes'), p) ↦
            let (named, same_vni) =
              add_spokes-keeps name 0 link.connectors l full spokes spokes' p in
            let moved =
              created-state name spokes'
                (create_if_not_exists_or_remove C st ns uid set_owner full true false) in
            rw (ensure_lan, p, moved)
              (elim (create_if-view st full) [
                | inl same ↦ inl same
                | inr (gone, (m, n, o, given, there, others)) ↦
                    inr (l, refl, rw named at gone, (m, n, o, given ∙ same_vni, there, others))
              ])
      ]

  ensure_link-view :
      (st : C.St) (name : String) (link : Link) (next : Option ℕ) (spokes : Spokes)
      → let st' = (ensure_link C set_owner gconf ns lab uid st name link next spokes).0 in
        SameView C st st' ⊎ ((vni : ℕ) × (next ≡ some vni) × AddsLan C st st' (some vni))
  unfolding ensure_link new_lan_of
  ensure_link-view st name link next spokes =
      elim (Result-cases (C.get st ns (get_k8lan_name lab name))) [
        | inr (inr q) ↦ rw (ensure_link, q) (inl (λ m n. refl))
        | inr (inl (api_failed, q)) ↦ rw (ensure_link, q) (inl (λ m n. refl))
        | inl (lan, q) ↦
            let there = L.get_found st ns (get_k8lan_name lab name) lan q in
            let named = L.name_kept st ns (get_k8lan_name lab name) lan there in
            rw (ensure_link, q)
              (elim (ensure_lan-view st name link spokes (ok lan)) [
                | inl same ↦ inl same
                | inr (l, p, gone, _) ↦ absurd (ground (arith, p, gone, there, named))
              ])
        | inr (inl (not_found, q)) ↦
            rw (ensure_link, q)
              (elim (ensure_lan-view st name link spokes
                (new_lan_of gconf (get_k8lan_name lab name) next)) [
                  | inl same ↦ inl same
                  | inr (l, p, gone, adds) ↦
                      let (vni, found, p2) = >>=-eq-ok (deref next) _ p in
                      let (dev, _, p3) = >>=-eq-ok (deref gconf.vxlan_default_dev) _ p2 in
                      let given : l.body.vni ≡ some vni = ground (arith, p3) in
                      inr (vni, ground (arith, found), rw given at adds)
                ])
      ]

  ensure_each-UniqueVnis :
      (links : Map Link) (st : C.St) (names : List String) (vnis : List ℕ) (lo : ℕ)
      (spokes : Spokes)
      → UniqueVnis C st
      → Ascending lo vnis
      → All (IsUnused C st) vnis
      → UniqueVnis C (ensure_each C set_owner gconf ns lab uid links st names vnis spokes).0
  unfolding ensure_each
  ensure_each-UniqueVnis links st [] vnis lo spokes u a h = u
  ensure_each-UniqueVnis links st (name ∷ names) vnis lo spokes u a h =
      elim (Option-cases (lookup name links)) [
        | inl e ↦ rw (ensure_each, e) u
        | inr (link, e) ↦
            let round = ensure_link C set_owner gconf ns lab uid st name link (first vnis) spokes in
            let (u', a', h') =
              after_round C st round.0 vnis lo u a h
                (ensure_link-view st name link (first vnis) spokes) in
            elim (Result-cases round.1) [
              | inl (spokes', p) ↦
                  rw (ensure_each, e, p)
                    (ensure_each-UniqueVnis links round.0 names (after_first vnis)
                      (next_bound lo vnis) spokes' u' a' h')
              | inr (inl (_, p)) ↦ rw (ensure_each, e, p) u'
              | inr (inr p) ↦ rw (ensure_each, e, p) u'
            ]
      ]

  listed-in_use :
      (lans : List Lan) (i : ℕ) (o : Lan) (vni : ℕ)
      → get_elem? lans i ≡ some o
      → o.body.vni ≡ some vni
      → vni_in_use vni (map (λ lan. lan.body.vni) lans) ≡ true
  listed-in_use [] i o vni e has = cc
  listed-in_use (lan ∷ lans) zero o vni e has =
      let same : lan.body.vni ≡ some vni = ground (arith, e, has) in ground (arith, same)
  listed-in_use (lan ∷ lans) (suc i) o vni e has = ground (arith, listed-in_use lans i o vni e has)

  fresh-IsUnused :
      (st : C.St) (lans : List Lan) (limit : ℕ) (B : BitSet) (LB : Bits.IsLawful B) (vnis : List ℕ)
      → C.list st ≡ ok lans
      → All (FreshIn B LB limit (λ v. vni_in_use v (map (λ lan. lan.body.vni) lans))) vnis
      → All (IsUnused C st) vnis
  fresh-IsUnused st lans limit B LB vnis e fresh =
      All-map (FreshIn B LB limit (λ v. vni_in_use v (map (λ lan. lan.body.vni) lans)))
        (IsUnused C st)
        (λ v (_, _, free) m n o there has.
          let (i, found) = L.list_all st lans m n o e there in
          ground (arith, listed-in_use lans i o v found has, free))
        vnis fresh

  -- If no two LANs of the cluster have one VNI, then `EnsureLinks` leaves it so, whatever it
  -- returns. The client and the bit set follow their documented laws, and setting the owner of a LAN
  -- keeps its name and specification.
  pub ensure_links_unique :
      (B : BitSet) (LB : Bits.IsLawful B) (links : Map Link) (st : C.St) (spokes : Spokes)
      → UniqueVnis C st
      → UniqueVnis C (ensure_links C set_owner gconf ns lab uid B links st spokes).0
  unfolding ensure_links
  ensure_links_unique B LB links st spokes u =
      let lans = listed C set_owner gconf ns lab uid (C.list st) in
      elim (Result-cases (get_available_vnis B lans (length links))) [
        | inr (inl (_, e)) ↦ rw (ensure_links, e) u
        | inr (inr e) ↦ rw (ensure_links, e) u
        | inl (vnis, e) ↦ elim (Result-cases (C.list st)) [
          | inr (inl (_, q)) ↦ rw (ensure_links, q) u
          | inr (inr q) ↦ rw (ensure_links, q) u
          | inl (l, q) ↦
              let (_, a, fresh) =
                get_available_vnis_sound B LB (map (λ lan. lan.body.vni) l) (length links) vnis
                  (rw q at e) in
              rw (ensure_links, e)
                (ensure_each-UniqueVnis links st (get_sorted_key_slice links) vnis 0 spokes u a
                  (fresh-IsUnused st l max_vni B LB vnis q fresh))
        ]
      ]
