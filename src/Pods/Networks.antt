-- ===== src/Pods/Networks.antt =====
-- The text of a pod's networks, and the limits of its resources.
use Prim.Native.String.{[], ◌∷◌}
use Prim.Native.String.append
use text.Mathlib.TextLemmas.{append-nil, append_assoc, append-eq-nil_iff}
use knl.Common.{
  ℕ, ◌+◌, ◌≡◌, ◌≢◌, refl, sym, ap, ◌∙◌, inl, inr, arith, String, ◌<>◌, ◌==◌, eq_iff, ◌↔◌, Bool,
  true, false, ◌||◌, if◌then◌else◌, none, some, List, ◌++◌, Map, lookup, lookup-insert, Result, ok,
  ◌>>=◌, Result-cases, Option-cases, >>=-eq-ok, ok_inj,
}
use knl.Api.{Connector}
use knl.Chassis.{deref}
use knl.Defaulter.Slots.{get_sorted_key_slice}
use knl.Kube.{EnsureError}
use knl.Lans.Ensure.{Spokes}
use knl.Pods.Nets.{
  LanNames, Nets, cut_last, lan_of, resource_key, next_nets, add_nets, add_link_nets, node_nets,
}
use knl.Pods.Shapes.{deref-some}
use knl.Vm.Spokes.{or_nil}
use knl.Vm.Laws.{node_spokes, spokes_of}

-- the texts, with a comma between each two
unfoldable pub join : List String → String
join List.[] = ""
join (List.◌∷◌ e List.[]) = e
join (List.◌∷◌ e (List.◌∷◌ f es)) = e <> "," <> join (List.◌∷◌ f es)

-- the texts, with a comma behind each
commas : List String → String
commas List.[] = ""
commas (List.◌∷◌ e es) = e <> "," <> commas es

cut_last-append : (s t : String) → t ≢ "" → cut_last (s <> t) ≡ s <> cut_last t
unfolding cut_last
cut_last-append s [] full = absurd (full refl)
cut_last-append [] (d ∷ t) full = rw (append.nil (d ∷ t), append.nil (cut_last (d ∷ t))) refl
cut_last-append (c ∷ []) (d ∷ t) full =
    rw
      (
        append.cons c "" (d ∷ t),
        append.nil (d ∷ t),
        append.cons c "" (cut_last (d ∷ t)),
        append.nil (cut_last (d ∷ t)),
      )
      refl
cut_last-append (c ∷ c' ∷ s) (d ∷ t) full =
    rw
      (
        append.cons c (c' ∷ s) (d ∷ t),
        append.cons c' s (d ∷ t),
        append.cons c (c' ∷ s) (cut_last (d ∷ t)),
      )
      (ap (λ r. c ∷ r)
        (ap cut_last (sym (append.cons c' s (d ∷ t))) ∙ cut_last-append (c' ∷ s) (d ∷ t) full))

commas_full : (e : String) (es : List String) → commas (List.◌∷◌ e es) ≢ ""
unfolding commas
commas_full e es h =
    let (_, k) = append-eq-nil_iff.0 h in
    let (c, _) = append-eq-nil_iff.0 k in let t : ("," == "") ≡ true = (eq_iff "," "").1 c in cc

-- the text without the last comma
cut_last-commas : (es : List String) → cut_last (commas es) ≡ join es
unfolding commas join cut_last
cut_last-commas List.[] = refl
cut_last-commas (List.◌∷◌ e List.[]) =
    cut_last-append e ("," <> "") (commas_full "" List.[]) ∙ append-nil e
cut_last-commas (List.◌∷◌ e (List.◌∷◌ f es)) =
    let rest = commas (List.◌∷◌ f es) in
    cut_last-append e ("," <> rest) (λ h. commas_full f es (append-eq-nil_iff.0 h).1)
    ∙ ap (λ r. e <> r)
        (cut_last-append "," rest (commas_full f es)
          ∙ ap (λ r. "," <> r) (cut_last-commas (List.◌∷◌ f es)))

empty_iff : (text : String) (es : List String) → text ≡ commas es → (text ≡ "") ↔ (es ≡ List.[])
unfolding commas
empty_iff text List.[] same = (λ _. refl, λ _. same)
empty_iff text (List.◌∷◌ e es) same = (λ h. absurd (commas_full e es (sym same ∙ h)), λ h. cc)

module _ (names : LanNames) (lab : String) (spokes : Spokes)
    (entry : ℕ → String → String → Connector → Result EnsureError String) where
  -- Each spoke has a connector, and its text is the entry of its number, counting from `i`.
  unfoldable pub IsListed : ℕ → List String → List String → Type 0
  IsListed i List.[] List.[] = Unit
  IsListed i List.[] (List.◌∷◌ e es) = ⊥
  IsListed i (List.◌∷◌ s ss) List.[] = ⊥
  IsListed i (List.◌∷◌ s ss) (List.◌∷◌ e es) =
      ((c : Connector) × (lookup s spokes.spoke_connector_map ≡ some c)
        × (entry i (lan_of lab spokes s) s c ≡ ok e))
      × IsListed (i + 1) ss es

  abbrev any_key : String → List String → Bool
  any_key key List.[] = false
  any_key key (List.◌∷◌ s ss) = resource_key names lab spokes entry s == key || any_key key ss

  -- what the loops have done for the spokes of the list
  abbrev Covers : List String → Nets → Nets → Type 0
  Covers ss n n' =
      (es : List String) × IsListed n.index ss es
      × (n'.text ≡ n.text <> commas es)
      × ((key : String)
          → lookup key n'.limits ≡ (if any_key key ss then some "1" else lookup key n.limits))

  add_nets-Covers :
      (ss : List String) (n n' : Nets)
      → add_nets names lab spokes entry ss n ≡ ok n'
      → Covers ss n n'
  unfolding add_nets IsListed commas
  add_nets-Covers List.[] n n' h =
      rw (sym (ok_inj h)) (List.[], tt, sym (append-nil n.text), λ key. refl)
  add_nets-Covers (List.◌∷◌ s ss) n n' h =
      let (c, h1, k1) = >>=-eq-ok (deref (lookup s spokes.spoke_connector_map)) _ h in
      let (e, h2, k2) = >>=-eq-ok (entry n.index (lan_of lab spokes s) s c) _ k1 in
      let (es, listed, text, limits) =
        add_nets-Covers ss (next_nets names lab spokes entry s e n) n' k2 in
      (
        List.◌∷◌ e es,
        ((c, deref-some _ c h1, h2), listed),
        text
            ∙ append_assoc n.text (e <> ",") (commas es)
            ∙ ap (λ r. n.text <> r) (append_assoc e "," (commas es)),
        λ key. ground (
          arith,
          limits key,
          lookup-insert (resource_key names lab spokes entry s) key "1" n.limits,
        ),
      )

  add_nets-append :
      (xs ys : List String) (n : Nets)
      → add_nets names lab spokes entry (xs ++ ys) n
        ≡ (add_nets names lab spokes entry xs n >>= add_nets names lab spokes entry ys)
  unfolding add_nets
  add_nets-append List.[] ys n = refl
  add_nets-append (List.◌∷◌ x xs) ys n = elim (Option-cases (lookup x spokes.spoke_connector_map)) [
    | inl e ↦ rw e refl
    | inr (c, e) ↦ elim (Result-cases (entry n.index (lan_of lab spokes x) x c)) [
      | inl (t, f) ↦ rw (e, f) (add_nets-append xs ys (next_nets names lab spokes entry x t n))
      | inr (inl (_, f)) ↦ rw (e, f) refl
      | inr (inr f) ↦ rw (e, f) refl
    ]
  ]

  add_link_nets-eq :
      (of_node : Map (List String)) (links : List String) (n : Nets)
      → add_link_nets names lab spokes entry of_node links n
        ≡ add_nets names lab spokes entry (node_spokes of_node links) n
  unfolding add_link_nets add_nets node_spokes
  add_link_nets-eq of_node List.[] n = refl
  add_link_nets-eq of_node (List.◌∷◌ link links) n =
      ap (λ k. add_nets names lab spokes entry (or_nil (lookup link of_node)) n >>= k)
        (λ i m. add_link_nets-eq of_node links m i)
      ∙ sym (add_nets-append (or_nil (lookup link of_node)) (node_spokes of_node links) n)

  -- Every spoke of the node, by sorted link names, has a connector; the text without its last comma
  -- joins by commas one text for each spoke, in this order and numbered from 1, and it is empty if
  -- there is none; the limits have one unit of each spoke's resource and nothing else.
  unfoldable pub IsNetworked : String → Nets → Type 0
  IsNetworked node n =
      (es : List String) × IsListed 1 (spokes_of spokes node) es
      × (cut_last n.text ≡ join es)
      × ((n.text ≡ "") ↔ (es ≡ List.[]))
      × ((key : String)
          → lookup key n.limits ≡ (if any_key key (spokes_of spokes node) then some "1" else none))

  -- When the loops over a node's links end, the networks' text, without its last comma, joins by commas
  -- one text for each spoke of the node, by sorted link names and numbered from 1, and the limits ask
  -- for one unit of each spoke's resource and for nothing else; each spoke has a connector.
  pub node_nets-IsNetworked :
      (node : String) (n : Nets) → node_nets names lab spokes entry node ≡ ok n → IsNetworked node n
  unfolding IsNetworked node_nets spokes_of lookup commas
  node_nets-IsNetworked node n h =
      let of_node = or_nil (lookup node spokes.spoke_map) in
      let start : Nets = record { text = ""; limits = List.[]; index = 1 } in
      let (es, listed, text, limits) =
        add_nets-Covers (spokes_of spokes node) start n
          (sym (add_link_nets-eq of_node (get_sorted_key_slice of_node) start) ∙ h) in
      let same : n.text ≡ commas es = text ∙ append.nil (commas es) in
      (es, listed, ap cut_last same ∙ cut_last-commas es, empty_iff n.text es same, limits)
