-- ===== src/Validate/Ports.antt =====
-- What the loops of validation accept.
use mathlib.Core.Option.{some_inj}
use knl.Common.{
  Bool-cases, sym, ◌∙◌, ◌≡◌, ◌≢◌, refl, ◌↔◌, ◌⊎◌, inl, inr, arith, String, eq_iff, Bool, true,
  false, Option, none, some, Option-cases, List, [], ◌∷◌, Map, has_key, ok, All, >>-iff, iff_trans,
  guard_iff, last_guard_iff, is_nil_iff,
}
use knl.Api.{Connector, Link, SrCard, SrChassis}
use knl.Chassis.{is_empty, has_mdas, validate_card, validate_cards, validate_chassis}
use knl.Validate.Systems.{
  SystemError, check_port, check_connectors, check_ports, chassis_result, given,
}

-- Each port that a connector gives for the node passes the test, and no name that is read is nil.
abbrev PortFits : Bool → (String → Bool) → String → Connector → Type 0
PortFits eager test node c =
    (eager ≡ true → c.node_name ≢ none)
    × ((port : String)
        → c.port_id ≡ some port
        → (name : String) × (c.node_name ≡ some name) × (name ≡ node → test port ≡ true))

unfoldable pub HasPorts : Bool → (String → Bool) → String → Map Link → Type 0
HasPorts eager test node links =
    All (λ entry. All (PortFits eager test node) entry.1.connectors) links

module _ (eager : Bool) (test : String → Bool) (fail : String → String → SystemError)
    (node : String) where
  check_port_iff :
      (link : String) (c : Connector)
      → (check_port eager test fail node link c ≡ ok tt) ↔ PortFits eager test node c
  unfolding check_port
  check_port_iff link c = elim (Option-cases c.node_name) [
    | inl gone ↦ elim (Option-cases c.port_id) [
      | inr (port, p) ↦ (
        λ h. absurd (ground (arith, gone, p, h)),
        λ (_, fits). let (name, e, _) = fits port p in absurd (ground (arith, e, gone)),
      )
      | inl p ↦ elim (Bool-cases eager) [
        | inl t ↦ (λ h. absurd (ground (arith, gone, p, t, h)), λ (needs, _). absurd (needs t gone))
        | inr f ↦ (
          λ h. (λ t. absurd (ground (arith, f, t)), λ port q. absurd (ground (arith, p, q))),
          λ h. ground (arith, gone, p, f),
        )
      ]
    ]
    | inr (name, e) ↦ elim (Option-cases c.port_id) [
      | inl p ↦ (
        λ h. (λ _ gone. ground (arith, e, gone), λ port q. absurd (ground (arith, p, q))),
        λ h. ground (arith, e, p),
      )
      | inr (port, p) ↦ (
        λ h. (
          λ _ gone. ground (arith, e, gone),
          λ other q. (name, e, λ same. ground (arith, h, e, p, q, same, eq_iff name node)),
        ),
        λ (_, fits).
            let (given, e', fit) = fits port p in
            let same : given ≡ name = some_inj.0 (sym e' ∙ e) in
            ground (arith, e, p, same, fit, eq_iff name node),
      )
    ]
  ]

  check_connectors_iff :
      (link : String) (cs : List Connector)
      → (check_connectors eager test fail node link cs ≡ ok tt) ↔ All (PortFits eager test node) cs
  unfolding check_connectors
  check_connectors_iff link [] = (λ h. tt, λ h. refl)
  check_connectors_iff link (c ∷ cs) = >>-iff (check_port_iff link c) (check_connectors_iff link cs)

  pub check_ports_iff :
      (links : Map Link)
      → (check_ports eager test fail node links ≡ ok tt) ↔ HasPorts eager test node links
  unfolding check_ports HasPorts
  check_ports_iff [] = (λ h. tt, λ h. refl)
  check_ports_iff ((name, link) ∷ links) =
      >>-iff (check_connectors_iff name link.connectors) (check_ports_iff links)

pub given_iff : {A : Type 0} (o : Option A) (e : SystemError) → (given o e ≡ ok tt) ↔ (o ≢ none)
given_iff none e = (λ h. cc, λ h. absurd (h refl))
given_iff (some a) e = (λ h n. cc, λ h. refl)

-- A card has a type, and not both MDAs and XIOMs.
unfoldable pub IsCard : SrCard → Type 0
IsCard card = (card.model ≢ none) × ((is_empty card.xiom ≡ true) ⊎ (has_mdas card.mdas ≡ false))

-- A chassis has a model and a type, and cards in order, one of which is in slot A.
unfoldable pub IsChassis : SrChassis → Map SrCard → Type 0
unfolding IsCard
IsChassis chassis cards =
    (chassis.model ≢ none)
    × ((chassis.type ≢ none) × (All (λ entry. IsCard entry.1) cards × (has_key "A" cards ≡ true)))

validate_card_iff : (card : SrCard) → (validate_card card ≡ ok tt) ↔ IsCard card
unfolding validate_card IsCard
validate_card_iff card =
    guard_iff _ _ (is_nil_iff card.model)
      (last_guard_iff _ _ (λ h. ground arith, λ h. ground (arith, h)))

validate_cards_iff :
    (cards : Map SrCard) → (validate_cards cards ≡ ok tt) ↔ All (λ entry. IsCard entry.1) cards
unfolding validate_cards
validate_cards_iff [] = (λ h. tt, λ h. refl)
validate_cards_iff ((slot, card) ∷ cards) =
    >>-iff (validate_card_iff card) (validate_cards_iff cards)

validate_chassis_iff :
    (chassis : SrChassis) (cards : Map SrCard)
    → (validate_chassis chassis cards ≡ ok tt) ↔ IsChassis chassis cards
unfolding validate_chassis IsChassis
validate_chassis_iff chassis cards = guard_iff _ _ (is_nil_iff chassis.model) (
    guard_iff _ _ (is_nil_iff chassis.type) (
      >>-iff {Q = has_key "A" cards ≡ true} (validate_cards_iff cards)
        (last_guard_iff _ _ (λ h. ground arith, λ h. ground arith))))

pub chassis_result_iff :
    (chassis : SrChassis) (cards : Map SrCard)
    → (chassis_result (validate_chassis chassis cards) ≡ ok tt) ↔ IsChassis chassis cards
chassis_result_iff chassis cards =
    iff_trans {B = validate_chassis chassis cards ≡ ok tt}
      (λ h. ground (arith, h), λ h. ground (arith, h)) (validate_chassis_iff chassis cards)
