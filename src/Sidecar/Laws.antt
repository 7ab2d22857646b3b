-- ===== src/Sidecar/Laws.antt =====
-- What the edits of a domain leave.
use knl.Common.{
  ◌≡◌, ◌≢◌, sym, ap, ◌↔◌, ◌⊎◌, inl, inr, arith, String, starts_with, eq_iff, true, false,
  Bool-cases, Option, none, some, Option-cases, List, [], ◌∷◌, Result, ok, >>=-eq-ok, >>=-of-ok,
  ok_inj,
}
use knl.Chassis.{deref}
use knl.Sidecar.Edit.{Interface, is_port, keep_ports}

deref-some :
    {E A : Type 0} {o : Option A} {a : A} → ◌≡◌ {A = Result E A} (deref o) (ok a) → o ≡ some a
deref-some {o = none} h = cc
deref-some {o = some b} h = ap some (ok_inj h)

module _ {R : Type 0} where
  abbrev virtio : Interface R → Interface R
  virtio i = record i { model = some "virtio" }

  -- an interface of the instance's own ports: it has an alias, which is not empty, and which begins
  -- neither as the VxLAN devices do nor as the macvtap bridges do
  unfoldable pub IsOwn : Interface R → Type 0
  IsOwn i =
      (name : String) × (i.alias ≡ some name)
      × (name ≢ "")
      × (starts_with name "ua-vxlandev" ≡ false)
      × (starts_with name "ua-macvtapbr" ≡ false)

  is_port-IsOwn : (i : Interface R) → is_port i ≡ true → IsOwn i
  unfolding is_port IsOwn
  is_port-IsOwn i h = elim (Option-cases i.alias) [
    | inl e ↦ absurd (ground (arith, e, h))
    | inr (name, e) ↦ (
      name,
      e,
      λ empty. ground (arith, e, h, eq_iff name "", empty),
      ground (arith, e, h),
      ground (arith, e, h),
    )
  ]

  IsOwn-is_port : (i : Interface R) → IsOwn i → is_port i ≡ true
  unfolding is_port IsOwn
  IsOwn-is_port i (name, e, filled, a, b) = ground (arith, e, filled, a, b, eq_iff name "")

  -- What the loop may leave: the interfaces of the instance's own ports, each with a model that
  -- becomes virtio's, in order.
  unfoldable pub AreKept : List (Interface R) → List (Interface R) → Type 0
  AreKept [] ports = ports ≡ []
  AreKept (i ∷ is) ports =
      (IsOwn i
        × (i.model ≢ none)
        × ((rest : List (Interface R)) × AreKept is rest
            × (ports ≡ record i { model = some "virtio" } ∷ rest)))
      ⊎ ((IsOwn i → ⊥) × AreKept is ports)

  -- The loop leaves just the interfaces whose alias is not empty and has no ignored prefix, in
  -- order, and changes only their model. It succeeds if and only if each of these has a model.
  pub keep_ports_iff :
      (is ports : List (Interface R)) → (keep_ports is ≡ ok ports) ↔ AreKept is ports
  unfolding keep_ports AreKept
  keep_ports_iff [] ports = (λ h. sym (ok_inj h), λ e. ap ok (sym e))
  keep_ports_iff (i ∷ is) ports = elim (Bool-cases (is_port i)) [
    | inl t ↦
        rw (keep_ports, t)
          (
            λ h.
                let (model, h1, h2) = >>=-eq-ok (deref i.model) _ h in
                let (rest, h3, h4) = >>=-eq-ok (keep_ports is) _ h2 in
                inl (
                  is_port-IsOwn i t,
                  λ gone. ground (arith, deref-some h1, gone),
                  (rest, (keep_ports_iff is rest).0 h3, sym (ok_inj h4)),
                ),
            λ kept. elim kept [
              | inr (foreign, _) ↦ absurd (foreign (is_port-IsOwn i t))
              | inl (_, given, (rest, more, e)) ↦ elim (Option-cases i.model) [
                | inl gone ↦ absurd (given gone)
                | inr (model, m) ↦
                    >>=-of-ok _ (ap deref m)
                      (>>=-of-ok _ ((keep_ports_iff is rest).1 more) (ap ok (sym e)))
              ]
            ],
          )
    | inr f ↦
        rw (keep_ports, f)
          (
            λ h. inr (λ own. ground (arith, IsOwn-is_port i own, f), (keep_ports_iff is ports).0 h),
            λ kept. elim kept [
              | inl (own, _, _) ↦ absurd (ground (arith, IsOwn-is_port i own, f))
              | inr (_, more) ↦ (keep_ports_iff is ports).1 more
            ],
          )
  ]
