-- ===== src/Tests/Addresses.antt =====
-- The theorems on the addresses of general virtual machines, at concrete inputs.
use knl.Common.{
  ok_inj, ℕ, ◌≡◌, ◌≢◌, refl, sym, inl, inr, Bool-cases, eq_iff, String, ◌==◌, true, none, some,
  List, [], ◌∷◌, Map, lookup, insert, ok, panic, All,
}
use mathlib.Core.Option.{some_inj}
use mathlib.Core.Path.{subst}
use knl.Api.{Connector, Link}
use knl.Validate.Whole.{IsUnicast, IsRoute, IsMac, IsConnector}
use knl.Vm.General.{
  cloud_init, ignition_nmgr, File, NicConfig, get_connector, first_connector, connector_map,
  add_link, assign, def_cloudinit_network_cfg, init_method_of, init_network, configure,
  connection_file, address_lines,
}
use knl.Vm.Addresses.{assign_cloud_init, assign_ignition}
use knl.Tests.Configs.{parsers}

abbrev addr_string : ℕ → String
addr_string a = "a"

abbrev plain : String → String
plain text = text

abbrev end : String → List String → Connector
end node addrs = record {
  node_name = some node;
  port_id = none;
  addrs = addrs;
  routes = [];
  mac = some "12:20:22:00:00:01";
}

abbrev links : Map Link
links =
    ("link1", record { connectors = end "vm-1" ("10.0.0.1/24" ∷ []) ∷ end "vm-2" [] ∷ [] })
    ∷ ("link2", record { connectors = end "vm-2" [] ∷ end "vm-1" [] ∷ [] })
    ∷ []

-- each node's links, in order
vm_links :
    connector_map links []
    ≡ ok (("vm-1", "link1" ∷ "link2" ∷ []) ∷ ("vm-2", "link1" ∷ "link2" ∷ []) ∷ [])
unfolding connector_map add_link lookup insert
vm_links = refl

valid_end : IsConnector parsers (end "vm-1" ("10.0.0.1/24" ∷ []))
unfolding IsConnector IsUnicast IsRoute IsMac
valid_end = (
  ("vm-1", refl, λ h. cc),
  (
    ((4, (refl, (refl, refl))), tt),
    (tt, λ m e. subst (λ x. parsers.parse_mac x ≡ true) (some_inj.0 e) refl),
  ),
)

cloud_init_example :
    (r : Map (NicConfig parsers addr_string addr_string plain) × List File) × (assign parsers
        addr_string addr_string plain cloud_init links "vm-1" 0
        ("link1" ∷ [])
        (def_cloudinit_network_cfg parsers addr_string addr_string plain, [])
      ≡ ok r)
unfolding get_connector first_connector lookup
cloud_init_example =
    assign_cloud_init parsers addr_string addr_string plain links "vm-1" 0 ("link1" ∷ [])
      (def_cloudinit_network_cfg parsers addr_string addr_string plain, [])
      (
        (λ c e.
            subst (λ d. IsConnector parsers d × (d.mac ≢ none)) (some_inj.0 (ok_inj e))
              (valid_end, λ h. cc)),
        tt,
      )
      (((λ h. cc), ((λ h. cc), tt)), (((λ h. cc), ((λ h. cc), tt)), tt))

some_no : {A : Type 0} {a : A} → none ≡ some a → ⊥
some_no h = cc

apart :
    (text : String) (p : ℕ) → parsers.parse_prefix text ≡ some p → parsers.parse_addr text ≡ none
apart text p h = elim (Bool-cases (text == "10.0.0.1/24")) [
  | inl t ↦ subst (λ x. parsers.parse_addr x ≡ none) (sym ((eq_iff text "10.0.0.1/24").0 t)) refl
  | inr f ↦ absurd (some_no (rw f at h))
]

ignition_run :
    assign parsers addr_string addr_string plain ignition_nmgr links "vm-1" 0
      ("link2" ∷ [])
      (def_cloudinit_network_cfg parsers addr_string addr_string plain, [])
    ≡ ok (def_cloudinit_network_cfg parsers addr_string addr_string plain, [])
unfolding assign get_connector first_connector lookup
ignition_run = refl

ignition_example :
    All
      (λ link.
        (c : Connector)
        → get_connector links "vm-1" link ≡ ok (some c)
        → IsConnector parsers c
        → c.addrs ≡ [])
      ("link2" ∷ [])
ignition_example =
    assign_ignition parsers addr_string addr_string plain apart links "vm-1" 0 ("link2" ∷ [])
      (def_cloudinit_network_cfg parsers addr_string addr_string plain, [])
      (def_cloudinit_network_cfg parsers addr_string addr_string plain, []) ignition_run

-- An address that validation accepts is a panic with ignition.
ignition_panic : init_network parsers addr_string addr_string plain "ignition" links "vm-1" ≡ panic
unfolding init_network assign get_connector first_connector lookup connector_map add_link insert
    init_method_of configure connection_file address_lines
ignition_panic = refl
