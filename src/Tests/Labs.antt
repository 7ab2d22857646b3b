-- ===== src/Tests/Labs.antt =====
-- A lab with two nodes and one link, as in the README.
use knl.Common.{
  ℕ, arith, All, has_key, ◌≡◌, refl, String, true, Option, none, some, [], ◌∷◌, Map, Result, ok,
  lookup, insert, keys,
}
use knl.Api.{Connector, Link, LabSpec, OneOfSystem, Store}
use knl.Api.Defaults.{def_one_of, def_store}
use knl.Mac.{derive_mac, derive_chassis_mac, mac_string}
use knl.Names.{is_integrated_chassis, is_cpm}
use knl.Chassis.{get_default_mda_slot, validate_chassis}
use knl.Chassis.Fill.{fill_chassis}
use knl.Chassis.Sysinfo.{get_default_sysinfo_str}
use knl.Defaulter.{default_lab}
use knl.Api.OneOf.{get_new_system_via_name, empty_one_of}
use knl.Defaulter.Errors.{IsUntyped, default_lab_error}
use knl.Defaulter.Nodes.{underivable, add_cpms, DefaultError, add_node, default_links, cpm_name}
use knl.Defaulter.Macs.{connectors_of, add_nodes, default_links_distinct}
use knl.Defaulter.Keys.{Within}
use knl.Defaulter.Outcome.{Connected, HasSlot, default_lab_connects}
use knl.Defaulter.Replace.{Nodes, IsTyped}
use knl.Defaulter.Valid.{default_lab_valid}

abbrev connect : String → Connector
connect name = record { node_name = some name; port_id = none; addrs = []; routes = []; mac = none }

abbrev pub readme_lab : LabSpec
readme_lab = record {
  node_list = [];
  link_list = ("link1", record { connectors = connect "srsim-1" ∷ connect "vsim-1" ∷ [] }) ∷ [];
}

abbrev no_pointer : Option String → String
no_pointer _ = "0x0"

run : Result DefaultError (LabSpec × Store)
unfolding default_lab def_one_of def_store lookup insert keys get_default_mda_slot derive_mac
    fill_chassis validate_chassis get_default_sysinfo_str is_integrated_chassis is_cpm
    derive_chassis_mac mac_string
run = default_lab no_pointer (some def_one_of) readme_lab def_store

abbrev lab_of : Result DefaultError (LabSpec × Store) → LabSpec
lab_of (ok (lab, store)) = lab
lab_of _ = readme_lab

abbrev store_of : Result DefaultError (LabSpec × Store) → Store
store_of (ok (lab, store)) = store
store_of _ = def_store

readme_links :
    (lab_of run).link_list
    ≡ (
      "link1",
      record {
        connectors =
            record (connect "srsim-1") { mac = some "12:20:22:00:00:01" }
            ∷ record (connect "vsim-1") { port_id = some "1"; mac = some "12:20:22:00:00:02" }
            ∷ [];
      },
    )
      ∷ []
unfolding run
readme_links = refl

readme_runs :
    default_lab no_pointer (some def_one_of) readme_lab def_store ≡ ok (lab_of run, store_of run)
unfolding run
readme_runs = refl

abbrev second : ℕ
second = 1

abbrev numbered : Map Link
numbered =
    (
      "link1",
      record {
        connectors =
            record (connect "srsim-1") { mac = some "12:20:22:00:00:01" }
            ∷ record (connect "vsim-1") { mac = some "12:20:22:00:00:02" }
            ∷ [];
      },
    )
    ∷ []

abbrev empty_nodes : Map OneOfSystem
empty_nodes = ("srsim-1", empty_one_of) ∷ ("vsim-1", empty_one_of) ∷ []

distinct_example : second ≡ second
unfolding default_links derive_mac mac_string add_node lookup insert
distinct_example =
    default_links_distinct [] empty_nodes readme_lab.link_list numbered 2 1 1
      (record (connect "vsim-1") { mac = some "12:20:22:00:00:02" })
      (record (connect "vsim-1") { mac = some "12:20:22:00:00:02" }) (connect "vsim-1")
      (connect "vsim-1") (omega arith) refl refl refl refl refl refl refl refl

connects_example :
    All
      (λ c. (Connected (lab_of run).node_list c) × HasSlot c)
      (connectors_of (lab_of run).link_list)
    × Within [] (lab_of run).node_list
    × ((name cpm : String)
        → has_key name (add_nodes (connectors_of readme_lab.link_list) []) ≡ true
        → cpm_name name ≡ some cpm
        → has_key cpm (lab_of run).node_list ≡ true)
connects_example =
    default_lab_connects no_pointer (some def_one_of) readme_lab (lab_of run) def_store
      (store_of run) readme_runs

valid_example : Nodes IsTyped (lab_of run).node_list
valid_example =
    default_lab_valid no_pointer (some def_one_of) readme_lab (lab_of run) def_store (store_of run)
      tt readme_runs

abbrev unknown_lab : LabSpec
unknown_lab = record { node_list = ("foo-1", empty_one_of) ∷ []; link_list = [] }

error_example :
    (name : String) × (underivable "foo-1" ≡ underivable name)
    × IsUntyped name
        (add_cpms (add_nodes [] unknown_lab.node_list) (add_nodes [] unknown_lab.node_list))
    × (get_new_system_via_name name ≡ none)
unfolding default_lab get_new_system_via_name
error_example =
    default_lab_error no_pointer (some def_one_of) unknown_lab def_store (underivable "foo-1") refl
