-- ===== src/Defaulter.antt =====
-- `LabCustomDefaulter.Default` (internal/webhook/v1beta1/lab_webhook.go): the mutating webhook of a
-- lab. Maps are visited in the order of their lists. The store holds the card maps, those of the
-- operator's configuration among them.
pub mod Nodes
pub mod Slots
pub mod Macs
pub mod Keys
pub mod Steps
pub mod Outcome
pub mod Replace
pub mod Valid
pub mod NoError
pub mod Errors
use knl.Common.{
  ℕ, zero, suc, ◌+◌, String, ◌<>◌, Bool, true, false, Option, none, some, is_nil, List, [], ◌∷◌,
  ◌==◌, if◌then◌else◌, Map, lookup, insert, Result, ok, err, panic, ◌>>=◌,
}
use knl.Api.{Connector, Link, LabSpec, OneOfSystem, System, Store}
use knl.LoadDef.{LoadError, load_def}
use knl.Defaulter.Nodes.{
  DefaultError, underivable, load_failed, default_links, add_cpms, type_nodes,
}
use knl.Defaulter.Slots.{fill_nodes, fill_ports, fill_macs}

unfoldable pub lift_load : {A : Type 0} → Result LoadError A → Result DefaultError A
lift_load (ok a) = ok a
lift_load (err e) = err (load_failed e)
lift_load panic = panic

-- `Default`, with the default node of the configuration
unfoldable pub default_lab :
    (Option String → String)
    → Option OneOfSystem
    → LabSpec
    → Store
    → Result DefaultError (LabSpec × Store)
unfolding lift_load default_links add_cpms type_nodes load_def fill_nodes fill_ports fill_macs
default_lab pointer_text def lab store = do
  (offset, nodes, links) ← default_links 0 lab.node_list lab.link_list
  typed ← type_nodes (add_cpms nodes nodes)
  loaded ← lift_load (load_def def typed)
  (filled, store') ← fill_nodes pointer_text loaded store
  ported ← fill_ports filled store' links
  done ← fill_macs filled
  ok (record { node_list = done; link_list = ported }, store')
