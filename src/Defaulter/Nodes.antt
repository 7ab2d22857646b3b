-- ===== src/Defaulter/Nodes.antt =====
-- The first steps of `Default`: nodes and MAC addresses for the connectors, missing CPMs, and a
-- system for each node that names none.
use knl.Common.{
  ℕ, ◌+◌, String, ◌<>◌, ◌||◌, Option, none, some, is_nil, List, [], ◌∷◌, ◌==◌, if◌then◌else◌, Map,
  lookup, insert, Result, ok, err, panic, ◌>>=◌,
}
use knl.Mac.{base_mac_addr, derive_mac, mac_string}
use knl.Names.{parse_srvm_name, SrvmName}
use knl.Api.{Connector, Link, OneOfSystem}
use knl.Api.OneOf.{empty_one_of, get_system, assign_system, get_new_system_via_name}
use knl.Chassis.{deref, set_default_generic, itoa_int}
use knl.LoadDef.{LoadError}

pub data DefaultError : Type 0 where
  underivable : String → DefaultError
  load_failed : LoadError → DefaultError

-- `if _, ok := NodeList[name]; !ok { NodeList[name] = new(OneOfSystem) }`
unfoldable pub add_node : String → Map OneOfSystem → Map OneOfSystem
add_node name nodes = if is_nil (lookup name nodes) then insert name empty_one_of nodes else nodes

abbrev pub as_default : {A : Type 0} → Result Unit A → Result DefaultError A
as_default (ok a) = ok a
as_default (err e) = panic
as_default panic = panic

-- the inner loop: `offset` counts the connectors so far
unfoldable pub default_connectors :
    ℕ
    → Map OneOfSystem
    → List Connector
    → Result DefaultError (ℕ × Map OneOfSystem × List Connector)
unfolding add_node
default_connectors offset nodes [] = ok (offset, nodes, [])
default_connectors offset nodes (c ∷ cs) = do
  name ← deref c.node_name
  derived ← as_default (derive_mac base_mac_addr (offset + 1))
  (end, nodes', cs') ← default_connectors (offset + 1) (add_node name nodes) cs
  ok (end, nodes', record c { mac = set_default_generic c.mac (mac_string derived) } ∷ cs')

-- the loop over the links
unfoldable pub default_links :
    ℕ → Map OneOfSystem → Map Link → Result DefaultError (ℕ × Map OneOfSystem × Map Link)
unfolding default_connectors
default_links offset nodes [] = ok (offset, nodes, [])
default_links offset nodes ((name, link) ∷ links) = do
  (next, nodes', cs) ← default_connectors offset nodes link.connectors
  (end, nodes'', links') ← default_links next nodes' links
  ok (end, nodes'', (name, record { connectors = cs }) ∷ links')

abbrev cpm_of : SrvmName → Option String
cpm_of parsed = elim parsed.vmid [
  | none ↦ none
  | some id ↦
      if parsed.failed
      then none
      else if parsed.vmtype == "vsim" || parsed.vmtype == "magc"
      then some (parsed.vmtype <> "-" <> itoa_int id <> "-a")
      else none
]

-- the name of the CPM that a node of the old name format needs; `none` for any other node
unfoldable pub cpm_name : String → Option String
unfolding parse_srvm_name itoa_int
cpm_name name = cpm_of (parse_srvm_name name)

abbrev pub add_cpm : Option String → Map OneOfSystem → Map OneOfSystem
add_cpm none nodes = nodes
add_cpm (some cpm) nodes = add_node cpm nodes

-- The loop over the nodes, which adds to the map that it visits: `todo` are the entries still to be
-- visited. Go may or may not visit an entry that is added meanwhile.
unfoldable pub add_cpms : Map OneOfSystem → Map OneOfSystem → Map OneOfSystem
unfolding cpm_name add_node
add_cpms [] nodes = nodes
add_cpms ((name, _) ∷ todo) nodes = add_cpms todo (add_cpm (cpm_name name) nodes)

unfoldable pub type_node : String → OneOfSystem → Result DefaultError OneOfSystem
type_node name node = elim (get_system node) [
  | some _ ↦ ok node
  | none ↦ elim (get_new_system_via_name name) [
    | none ↦ err (underivable name)
    | some sys ↦ ok (assign_system sys node)
  ]
]

-- the loop that gives a node without a system the one that its name says
unfoldable pub type_nodes : Map OneOfSystem → Result DefaultError (Map OneOfSystem)
unfolding type_node get_system get_new_system_via_name assign_system
type_nodes [] = ok []
type_nodes ((name, node) ∷ nodes) = do
  typed ← type_node name node
  rest ← type_nodes nodes
  ok ((name, typed) ∷ rest)
