-- ===== src/Vm/Spokes.antt =====
-- The loop of `getVMI` over the ports of a card (api/v1beta1/srvm_ensure.go, port links).
use knl.Common.{
  String, ◌==◌, if◌then◌else◌, Option, none, some, List, [], ◌∷◌, ◌++◌, Map, lookup, Result, ok,
  ◌>>=◌,
}
use knl.Names.{get_k8lan_name}
use knl.Chassis.{deref}
use knl.Defaulter.Slots.{get_sorted_key_slice}
use knl.Lans.Ensure.{Spokes}
use knl.Vm.{Network, multus, Nic, plugin}

abbrev pub or_empty_text : Option String → String
or_empty_text none = ""
or_empty_text (some s) = s

abbrev pub or_nil : {A : Type 0} → Option (List A) → List A
or_nil none = []
or_nil (some l) = l

-- the port of a spoke's connector, which panics where the connector or its port is nil
unfoldable pub port_of : Spokes → String → Result Unit String
unfolding lookup
port_of spokes spoke = do c ← deref (lookup spoke spokes.spoke_connector_map); deref c.port_id

module _ (nad_name : String → String → String) (lab slot : String) (spokes : Spokes) where
  -- the network and the interface of a spoke
  abbrev pub spoke_network : String → Network
  spoke_network spoke = record {
    name = spoke;
    source =
        multus (
          nad_name (get_k8lan_name lab (or_empty_text (lookup spoke spokes.spoke_link_map))) spoke);
  }

  abbrev pub spoke_nic : String → Nic
  spoke_nic spoke = record { name = spoke; ports = []; binding = plugin "macvtap" }

  -- the loop over the spokes of a link
  unfoldable pub add_ports : List String → Result Unit (List Network × List Nic)
  unfolding port_of get_k8lan_name lookup
  add_ports [] = ok ([], [])
  add_ports (spoke ∷ more) = do
    port ← port_of spokes spoke
    (networks, nics) ← add_ports more
    if port == slot
        then ok (spoke_network spoke ∷ networks, spoke_nic spoke ∷ nics)
        else ok (networks, nics)

  -- the loop over the links, in the order given
  unfoldable pub add_link_ports :
      Map (List String) → List String → Result Unit (List Network × List Nic)
  unfolding add_ports
  add_link_ports of_node [] = ok ([], [])
  add_link_ports of_node (link ∷ links) = do
    (networks, nics) ← add_ports (or_nil (lookup link of_node))
    (more_networks, more_nics) ← add_link_ports of_node links
    ok (networks ++ more_networks, nics ++ more_nics)

  unfoldable pub port_links : String → Result Unit (List Network × List Nic)
  unfolding add_link_ports get_sorted_key_slice
  port_links chassis =
      let of_node = or_nil (lookup chassis spokes.spoke_map) in
      add_link_ports of_node (get_sorted_key_slice of_node)
