-- ===== src/Vm/General.antt =====
-- The addresses of a general virtual machine (api/v1beta1/vmpc.go, getVMI, from "assign link address" on;
-- api/v1beta1/cloudinit.go; ParseLab and getLinkandConnector of api/v1beta1/parsed_lab.go). The
-- printers of addresses and `url.PathEscape` are parameters.
use knl.Common.{
  ℕ, ◌+◌, String, ◌<>◌, ◌==◌, Bool, true, false, if◌then◌else◌, Option, none, some, List, [], ◌∷◌,
  ◌++◌, Map, lookup, insert, Result, ok, err, panic, ◌>>=◌,
}
use knl.Text.{itoa}
use knl.Api.{Connector, Link}
use knl.Chassis.{deref, is_empty}
use knl.Validate.Imports.{Parsers}
use knl.Validate.Links.{parse_route}
use knl.Vm.Spokes.{or_nil}

-- the loop of `ParseLab` over the connectors of a link
unfoldable pub add_link :
    String → List Connector → Map (List String) → Result Unit (Map (List String))
unfolding lookup insert
add_link link [] m = ok m
add_link link (c ∷ cs) m = do
  node ← deref c.node_name
  add_link link cs (insert node (or_nil (lookup node m) ++ (link ∷ [])) m)

-- `ConnectorMap`: for each node, the links of its connectors
unfoldable pub connector_map : Map Link → Map (List String) → Result Unit (Map (List String))
unfolding add_link
connector_map [] m = ok m
connector_map ((name, link) ∷ links) m = do
  next ← add_link name link.connectors m
  connector_map links next

unfoldable pub first_connector : String → List Connector → Result Unit (Option Connector)
first_connector node [] = ok none
first_connector node (c ∷ cs) =
    let rest = first_connector node cs in
    deref c.node_name >>= λ name. if name == node then ok (some c) else rest

-- `getLinkandConnector`, of which only the connector is read
unfoldable pub get_connector : Map Link → String → String → Result Unit (Option Connector)
unfolding first_connector lookup
get_connector links node link = elim (lookup link links) [
  | none ↦ ok none
  | some l ↦ first_connector node l.connectors
]

pub data InitMethod : Type 0 where
  cloud_init ignition_nmgr other_method : InitMethod

-- the method that a text names
unfoldable pub init_method_of : String → InitMethod
init_method_of text =
    if text == "cloud-init"
    then cloud_init
    else if text == "ignition"
    then ignition_nmgr
    else other_method

-- a file of the ignition data, with the URL of its contents
pub record File : Type 0 where
  pub path : String
  pub source : String

module _ (P : Parsers) (addr_string : P.Addr → String) (prefix_string : P.Prefix → String)
    (encode_data_url : String → String) where
  -- `NicConfig` of cloud-init
  pub record NicConfig : Type 0 where
    pub dhcp4 : Bool
    pub mac : String
    pub addresses : List P.Prefix
    pub routes : List (P.Prefix × P.Addr)

  unfoldable pub must_parse_route : String → Result Unit (P.Prefix × P.Addr)
  unfolding parse_route
  must_parse_route route = elim (parse_route P route) [
    | ok r ↦ ok r
    | err e ↦ panic
    | panic ↦ panic
  ]

  unfoldable pub must_parse_prefixes : List String → Result Unit (List P.Prefix)
  must_parse_prefixes [] = ok []
  must_parse_prefixes (addr ∷ addrs) = do
    p ← deref (P.parse_prefix addr)
    more ← must_parse_prefixes addrs
    ok (p ∷ more)

  unfoldable pub must_parse_routes : List String → Result Unit (List (P.Prefix × P.Addr))
  unfolding must_parse_route
  must_parse_routes [] = ok []
  must_parse_routes (route ∷ routes) = do
    r ← must_parse_route route
    more ← must_parse_routes routes
    ok (r ∷ more)

  -- `AddConnector`
  unfoldable pub add_connector : String → Connector → Map NicConfig → Result Unit (Map NicConfig)
  unfolding must_parse_prefixes must_parse_routes insert
  add_connector nic c ethernets = do
    mac ← deref c.mac
    addresses ← must_parse_prefixes c.addrs
    routes ← must_parse_routes c.routes
    ok (
        insert nic (record { dhcp4 = false; mac = mac; addresses = addresses; routes = routes })
          ethernets)

  -- the lines of a connection's addresses, from the index `i` on: for IPv4 and for IPv6
  unfoldable pub address_lines : ℕ → List String → String × String → Result Unit (String × String)
  unfolding itoa
  address_lines i [] lines = ok lines
  address_lines i (text ∷ texts) (v4, v6) = do
    addr ← deref (P.parse_addr text)
    let line : String = "address" <> itoa (i + 1) <> "=" <> addr_string addr <> "\n"
    address_lines (i + 1) texts (if P.is4 addr then (v4 <> line, v6) else (v4, v6 <> line))

  unfoldable pub route_lines : ℕ → List String → String × String → Result Unit (String × String)
  unfolding itoa must_parse_route
  route_lines i [] lines = ok lines
  route_lines i (text ∷ texts) (v4, v6) = do
    (to, via) ← must_parse_route text
    let line : String =
        "route" <> itoa (i + 1) <> "=" <> prefix_string to <> "," <> addr_string via <> "\n"
    route_lines (i + 1) texts (if P.is4 via then (v4 <> line, v6) else (v4, v6 <> line))

  abbrev connection : ℕ → String → String → String → String
  connection i mac v4 v6 =
      "\n[connection]\nid=static-"
      <> itoa i
      <> "\ntype=ethernet\n\n[ethernet]\nmac-address="
      <> mac
      <> "\n[ipv4]\nmethod=manual\n# Format: IP_ADDRESS/CIDR,GATEWAY\n"
      <> v4
      <> "\n\n[ipv6]\nmethod=manual\n# Format: IP_ADDRESS/PREFIX_LENGTH,GATEWAY\n"
      <> v6

  -- the file of a connection
  unfoldable pub connection_file : ℕ → Connector → Result Unit File
  unfolding address_lines route_lines itoa
  connection_file i c = do
    lines ← address_lines 0 c.addrs ("", "")
    (v4, v6) ← route_lines 0 c.routes lines
    mac ← deref c.mac
    ok (record {
      path = "/etc/NetworkManager/system-connections/static-" <> itoa i <> ".nmconnection";
      source = encode_data_url (connection i mac v4 v6);
    })

  -- what a connector with addresses adds
  unfoldable pub configure :
      InitMethod
      → ℕ
      → Connector
      → Map NicConfig × List File
      → Result Unit (Map NicConfig × List File)
  unfolding add_connector connection_file itoa
  configure cloud_init i c (ethernets, files) = do
    next ← add_connector ("nic" <> itoa i) c ethernets
    ok (next, files)
  configure ignition_nmgr i c (ethernets, files) = do
    file ← connection_file i c
    ok (ethernets, files ++ (file ∷ []))
  configure other_method i c done = ok done

  -- the loop over the node's links; `i` counts the connectors found
  unfoldable pub assign :
      InitMethod
      → Map Link
      → String
      → ℕ
      → List String
      → Map NicConfig × List File
      → Result Unit (Map NicConfig × List File)
  unfolding get_connector configure
  assign method all node i [] done = ok done
  assign method all node i (link ∷ links) done = elim (get_connector all node link) [
    | err e ↦ err e
    | panic ↦ panic
    | ok none ↦ assign method all node i links done
    | ok (some c) ↦ elim (is_empty c.addrs) [
      | true ↦ assign method all node (i + 1) links done
      | false ↦ do next ← configure method (i + 1) c done; assign method all node (i + 1) links next
    ]
  ]

  -- `getDefCloudinitNetworkCfg`, with the MAC address of the pod's interface
  abbrev pub def_cloudinit_network_cfg : Map NicConfig
  def_cloudinit_network_cfg =
      ("firstnic", record { dhcp4 = true; mac = "02:ff:00:00:00:63"; addresses = []; routes = [] })
      ∷ []

  -- the configuration of the network and the files of a machine, for the links of its lab
  unfoldable pub init_network : String → Map Link → String → Result Unit (Map NicConfig × List File)
  unfolding assign connector_map lookup init_method_of
  init_network init links node = do
    m ← connector_map links []
    assign (init_method_of init) links node 0 (or_nil (lookup node m))
        (def_cloudinit_network_cfg, [])
