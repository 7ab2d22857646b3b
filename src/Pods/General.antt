-- ===== src/Pods/General.antt =====
-- General pods: `getRootPVC` and the parts of `Ensure` (api/v1beta1/generalpod.go). `shlex.Split` and
-- `GenNAD` are parameters. A connector without addresses has the empty list.
use knl.Common.{
  ℕ, String, ◌<>◌, Option, none, some, List, [], ◌∷◌, Result, ok, ◌>>=◌, if◌then◌else◌,
}
use knl.Api.{GeneralPod, Quantity, Connector, KnlConfigSpec}
use knl.Chassis.{deref, is_empty}
use knl.Kube.{claim_source, Pod, Claim, ParsedLab, EnsureError, new_base_pod}
use knl.Pods.Nets.{LanNames, node_nets, annotate}
use knl.Pods.Srl.{mount, requests_of, unwrap}
use knl.Validate.Imports.{Parsers}
use knl.Validate.Links.{parse_route}
use knl.Vm.{Nad, get_obj_meta}

-- `getRootPVC`
unfoldable pub get_root_pvc :
    KnlConfigSpec → String → String → String → Quantity → Result EnsureError Claim
unfolding get_obj_meta
get_root_pvc gconf ns node lab size = do
  class ← deref gconf.pvc_storage_class
  ok (record {
    meta = get_obj_meta (lab <> "-" <> node <> "-root") lab ns node "pod";
    storage_class = class;
    storage = size;
  })

-- the text of a spoke: the attachment with addresses where there are any, and the port if given
unfoldable pub pod_entry : LanNames → ℕ → String → String → Connector → Result EnsureError String
pod_entry names i lan spoke c =
    let nad =
      if is_empty c.addrs
      then names.get_def_nad_name lan spoke
      else names.get_addr_nad_name lan spoke in
    elim c.port_id [ none ↦ ok nad | some port ↦ ok (nad <> "@" <> port) ]

abbrev words_of : (String → List String) → Option String → List String
words_of split none = []
words_of split (some command) = split command

-- the pod, with the claim's name
unfoldable pub general_pod :
    LanNames
    → (String → List String)
    → ParsedLab
    → GeneralPod
    → String
    → String
    → String
    → Result EnsureError Pod
unfolding new_base_pod node_nets pod_entry annotate
general_pod names split lab gpod image node root = do
  nets ← node_nets names lab.name lab.spokes (pod_entry names) node
  ok (
      annotate nets.text (record (new_base_pod lab.name node lab.ns image "pod") {
        containers =
            record {
              name = "main";
              image = image;
              command = words_of split gpod.command;
              security_context = some (record {
                privileged = gpod.privileged;
                run_as_user = none;
                run_as_group = none;
              });
              volume_mounts = mount "root" "/root" ∷ [];
              env = [];
              limits = nets.limits;
              requests = requests_of gpod.req_cpu gpod.req_memory;
              pre_stop = [];
            }
            ∷ [];
        volumes = record { name = "root"; source = claim_source root } ∷ [];
      }))

module _ (P : Parsers) where
  -- the loop over the addresses of a connector
  unfoldable pub pod_prefixes : List String → Result EnsureError (List P.Prefix)
  pod_prefixes [] = ok []
  pod_prefixes (text ∷ texts) = do
    prefix ← deref (P.parse_prefix text)
    rest ← pod_prefixes texts
    ok (prefix ∷ rest)

  -- the loop over its routes, which drops the error and reads the nil route
  unfoldable pub pod_routes : List String → Result EnsureError (List (P.Prefix × P.Addr))
  unfolding parse_route
  pod_routes [] = ok []
  pod_routes (text ∷ texts) = do
    route ← unwrap (parse_route P text)
    rest ← pod_routes texts
    ok (route ∷ rest)

  -- the attachment of a spoke, of its LAN, the spoke and the operator's namespace
  unfoldable pub address_nad :
      (String → String → String → List P.Prefix → List (P.Prefix × P.Addr) → Nad)
      → String
      → String
      → String
      → Connector
      → Result EnsureError Nad
  unfolding pod_prefixes pod_routes
  address_nad gen_nad my_namespace lan spoke c = do
    prefixes ← pod_prefixes c.addrs
    routes ← pod_routes c.routes
    ok (gen_nad lan spoke my_namespace prefixes routes)
