-- ===== src/Validate/Links.antt =====
-- `Link.Validate` and `parseRoute` (api/v1beta1/link.go).
use Prim.Native.String.{[], ◌∷◌}
use knl.Common.{
  ℕ, zero, suc, length, ltb, String, ◌==◌, starts_with, Bool, true, false, not, ◌||◌, if◌then◌else◌,
  Option, none, some, List, Result, ok, err, panic, ◌>>◌,
}
use knl.Text.{to_lower, trim_space}
use knl.Api.{Connector, Link}
use knl.Validate.Imports.{Parsers}
use knl.Text.{push_front}

-- The errors about a text carry it.
pub data RouteError : Type 0 where
  not_route other_family : RouteError
  invalid_to invalid_via : String → RouteError

pub data LinkError : Type 0 where
  too_few_nodes empty_node_name : LinkError
  not_prefix not_unicast invalid_mac : String → LinkError
  invalid_route : String → RouteError → LinkError

-- `strings.Split(s, "via")`; the number is that of the separator's characters still to pass over
unfoldable pub split_via : ℕ → String → List String
unfolding push_front
split_via n [] = List.◌∷◌ "" List.[]
split_via (suc n) (c ∷ s) = split_via n s
split_via zero (c ∷ s) = elim (starts_with (c ∷ s) "via") [
  | true ↦ List.◌∷◌ "" (split_via 2 s)
  | false ↦ push_front c (split_via 0 s)
]

abbrev same : Bool → Bool → Bool
same a true = a
same a false = not a

module _ (P : Parsers) where
  unfoldable pub parse_route_parts : List String → Result RouteError (P.Prefix × P.Addr)
  unfolding trim_space
  parse_route_parts (List.◌∷◌ a (List.◌∷◌ b List.[])) = elim (P.parse_prefix (trim_space a)) [
    | none ↦ err (invalid_to (trim_space a))
    | some to ↦ elim (P.parse_addr (trim_space b)) [
      | none ↦ err (invalid_via (trim_space b))
      | some via ↦
          if same (P.is4 (P.prefix_addr to)) (P.is4 via) then ok (to, via) else err other_family
    ]
  ]
  parse_route_parts _ = err not_route

  -- `parseRoute`
  unfoldable pub parse_route : String → Result RouteError (P.Prefix × P.Addr)
  unfolding to_lower split_via parse_route_parts
  parse_route route = parse_route_parts (split_via 0 (to_lower route))

  unfoldable pub check_addrs : List String → Result LinkError Unit
  check_addrs List.[] = ok tt
  check_addrs (List.◌∷◌ addr addrs) = elim (P.parse_prefix addr) [
    | none ↦ err (not_prefix addr)
    | some prefix ↦
        let rest = check_addrs addrs in
        if not (P.is_valid_prefix prefix) || P.is_multicast (P.prefix_addr prefix)
        then err (not_unicast addr)
        else rest
  ]

  unfoldable pub check_routes : List String → Result LinkError Unit
  unfolding parse_route
  check_routes List.[] = ok tt
  check_routes (List.◌∷◌ route routes) = elim (parse_route route) [
    | ok _ ↦ check_routes routes
    | err e ↦ err (invalid_route route e)
    | panic ↦ panic
  ]

  abbrev pub check_mac : Option String → Result LinkError Unit
  check_mac none = ok tt
  check_mac (some mac) = if P.parse_mac mac then ok tt else err (invalid_mac mac)

  -- the check of the node's name, which is read without a check for nil
  abbrev pub check_name : Option String → Result LinkError Unit
  check_name none = panic
  check_name (some name) = if name == "" then err empty_node_name else ok tt

  -- a round of the loop over the connectors
  unfoldable pub validate_connector : Connector → Result LinkError Unit
  unfolding check_addrs check_routes
  validate_connector c = do
    check_name c.node_name
    check_addrs c.addrs
    check_routes c.routes
    check_mac c.mac

  unfoldable pub validate_connectors : List Connector → Result LinkError Unit
  unfolding validate_connector
  validate_connectors List.[] = ok tt
  validate_connectors (List.◌∷◌ c cs) = do validate_connector c; validate_connectors cs

  -- `Link.Validate`
  unfoldable pub validate_link : Link → Result LinkError Unit
  unfolding validate_connectors
  validate_link link =
      if ltb (length link.connectors) 2
      then err too_few_nodes
      else validate_connectors link.connectors
