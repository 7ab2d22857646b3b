-- ===== src/Validate.antt =====
-- Validation of a lab (api/v1beta1/node.go, LabSpec.Validate, and the Validate of each system and of links)
-- and the validating webhook of labs (internal/webhook/v1beta1/lab_webhook.go). The parsers that the
-- program imports are an interface.
pub mod Imports
pub mod Srl
pub mod Systems
pub mod Links
pub mod Ports
pub mod Accepted
pub mod Whole
use knl.Common.{
  String, Bool, true, false, if◌then◌else◌, Option, none, some, [], ◌∷◌, Map, Result, ok, err,
  panic, ◌>>=◌, ◌>>◌,
}
use knl.Api.{OneOfSystem, Link, LabSpec, Store}
use knl.Api.OneOf.{OneOfError, validate, get_system}
use knl.Chassis.{is_empty}
use knl.Validate.Imports.{Parsers}
use knl.Validate.Systems.{SystemError, validate_system}
use knl.Validate.Links.{LinkError, validate_link}

-- The errors carry the name of the node or the link.
pub data LabError : Type 0 where
  no_node : LabError
  invalid_node : String → OneOfError → LabError
  failed_node : String → SystemError → LabError
  invalid_link : String → LinkError → LabError

-- an error that is wrapped in another
abbrev pub wrap : {D E : Type 0} → (D → E) → Result D Unit → Result E Unit
wrap f (ok _) = ok tt
wrap f (err e) = err (f e)
wrap f panic = panic

module _ (P : Parsers) where
  -- a round of the loop over the nodes of `lab`
  unfoldable pub validate_node : LabSpec → Store → String → OneOfSystem → Result LabError Unit
  unfolding validate get_system validate_system
  validate_node lab store name node = do
    wrap (invalid_node name) (validate node)
    elim (get_system node) [
      | none ↦ panic
      | some (sys, _) ↦ wrap (failed_node name) (validate_system P lab store name sys)
    ]

  unfoldable pub validate_nodes : LabSpec → Store → Map OneOfSystem → Result LabError Unit
  unfolding validate_node
  validate_nodes lab store [] = ok tt
  validate_nodes lab store ((name, node) ∷ nodes) = do
    validate_node lab store name node
    validate_nodes lab store nodes

  unfoldable pub validate_links : Map Link → Result LabError Unit
  unfolding validate_link
  validate_links [] = ok tt
  validate_links ((name, link) ∷ links) = do
    wrap (invalid_link name) (validate_link P link)
    validate_links links

  -- `LabSpec.Validate`
  unfoldable pub validate_lab : LabSpec → Store → Result LabError Unit
  unfolding validate_nodes validate_links
  validate_lab lab store =
      if is_empty lab.node_list
      then err no_node
      else do validate_nodes lab store lab.node_list; validate_links lab.link_list

  pub data UpdateError : Type 0 where
    forbidden : UpdateError
    invalid : LabError → UpdateError

  -- `ValidateUpdate`, with `reflect.DeepEqual` at the specifications of labs
  unfoldable pub validate_update :
      (LabSpec → LabSpec → Bool) → LabSpec → LabSpec → Store → Result UpdateError Unit
  unfolding validate_lab
  validate_update deep_equal old new store =
      if deep_equal new old then wrap invalid (validate_lab new store) else err forbidden
