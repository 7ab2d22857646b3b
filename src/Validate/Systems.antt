-- ===== src/Validate/Systems.antt =====
-- `Validate` of each system (api/v1beta1/srvm.go, srsim.go, srl.go, generalpod.go, vmpc.go).
use knl.Common.{
  true, false, String, ◌==◌, starts_with, Bool, not, ◌&&◌, if◌then◌else◌, Option, none, some, List,
  [], ◌∷◌, Map, has_key, Result, ok, err, panic, ◌>>◌,
}
use knl.Api.{
  Connector, Link, LabSpec, Srvm, SrSim, SrLinux, GeneralPod, GeneralVm, System, Store, SrCard,
}
use knl.Chassis.{ChassisError, validate_chassis}
use knl.Defaulter.Slots.{cards_of}
use knl.Validate.Imports.{Parsers}
use knl.Validate.Srl.{SrlError, get_srl_chassis_via_type_str}

-- `no_such_card` carries the port and the link, and `invalid_port` too.
pub data SystemError : Type 0 where
  no_chassis no_image no_license no_dedicate no_pvc_size no_disk_size no_cpu no_memory : SystemError
  invalid_image invalid_command : String → SystemError
  no_such_card invalid_port : String → String → SystemError
  invalid_chassis : ChassisError → SystemError
  invalid_srl_chassis : SrlError → SystemError

abbrev pub ftp_image_prefix : String
ftp_image_prefix = "filesvr:"

abbrev pub sim_port_regex : String
sim_port_regex = "^e\\d{1,2}((-[a-z]\\d{1,2})?-\\d{1,2}){1,2}$"

-- the error for a field that is nil
abbrev pub given : {A : Type 0} → Option A → SystemError → Result SystemError Unit
given none e = err e
given (some a) e = ok tt

abbrev pub chassis_result : Result ChassisError Unit → Result SystemError Unit
chassis_result (ok _) = ok tt
chassis_result (err e) = err (invalid_chassis e)
chassis_result panic = panic

-- The loop over the ports of a node: each connector of the node with a port has one that passes the
-- test. The node's name of a connector is read without a check for nil: `eager` says whether before
-- the port is looked at, or only if there is a port.
module _ (eager : Bool) (test : String → Bool) (fail : String → String → SystemError)
    (node : String) where
  unfoldable pub check_port : String → Connector → Result SystemError Unit
  check_port link c = elim c.node_name [
    | none ↦ elim c.port_id [ none ↦ if eager then panic else ok tt | some port ↦ panic ]
    | some name ↦ elim c.port_id [
      | none ↦ ok tt
      | some port ↦ if name == node && not (test port) then err (fail port link) else ok tt
    ]
  ]

  unfoldable pub check_connectors : String → List Connector → Result SystemError Unit
  unfolding check_port
  check_connectors link [] = ok tt
  check_connectors link (c ∷ cs) = do check_port link c; check_connectors link cs

  unfoldable pub check_ports : Map Link → Result SystemError Unit
  unfolding check_connectors
  check_ports [] = ok tt
  check_ports ((name, link) ∷ links) = do check_connectors name link.connectors; check_ports links

module _ (P : Parsers) where
  -- the check of the image in `SRVM.Validate`
  abbrev pub check_image : Option String → Result SystemError Unit
  check_image none = err no_image
  check_image (some image) =
      if not (starts_with image ftp_image_prefix) && not (P.parse_reference image)
      then err (invalid_image image)
      else ok tt

  -- `SRVM.Validate`, of the three types with its fields
  unfoldable pub validate_srvm : LabSpec → Store → String → Srvm → Result SystemError Unit
  unfolding check_ports validate_chassis
  validate_srvm lab store name srvm = elim srvm.chassis [
    | none ↦ err no_chassis
    | some chassis ↦ do
      check_image srvm.image
      given srvm.license no_license
      given srvm.dedicate no_dedicate
      let cards : Map SrCard = cards_of chassis.cards store
      check_ports false (λ port. has_key port cards) no_such_card name lab.link_list
      chassis_result (validate_chassis chassis cards)
  ]

  -- `SRSim.Validate`
  unfoldable pub validate_srsim : LabSpec → Store → String → SrSim → Result SystemError Unit
  unfolding check_ports validate_chassis
  validate_srsim lab store name srsim = do
    given srsim.image no_image
    elim srsim.chassis [
      | none ↦ err no_chassis
      | some chassis ↦ do
        given srsim.lic_secret no_license
        check_ports true (P.match_string sim_port_regex) invalid_port name lab.link_list
        chassis_result (validate_chassis chassis (cards_of chassis.cards store))
    ]

  -- `SRLinux.Validate`
  unfoldable pub validate_srl : SrLinux → Result SystemError Unit
  unfolding get_srl_chassis_via_type_str
  validate_srl srl = do
    given srl.image no_image
    elim srl.chassis [
      | none ↦ err no_chassis
      | some chassis ↦ elim (get_srl_chassis_via_type_str P chassis) [
        | ok _ ↦ ok tt
        | err e ↦ err (invalid_srl_chassis e)
        | panic ↦ panic
      ]
    ]

  -- `GeneralPod.Validate`
  unfoldable pub validate_pod : GeneralPod → Result SystemError Unit
  validate_pod gpod = do
    given gpod.image no_image
    given gpod.pvc_size no_pvc_size
    elim gpod.command [
      | none ↦ ok tt
      | some command ↦ if P.split_shell command then ok tt else err (invalid_command command)
    ]

  -- `GeneralVM.Validate`
  unfoldable pub validate_vm : GeneralVm → Result SystemError Unit
  validate_vm gvm = do
    given gvm.image no_image
    given gvm.disk_size no_disk_size
    given gvm.req_cpu no_cpu
    given gvm.req_memory no_memory

  -- `sys.Validate(spec, nodeName)`
  unfoldable pub validate_system : LabSpec → Store → String → System → Result SystemError Unit
  unfolding validate_srvm validate_srsim validate_srl validate_pod validate_vm
  validate_system lab store name (System.vsim s) = validate_srvm lab store name s
  validate_system lab store name (System.vsri s) = validate_srvm lab store name s
  validate_system lab store name (System.magc s) = validate_srvm lab store name s
  validate_system lab store name (System.srsim s) = validate_srsim lab store name s
  validate_system lab store name (System.srl s) = validate_srl s
  validate_system lab store name (System.pod s) = validate_pod s
  validate_system lab store name (System.vm s) = validate_vm s
