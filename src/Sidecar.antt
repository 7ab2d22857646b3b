-- ===== src/Sidecar.antt =====
-- The hook that edits the domain of a virtual machine before it is defined (kvirtsidecar/main.go). The
-- decoders of JSON and XML are parameters. Of a domain only what the hook reads or writes is
-- spelled out, and the rest of each struct is a value of any type.
pub mod Edit
pub mod Laws
pub mod Outcome
use knl.Common.{
  String, ◌<>◌, ◌==◌, Bool, true, false, ◌||◌, if◌then◌else◌, Option, none, some, List, [], ◌∷◌,
  Map, lookup, Result, ok, err, panic, ◌>>=◌,
}
use knl.Text.{to_lower, trim_space}
use knl.Sidecar.Edit.{
  HookError, bad_vmi, bad_domain, no_type_label, bad_path_map, no_marshal, no_annotation, Domain,
  Volume, edit_vsros, edit_vm,
}

-- an instance, as far as the hook reads it
pub record Vmi : Type 0 where
  pub labels : Map String
  pub annotations : Map String
  pub volumes : List Volume

abbrev pub vsros_sysinfo_anno : String
vsros_sysinfo_anno = "smbios.vm.kubevirt.io/vSROSSysinfo"

abbrev pub sftp_svr_annotation : String
sftp_svr_annotation = "kubenetlab.net/sftpsvr"

abbrev pub sftp_user_annotation : String
sftp_user_annotation = "kubenetlab.net/sftpuser"

abbrev pub sftp_pass_annotation : String
sftp_pass_annotation = "kubenetlab.net/sftppasswd"

abbrev pub chassis_type_annotation : String
chassis_type_annotation = "chassis.kubenetlab.net/type"

abbrev pub ftp_path_map_annotation : String
ftp_path_map_annotation = "kubenetlab.net/ftppathmap"

abbrev pub find : String → Map String → Result HookError String
find key annotations = elim (lookup key annotations) [
  | none ↦ err (no_annotation key)
  | some value ↦ ok value
]

-- `ftpSVRCFGTemplate`, filled
unfoldable pub ftp_svr_cfg : String → String → String → String → String
ftp_svr_cfg path_map user password host =
    "{\n\"version\": 1,\n\"listen_address\": \":21\",\n\"path_map\": "
    <> (path_map
        <> (",\n\"accesses\": [\n{\n\t\"user\": \"ftp\",\n\t\"pass\": \"ftp\",\n\t\"fs\": \"sftp\",\n\t\"params\": {\n\t\"username\": \""
            <> (user
                <> ("\",\n\t\"password\": \""
                    <> (password
                        <> ("\",\n\t\"hostname\": \""
                            <> (host
                                <> "\"\n\t}\n}\n],\n\"passive_transfer_port_range\": {\n\"start\": 2122,\n\"end\": 2130\n}\n}")))))))

-- the FTP server's configuration, once the annotations are there
unfoldable pub server_config : (String → Bool) → Map String → Result HookError String
unfolding lookup ftp_svr_cfg
server_config is_path_map annotations = do
  host ← find sftp_svr_annotation annotations
  user ← find sftp_user_annotation annotations
  password ← find sftp_pass_annotation annotations
  path_map ← find ftp_path_map_annotation annotations
  if is_path_map path_map then ok (ftp_svr_cfg path_map user password host) else err bad_path_map

abbrev pub is_vsros : String → Bool
is_vsros vmt = vmt == "vsim" || vmt == "vsri" || vmt == "magc"

module _ {R : Type 0} (decode_vmi : String → Option Vmi) (unmarshal : String → Option (Domain R))
    (marshal : Domain R → Option String) (is_path_map : String → Bool) where
  abbrev pub marshalled : Domain R → Result HookError String
  marshalled domain = elim (marshal domain) [ none ↦ err no_marshal | some xml ↦ ok xml ]

  -- an instance of a vSROS type with the annotation of its system information
  unfoldable pub define_vsros : String → Vmi → Domain R → Option String × Result HookError String
  unfolding server_config edit_vsros
  define_vsros sysinfo vmi domain = elim (server_config is_path_map vmi.annotations) [
    | err e ↦ (none, err e)
    | panic ↦ (none, panic)
    | ok cfg ↦ (some cfg, do edited ← edit_vsros sysinfo vmi.volumes domain; marshalled edited)
  ]

  unfoldable pub define_typed :
      String → String → Vmi → Domain R → Option String × Result HookError String
  unfolding define_vsros edit_vm
  define_typed xml vmt vmi domain =
      if is_vsros vmt
      then elim (lookup vsros_sysinfo_anno vmi.annotations) [
        | none ↦ (none, ok xml)
        | some sysinfo ↦ define_vsros sysinfo vmi domain
      ]
      else if vmt == "vm"
      then (none, do edited ← edit_vm domain; marshalled edited)
      else (none, marshalled domain)

  -- `onDefineDomain`, with the FTP server's configuration that it writes, if it does. A write that fails
  -- ends the process, and has no outcome here.
  unfoldable pub on_define_domain : String → String → Option String × Result HookError String
  unfolding define_typed to_lower trim_space
  on_define_domain vmi_json domain_xml = elim (decode_vmi vmi_json) [
    | none ↦ (none, err bad_vmi)
    | some vmi ↦ elim (unmarshal domain_xml) [
      | none ↦ (none, err bad_domain)
      | some domain ↦ elim (lookup chassis_type_annotation vmi.labels) [
        | none ↦ (none, err no_type_label)
        | some vmts ↦ define_typed domain_xml (to_lower (trim_space vmts)) vmi domain
      ]
    ]
  ]
