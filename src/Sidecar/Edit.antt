-- ===== src/Sidecar/Edit.antt =====
-- The edits of a domain (kvirtsidecar/main.go, onDefineDomain and getTelnetConsole).
use knl.Common.{
  ℕ, String, ◌==◌, starts_with, Bool, true, false, ◌||◌, if◌then◌else◌, Option, none, some, ◌⊎◌,
  inl, List, [], ◌∷◌, map, Result, ok, panic, ◌>>=◌,
}
use knl.Chassis.{deref}

-- `no_annotation` carries the key
pub data HookError : Type 0 where
  bad_vmi bad_domain no_type_label bad_path_map no_marshal : HookError
  no_annotation : String → HookError

-- The structs of libvirtxml. `R` is the type of the fields that are passed on.
pub record Entry : Type 0 where
  pub name : String
  pub value : String

pub record SysInfo (R : Type 0) : Type 0 where
  pub smbios : Option (Option (List Entry) × R)
  pub rest : R

pub record Driver (R : Type 0) : Type 0 where
  pub type : String
  pub error_policy : String
  pub discard : String
  pub rest : R

pub record Target (R : Type 0) : Type 0 where
  pub dev : String
  pub rest : R

-- `file` is the name in the struct that `File` points to, with the rest of it
pub record Source (R : Type 0) : Type 0 where
  pub file : Option (String × Option R)
  pub rest : R

pub record Disk (R : Type 0) : Type 0 where
  pub target : Option (Target R)
  pub source : Option (Source R)
  pub address : Option R
  pub model : String
  pub driver : Option (Driver R)
  pub rest : R

pub record Interface (R : Type 0) : Type 0 where
  pub alias : Option String
  pub model : Option String
  pub rest : R

pub record Cpu : Type 0 where
  pub mode : String
  pub vendor : String
  pub model : String

-- the console's alias, protocol, mode, host, service, whether TLS is on, target type and port
pub record Console : Type 0 where
  pub alias : String
  pub protocol : String
  pub mode : String
  pub host : String
  pub service : String
  pub tls : String
  pub target_type : String
  pub target_port : ℕ

pub record Devices (R : Type 0) : Type 0 where
  pub disks : List (Disk R)
  pub controllers : List R
  pub interfaces : List (Interface R)
  pub mem_balloon : Option R
  pub consoles : List (Console ⊎ R)
  pub rest : R

-- `machine` is `OS.Type.Machine`, behind the two pointers
pub record Domain (R : Type 0) : Type 0 where
  pub cpu : Option (Cpu ⊎ R)
  pub devices : Option (Devices R)
  pub sys_info : List (SysInfo R)
  pub machine : Option (Option String)
  pub features : Option R
  pub sec_label : List (String ⊎ R)
  pub rest : R

-- a volume of an instance: the image of its `ContainerDisk`
pub record Volume : Type 0 where
  pub container_disk : Option String

-- `getTelnetConsole`
abbrev pub get_telnet_console : {R : Type 0} → List (Console ⊎ R)
get_telnet_console =
    inl (record {
      alias = "console0";
      protocol = "telnet";
      mode = "bind";
      host = "0.0.0.0";
      service = "2222";
      tls = "no";
      target_type = "virtio";
      target_port = 0;
    })
    ∷ []

abbrev pub vsros_cpu : Cpu
vsros_cpu = record { mode = "custom"; vendor = "Intel"; model = "SandyBridge" }

-- the loop over the ignored prefixes
abbrev pub is_ignored : String → Bool
is_ignored alias = starts_with alias "ua-vxlandev" || starts_with alias "ua-macvtapbr"

abbrev pub set_product : String → Entry → Entry
set_product sysinfo entry =
    if entry.name == "product" then record entry { value = sysinfo } else entry

abbrev pub first_volume : List Volume → Result HookError Volume
first_volume [] = panic
first_volume (volume ∷ volumes) = ok volume

module _ {R : Type 0} where
  -- an interface that stays
  unfoldable pub is_port : Interface R → Bool
  is_port i = elim i.alias [
    | none ↦ false
    | some name ↦ if name == "" then false else if is_ignored name then false else true
  ]

  -- the loop L1
  unfoldable pub keep_ports : List (Interface R) → Result HookError (List (Interface R))
  unfolding is_port
  keep_ports [] = ok []
  keep_ports (i ∷ is) = elim (is_port i) [
    | false ↦ keep_ports is
    | true ↦ do
      model ← deref i.model
      ports ← keep_ports is
      ok (record i { model = some "virtio" } ∷ ports)
  ]

  unfoldable pub set_sysinfo : String → List (SysInfo R) → Result HookError (List (SysInfo R))
  set_sysinfo sysinfo [] = panic
  set_sysinfo sysinfo (info ∷ infos) = do
    (system, smbios_rest) ← deref info.smbios
    entries ← deref system
    ok (
        record info { smbios = some (some (map (set_product sysinfo) entries), smbios_rest) }
        ∷ infos)

  -- the driver of the first disk
  abbrev pub set_driver : Volume → Driver R → Driver R
  set_driver volume driver = record driver {
    type = elim volume.container_disk [ none ↦ "raw" | some image ↦ "qcow2" ];
    error_policy = "";
    discard = "";
  }

  -- the first disk; the others stay
  unfoldable pub set_disk : List Volume → List (Disk R) → Result HookError (List (Disk R))
  set_disk volumes [] = panic
  set_disk volumes (disk ∷ disks) = do
    target ← deref disk.target
    source ← deref disk.source
    (file, _) ← deref source.file
    driver ← deref disk.driver
    volume ← first_volume volumes
    ok (
        record disk {
          target = some (record target { dev = "hda" });
          source = some (record source { file = some (file, none) });
          address = none;
          model = "virtio";
          driver = some (set_driver volume driver);
        }
        ∷ disks)

  unfoldable pub set_devices : List Volume → Devices R → Result HookError (Devices R)
  set_devices volumes devices = do
    disks ← set_disk volumes devices.disks
    interfaces ← keep_ports devices.interfaces
    ok (record devices {
      disks = disks;
      controllers = [];
      interfaces = interfaces;
      mem_balloon = none;
      consoles = get_telnet_console;
    })

  -- the branch of the vSROS types
  unfoldable pub edit_vsros : String → List Volume → Domain R → Result HookError (Domain R)
  unfolding set_disk keep_ports set_sysinfo
  edit_vsros sysinfo volumes domain = do
    devices ← deref domain.devices
    edited ← set_devices volumes devices
    infos ← set_sysinfo sysinfo domain.sys_info
    os ← deref domain.machine
    machine ← deref os
    ok (record domain {
      cpu = some (inl vsros_cpu);
      devices = some edited;
      sys_info = infos;
      machine = some (some "pc");
      features = none;
      sec_label = inl "none" ∷ [];
    })

  -- the branch of `VM`
  unfoldable pub edit_vm : Domain R → Result HookError (Domain R)
  edit_vm domain = do
    devices ← deref domain.devices
    ok (record domain { devices = some (record devices { consoles = get_telnet_console }) })
