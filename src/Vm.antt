-- ===== src/Vm.antt =====
-- The virtual machine instance of a card of an SR VM (api/v1beta1/srvm_ensure.go, getVMI), and the objects
-- and paths around it (api/v1beta1/common.go). `resource.Quantity`, `json.Marshal` and the name of
-- a network attachment are parameters.
pub mod Spokes
pub mod Build
pub mod Laws
pub mod General
pub mod Addresses
use knl.Common.{
  ℕ, String, ◌<>◌, ◌==◌, starts_with, Bool, true, false, if◌then◌else◌, Option, none, some, List,
  [], ◌∷◌, Map, insert,
}
use knl.Text.{itoa, to_lower}
use knl.Names.{NodeType}
use knl.Api.{Port, Quantity}

-- `metav1.ObjectMeta`
pub record Meta : Type 0 where
  pub name : String
  pub ns : String
  pub labels : Map String
  pub annotations : Map String

-- `GetObjMeta`
unfoldable pub get_obj_meta : String → String → String → String → NodeType → Meta
unfolding insert
get_obj_meta name lab ns node node_type = record {
  name = name;
  ns = ns;
  labels =
      let base : Map String =
        ("app.kubernetes.io/name", "kubenetlab") ∷ ("lab.kubenetlab.net/name", lab) ∷ [] in
      if node == ""
      then base
      else insert "chassis.kubenetlab.net/type" node_type
          (insert "chassis.kubenetlab.net/name" node base);
  annotations = [];
}

-- a network attachment, with its configuration
pub record Nad : Type 0 where
  pub meta : Meta
  pub config : String

-- `NewFBBridgeNetworkDef`
unfoldable pub new_fb_bridge_network_def :
    String → String → String → String → NodeType → ℕ → ℕ → Nad
unfolding get_obj_meta insert itoa
new_fb_bridge_network_def ns lab br node node_type index mtu =
    let meta = get_obj_meta br lab ns node node_type in
    record {
      meta = record meta { labels = insert "bridge.kubenetlab.net/index" (itoa index) meta.labels };
      config =
          "\n\t{\n\t\t\"cniVersion\": \"0.3.1\",\n\t\t\"name\": \""
          <> br
          <> "\",\n\t\t\"type\": \"bridge\",\n\t\t\"mtu\": "
          <> itoa mtu
          <> ",\n\t\t\"bridge\": \"vsrosfb"
          <> itoa index
          <> "\",\n\t\t\"ipam\": {}\n\t}\n\t";
    }

pub data DvSource : Type 0 where
  registry http : String → DvSource

-- a data volume, with the storage that its claim requests
pub record DataVolume : Type 0 where
  pub meta : Meta
  pub storage_class : Option String
  pub storage : Option Quantity
  pub source : DvSource

-- `NewDV`
unfoldable pub new_dv :
    String → String → String → String → Option String → Option Quantity → DataVolume
unfolding to_lower
new_dv ns lab name image storage_class disk_size = record {
  meta = record {
    name = name;
    ns = ns;
    labels = ("app.kubernetes.io/name", "kubenetlab") ∷ ("lab.kubenetlab.net/name", lab) ∷ [];
    annotations = [];
  };
  storage_class = storage_class;
  storage = disk_size;
  source = if starts_with (to_lower image) "http" then http image else registry image;
}

-- `filepath.Join` of the folders; the names of labs and nodes have no slash and are not dots
unfoldable pub get_ftp_sros_img_path : String → String → String
get_ftp_sros_img_path lab chassis = "/imgs/" <> lab <> "-" <> chassis <> "-os"

unfoldable pub get_sftp_sros_img_path : String → String → String
unfolding get_ftp_sros_img_path
get_sftp_sros_img_path lab chassis = "/knlroot" <> get_ftp_sros_img_path lab chassis

unfoldable pub get_sr_config_ftp_sub_folder : String → String → String
get_sr_config_ftp_sub_folder lab chassis = "/knlroot/cfgs/" <> lab <> "/" <> chassis

unfoldable pub get_full_qualified_srvm_chassis_name : String → String → String
unfolding to_lower
get_full_qualified_srvm_chassis_name lab chassis = to_lower (lab <> "-" <> chassis)

pub data NetworkSource : Type 0 where
  pod_network : NetworkSource
  multus : String → NetworkSource

pub record Network : Type 0 where
  pub name : String
  pub source : NetworkSource

pub data Binding : Type 0 where
  masquerade bridge : Binding
  plugin : String → Binding

pub record Nic : Type 0 where
  pub name : String
  pub ports : List Port
  pub binding : Binding

pub data VolumeSource : Type 0 where
  data_volume container_disk : String → VolumeSource

-- The instance. `affinity` is the value of the label that its pods' node must have; the one volume is
-- the disk of the same name, on the virtio bus.
pub record Vmi : Type 0 where
  pub meta : Meta
  pub cpu_model : String
  pub uuid : Option String
  pub dedicated_cpu_placement : Bool
  pub isolate_emulator_thread : Bool
  pub cores : ℕ
  pub guest_memory : Option Quantity
  pub requested_memory : Option Quantity
  pub hugepages : Option String
  pub autoattach_graphics : Option Bool
  pub autoattach_serial : Option Bool
  pub volume : VolumeSource
  pub networks : List Network
  pub interfaces : List Nic
  pub affinity : String
