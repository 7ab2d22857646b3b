-- ===== src/Config.antt =====
-- The operator's configuration: the copy that the operator's parts share (api/v1beta1/cfg.go), the
-- mutating webhook of the object that holds it (internal/webhook/v1beta1/knlconfig_webhook.go,
-- Default), and its reconciler (internal/controller/knlconfig_controller.go).
pub mod Life
pub mod Valid
use knl.Common.{
  ℕ, ℤ, pos, negsuc, eqb, String, ◌==◌, Bool, true, false, not, ◌||◌, if◌then◌else◌, Option, none,
  some, List, [], ◌∷◌, Map, Result, ok, err, panic,
}
use knl.Api.{OneOfSystem, KnlConfigSpec}
use knl.Api.Defaults.{def_knl_config}
use knl.Api.OneOf.{empty_one_of, empty_srvm, empty_vm, empty_srl, empty_pod, empty_srsim}
use knl.LoadDef.{fill_ptr, fill_srvm, fill_vm, fill_srl, fill_pod, fill_srsim}
use knl.Cluster.Interface.{ApiError, not_found, api_failed}

-- The lock is left out: each operation holds it from start to end.
pub record SharedConfig : Type 0 where
  pub config : KnlConfigSpec
  pub generation : ℤ

abbrev pub eqz : ℤ → ℤ → Bool
eqz (pos a) (pos b) = eqb a b
eqz (negsuc a) (negsuc b) = eqb a b
eqz (pos a) (negsuc b) = false
eqz (negsuc a) (pos b) = false

abbrev pub new_config : SharedConfig
new_config = record { config = def_knl_config; generation = negsuc 0 }

-- `Set`, with what it returns
unfoldable pub set : KnlConfigSpec → ℤ → SharedConfig → SharedConfig × Bool
set new gen cfg =
    if not (eqz cfg.generation gen)
    then (record { config = new; generation = gen }, true)
    else (cfg, false)

-- `KNLConfig`
pub record KnlConfig : Type 0 where
  pub generation : ℤ
  pub spec : KnlConfigSpec
  pub observed_generation : Option ℤ

abbrev pub target_knlconfig_name : String
target_knlconfig_name = "knlcfg"

-- an observed generation that is not there becomes -1
abbrev pub observed : KnlConfig → KnlConfig
observed knlcfg = record knlcfg {
  observed_generation = fill_ptr knlcfg.observed_generation (some (negsuc 0));
}

-- after the object is read; with the object that the status update sends, if any
abbrev pub apply_config : KnlConfig → SharedConfig → SharedConfig × Option KnlConfig
apply_config knlcfg gconf =
    let (next, changed) = set knlcfg.spec knlcfg.generation gconf in
    if changed
    then (next, some (record (observed knlcfg) { observed_generation = some next.generation }))
    else (next, none)

-- `Reconcile`: the next configuration, the status update, whose outcome is ignored, and the result
unfoldable pub reconcile :
    (String → String → Result ApiError KnlConfig)
    → String
    → String
    → String
    → SharedConfig
    → SharedConfig × Option KnlConfig × Result ApiError Unit
unfolding set
reconcile get my_namespace namespace name gconf =
    if not (name == target_knlconfig_name) || not (namespace == my_namespace)
    then (gconf, none, ok tt)
    else elim (get namespace name) [
      | err not_found ↦ (gconf, none, ok tt)
      | err api_failed ↦ (gconf, none, err api_failed)
      | panic ↦ (gconf, none, panic)
      | ok knlcfg ↦ let (next, update) = apply_config knlcfg gconf in (next, update, ok tt)
    ]

-- a pointer to a struct in `FillNilPointers`, with the struct that `new` makes
abbrev pub fill_struct_ptr : {A : Type 0} → (A → A → A) → A → Option A → Option A → Option A
fill_struct_ptr fill empty d none = d
fill_struct_ptr fill empty none (some s) = some (fill empty s)
fill_struct_ptr fill empty (some d) (some s) = some (fill d s)

unfoldable pub fill_one_of : OneOfSystem → OneOfSystem → OneOfSystem
unfolding fill_srvm fill_vm fill_srl fill_pod fill_srsim
fill_one_of d s = record {
  vsim = fill_struct_ptr fill_srvm empty_srvm d.vsim s.vsim;
  vsri = fill_struct_ptr fill_srvm empty_srvm d.vsri s.vsri;
  magc = fill_struct_ptr fill_srvm empty_srvm d.magc s.magc;
  vm = fill_struct_ptr fill_vm empty_vm d.vm s.vm;
  srl = fill_struct_ptr fill_srl empty_srl d.srl s.srl;
  pod = fill_struct_ptr fill_pod empty_pod d.pod s.pod;
  srsim = fill_struct_ptr fill_srsim empty_srsim d.srsim s.srsim;
}

abbrev fill_map : Map String → Map String → Map String
fill_map [] s = s
fill_map (entry ∷ d) s = entry ∷ d

-- `FillNilPointers` at the configuration; a map is nil when it is empty, as the
-- decoder omits an empty map
unfoldable pub fill_knl_config : KnlConfigSpec → KnlConfigSpec → KnlConfigSpec
unfolding fill_one_of
fill_knl_config d s = record {
  sftp_sever = fill_ptr d.sftp_sever s.sftp_sever;
  vxlan_grp_addr = fill_ptr d.vxlan_grp_addr s.vxlan_grp_addr;
  vxlan_default_dev = fill_ptr d.vxlan_default_dev s.vxlan_default_dev;
  vx_dev_map = fill_map d.vx_dev_map s.vx_dev_map;
  pvc_storage_class = fill_ptr d.pvc_storage_class s.pvc_storage_class;
  sr_cpm_loader_image = fill_ptr d.sr_cpm_loader_image s.sr_cpm_loader_image;
  sr_iom_loader_image = fill_ptr d.sr_iom_loader_image s.sr_iom_loader_image;
  side_car_hook_img = fill_ptr d.side_car_hook_img s.side_car_hook_img;
  default_node = fill_struct_ptr fill_one_of empty_one_of d.default_node s.default_node;
}

-- `Default`
unfoldable pub default_knl_config : KnlConfigSpec → KnlConfigSpec
unfolding fill_knl_config def_knl_config
default_knl_config spec = fill_knl_config spec def_knl_config
