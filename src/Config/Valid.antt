-- ===== src/Config/Valid.antt =====
-- Validation of the operator's configuration (api/v1beta1/knlconfig_types.go, KNLConfig.Validate).
use knl.Common.{
  ◌≡◌, ◌≢◌, refl, sym, ◌↔◌, ◌⊎◌, inl, inr, arith, String, ◌==◌, eq_iff, Bool, true, false, not,
  ◌&&◌, ◌||◌, if◌then◌else◌, Option, none, some, Option-cases, Bool-cases, Map, Result, ok, err,
  panic, ◌>>◌, >>-iff, last_guard_iff,
}
use mathlib.Core.Option.{some_inj}
use mathlib.Core.Path.{subst}
use knl.Text.{trim_space}
use knl.Api.{KnlConfigSpec}
use knl.Api.Defaults.{def_knl_config}
use knl.Chassis.{is_empty}
use knl.Config.{default_knl_config, fill_knl_config}
use knl.Validate.Imports.{Parsers, is_host_port}

-- `invalid_image` and `not_host_port` carry the text.
pub data ConfigError : Type 0 where
  not_addr not_ip6_multicast no_storage_class no_vxlan_dev no_sidecar no_server : ConfigError
  invalid_image not_host_port : String → ConfigError

-- `isStrNotSpecfied`
unfoldable pub is_str_not_specified : Option String → Bool
unfolding trim_space
is_str_not_specified none = true
is_str_not_specified (some s) = trim_space s == ""

module _ (P : Parsers) where
  unfoldable pub check_grp_addr : Option String → Result ConfigError Unit
  check_grp_addr none = panic
  check_grp_addr (some text) = elim (P.parse_addr text) [
    | none ↦ err not_addr
    | some addr ↦ if P.is4 addr || not (P.is_multicast addr) then err not_ip6_multicast else ok tt
  ]

  -- an image that may be left out
  abbrev check_loader : Option String → Result ConfigError Unit
  check_loader none = ok tt
  check_loader (some image) =
      if not (P.parse_reference image) then err (invalid_image image) else ok tt

  abbrev check_sidecar : Option String → Result ConfigError Unit
  check_sidecar none = panic
  check_sidecar (some image) =
      if not (P.parse_reference image) then err (invalid_image image) else ok tt

  abbrev check_server : Option String → Result ConfigError Unit
  check_server none = err no_server
  check_server (some server) =
      if not (is_host_port P server) then err (not_host_port server) else ok tt

  -- `KNLConfig.Validate`
  unfoldable pub validate_config : KnlConfigSpec → Result ConfigError Unit
  unfolding check_grp_addr is_str_not_specified is_host_port
  validate_config spec = do
    check_grp_addr spec.vxlan_grp_addr
    if is_str_not_specified spec.pvc_storage_class then err no_storage_class else ok tt
    if is_str_not_specified spec.vxlan_default_dev && is_empty spec.vx_dev_map
        then err no_vxlan_dev
        else ok tt
    check_loader spec.sr_cpm_loader_image
    check_loader spec.sr_iom_loader_image
    if is_str_not_specified spec.side_car_hook_img then err no_sidecar else ok tt
    check_sidecar spec.side_car_hook_img
    check_server spec.sftp_sever

  -- A text that is given and not blank.
  unfoldable pub IsSpecified : Option String → Type 0
  IsSpecified o = (s : String) × ((o ≡ some s) × (trim_space s ≢ ""))

  unfoldable pub IsGroup : Option String → Type 0
  IsGroup o =
      (s : String) × ((o ≡ some s)
        × ((a : P.Addr) × ((P.parse_addr s ≡ some a)
              × ((P.is4 a ≡ false) × (P.is_multicast a ≡ true)))))

  unfoldable pub IsImage : Option String → Type 0
  IsImage o = (image : String) → o ≡ some image → P.parse_reference image ≡ true

  unfoldable pub HasImage : Option String → Type 0
  HasImage o = (image : String) × ((o ≡ some image) × (P.parse_reference image ≡ true))

  unfoldable pub IsServer : Option String → Type 0
  IsServer o = (s : String) × ((o ≡ some s) × (is_host_port P s ≡ true))

  -- What an operator needs of its configuration.
  unfoldable pub IsConfig : KnlConfigSpec → Type 0
  unfolding IsSpecified IsGroup IsImage HasImage IsServer
  IsConfig spec =
      IsGroup spec.vxlan_grp_addr
      × (IsSpecified spec.pvc_storage_class
          × ((IsSpecified spec.vxlan_default_dev ⊎ (is_empty spec.vx_dev_map ≡ false))
              × (IsImage spec.sr_cpm_loader_image
                  × (IsImage spec.sr_iom_loader_image
                      × (IsSpecified spec.side_car_hook_img
                          × (HasImage spec.side_car_hook_img × IsServer spec.sftp_sever))))))

  is_str_not_specified_iff : (o : Option String) → (is_str_not_specified o ≡ false) ↔ IsSpecified o
  unfolding is_str_not_specified IsSpecified
  is_str_not_specified_iff none = (λ h. cc, λ (s, (e, n)). cc)
  is_str_not_specified_iff (some s) = (
    λ h. (s, (refl, λ e. ground (arith, h, e, eq_iff (trim_space s) ""))),
    λ (s', (e, n)).
        ground
          (arith, eq_iff (trim_space s) "", subst (λ x. trim_space x ≢ "") (sym (some_inj.0 e)) n),
  )

  grp_iff : (o : Option String) → (check_grp_addr o ≡ ok tt) ↔ IsGroup o
  unfolding check_grp_addr IsGroup
  grp_iff none = (λ h. cc, λ (s, (e, q)). cc)
  grp_iff (some s) = elim (Option-cases (P.parse_addr s)) [
    | inl f ↦ (λ h. ground (arith, h, f), λ (s', (e, (a, (g, q)))). ground (arith, e, f, g))
    | inr (a, f) ↦ (
      λ h. (s, (refl, (a, (f, ground (arith, h, f))))),
      λ (s', (e, (a', (g, (q, r))))). ground (arith, e, f, g, q, r),
    )
  ]

  loader_iff : (o : Option String) → (check_loader o ≡ ok tt) ↔ IsImage o
  unfolding IsImage
  loader_iff none = (λ h i e. cc, λ h. refl)
  loader_iff (some image) = (λ h i e. ground (arith, h, e), λ h. ground (arith, h image refl))

  sidecar_iff : (o : Option String) → (check_sidecar o ≡ ok tt) ↔ HasImage o
  unfolding HasImage
  sidecar_iff none = (λ h. cc, λ (s, (e, q)). cc)
  sidecar_iff (some s) = (λ h. (s, (refl, ground (arith, h))), λ (s', (e, q)). ground (arith, e, q))

  device_iff :
      (o : Option String) (m : Map String)
      → (is_str_not_specified o && is_empty m ≡ false) ↔ (IsSpecified o ⊎ (is_empty m ≡ false))
  device_iff o m = elim (Bool-cases (is_str_not_specified o)) [
    | inl t ↦ rw t (
      λ h. inr h,
      λ p. elim p [
        | inl q ↦ absurd (ground (arith, t, (is_str_not_specified_iff o).1 q))
        | inr q ↦ q
      ],
    )
    | inr f ↦ rw f (λ h. inl ((is_str_not_specified_iff o).0 f), λ p. refl)
  ]

  check_server_iff : (o : Option String) → (check_server o ≡ ok tt) ↔ IsServer o
  unfolding IsServer
  check_server_iff none = (λ h. cc, λ (s, (e, q)). cc)
  check_server_iff (some s) =
      (λ h. (s, (refl, ground (arith, h))), λ (s', (e, q)). ground (arith, e, q))

  -- Validation accepts a configuration if and only if its group is an IPv6 multicast address, a
  -- storage class, a VxLAN device or a map of devices, and a sidecar image are given, its images parse, and
  -- its file server is given as a host and a port.
  pub validate_config_iff : (spec : KnlConfigSpec) → (validate_config spec ≡ ok tt) ↔ IsConfig spec
  unfolding validate_config IsConfig
  validate_config_iff spec = >>-iff (grp_iff spec.vxlan_grp_addr) (
      >>-iff (last_guard_iff _ _ (is_str_not_specified_iff spec.pvc_storage_class)) (
        >>-iff (last_guard_iff _ _ (device_iff spec.vxlan_default_dev spec.vx_dev_map)) (
          >>-iff (loader_iff spec.sr_cpm_loader_image) (
            >>-iff (loader_iff spec.sr_iom_loader_image) (
              >>-iff (last_guard_iff _ _ (is_str_not_specified_iff spec.side_car_hook_img)) (
                >>-iff (sidecar_iff spec.side_car_hook_img) (check_server_iff spec.sftp_sever)))))))

  -- After the webhook's defaults, validation does not panic.
  pub default_config-ne-panic :
      (spec : KnlConfigSpec) → validate_config (default_knl_config spec) ≢ panic
  unfolding validate_config default_knl_config def_knl_config fill_knl_config check_grp_addr
  default_config-ne-panic spec h = ground (arith, h)
