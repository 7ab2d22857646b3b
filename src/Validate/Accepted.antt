-- ===== src/Validate/Accepted.antt =====
-- What validation accepts, said of each part of a lab by itself.
use knl.Common.{
  true, false, ◌≡◌, ◌≢◌, refl, ◌↔◌, ◌⊎◌, inl, inr, arith, String, starts_with, true, Option, none,
  some, Option-cases, has_key, ok, Result-cases, >>-iff, last_guard_iff,
}
use knl.Api.{LabSpec, System, Srvm, SrSim, SrLinux, GeneralPod, GeneralVm, Store}
use knl.Defaulter.Slots.{cards_of}
use knl.Validate.Imports.{Parsers}
use knl.Validate.Srl.{get_srl_chassis_via_type_str}
use knl.Validate.Systems.{
  check_image, validate_srvm, validate_srsim, validate_srl, validate_pod, validate_vm,
  validate_system, sim_port_regex,
}
use knl.Validate.Ports.{HasPorts, IsChassis, check_ports_iff, given_iff, chassis_result_iff}

-- the value of a field that is given
unfoldable pub Holds : {A : Type 0} → Option A → (A → Type 0) → Type 0
Holds none Q = ⊥
Holds (some a) Q = Q a

module _ (P : Parsers) where
  unfoldable pub IsImage : String → Type 0
  IsImage image = (starts_with image "filesvr:" ≡ true) ⊎ (P.parse_reference image ≡ true)

  check_image_iff : (image : Option String) → (check_image P image ≡ ok tt) ↔ Holds image IsImage
  unfolding Holds IsImage
  check_image_iff none = (λ h. cc, λ h. absurd h)
  check_image_iff (some image) = last_guard_iff _ _ (λ h. ground arith, λ h. ground (arith, h))

  unfoldable pub IsSrvm : LabSpec → Store → String → Srvm → Type 0
  unfolding Holds
  IsSrvm lab store name srvm = Holds srvm.chassis (λ chassis.
      Holds srvm.image IsImage
      × ((srvm.license ≢ none)
          × ((srvm.dedicate ≢ none)
              × (HasPorts false (λ port. has_key port (cards_of chassis.cards store)) name
                    lab.link_list
                  × IsChassis chassis (cards_of chassis.cards store)))))

  unfoldable pub IsSrSim : LabSpec → Store → String → SrSim → Type 0
  unfolding Holds
  IsSrSim lab store name srsim =
      (srsim.image ≢ none)
      × Holds srsim.chassis (λ chassis.
        (srsim.lic_secret ≢ none)
        × (HasPorts true (P.match_string sim_port_regex) name lab.link_list
            × IsChassis chassis (cards_of chassis.cards store)))

  unfoldable pub IsSrl : SrLinux → Type 0
  unfolding Holds
  IsSrl srl =
      (srl.image ≢ none)
      × Holds srl.chassis (λ chassis. (hw : _) × (get_srl_chassis_via_type_str P chassis ≡ ok hw))

  unfoldable pub IsPod : GeneralPod → Type 0
  IsPod gpod =
      (gpod.image ≢ none)
      × ((gpod.pvc_size ≢ none)
          × ((command : String) → gpod.command ≡ some command → P.split_shell command ≡ true))

  unfoldable pub IsVm : GeneralVm → Type 0
  IsVm gvm =
      (gvm.image ≢ none)
      × ((gvm.disk_size ≢ none) × ((gvm.req_cpu ≢ none) × (gvm.req_memory ≢ none)))

  unfoldable pub IsSystem : LabSpec → Store → String → System → Type 0
  unfolding IsSrvm IsSrSim IsSrl IsPod IsVm
  IsSystem lab store name (System.vsim s) = IsSrvm lab store name s
  IsSystem lab store name (System.vsri s) = IsSrvm lab store name s
  IsSystem lab store name (System.magc s) = IsSrvm lab store name s
  IsSystem lab store name (System.srsim s) = IsSrSim lab store name s
  IsSystem lab store name (System.srl s) = IsSrl s
  IsSystem lab store name (System.pod s) = IsPod s
  IsSystem lab store name (System.vm s) = IsVm s

  module _ (lab : LabSpec) (store : Store) (name : String) where
    validate_srvm_iff :
        (s : Srvm) → (validate_srvm P lab store name s ≡ ok tt) ↔ IsSrvm lab store name s
    unfolding validate_srvm IsSrvm Holds
    validate_srvm_iff s = elim (Option-cases s.chassis) [
      | inl e ↦ rw e (λ h. cc, λ h. absurd h)
      | inr (chassis, e) ↦ rw e (
          >>-iff (check_image_iff s.image) (
            >>-iff (given_iff s.license _) (
              >>-iff (given_iff s.dedicate _) (
                >>-iff (check_ports_iff _ _ _ name lab.link_list)
                  (chassis_result_iff chassis (cards_of chassis.cards store))))))
    ]

    validate_srsim_iff :
        (s : SrSim) → (validate_srsim P lab store name s ≡ ok tt) ↔ IsSrSim lab store name s
    unfolding validate_srsim IsSrSim Holds
    validate_srsim_iff s = >>-iff (given_iff s.image _) (elim (Option-cases s.chassis) [
      | inl e ↦ rw e (λ h. cc, λ h. absurd h)
      | inr (chassis, e) ↦ rw e (
          >>-iff (given_iff s.lic_secret _) (
            >>-iff (check_ports_iff _ _ _ name lab.link_list)
              (chassis_result_iff chassis (cards_of chassis.cards store))))
    ])

    validate_srl_iff : (s : SrLinux) → (validate_srl P s ≡ ok tt) ↔ IsSrl s
    unfolding validate_srl IsSrl Holds
    validate_srl_iff s = >>-iff (given_iff s.image _) (elim (Option-cases s.chassis) [
      | inl e ↦ rw e (λ h. cc, λ h. absurd h)
      | inr (chassis, e) ↦ rw e (elim (Result-cases (get_srl_chassis_via_type_str P chassis)) [
        | inl (hw, f) ↦ (λ h. (hw, f), λ h. rw f refl)
        | inr (inl (x, f)) ↦ rw f (λ h. cc, λ (hw, h). cc)
        | inr (inr f) ↦ rw f (λ h. cc, λ (hw, h). cc)
      ])
    ])

    validate_pod_iff : (s : GeneralPod) → (validate_pod P s ≡ ok tt) ↔ IsPod s
    unfolding validate_pod IsPod
    validate_pod_iff s = >>-iff (given_iff s.image _) (
        >>-iff (given_iff s.pvc_size _) (elim (Option-cases s.command) [
          | inl e ↦ (λ h c f. cc, λ h. rw e refl)
          | inr (c, e) ↦ (λ h c' f. ground (arith, h, e, f), λ h. ground (arith, e, h c e))
        ]))

    validate_vm_iff : (s : GeneralVm) → (validate_vm P s ≡ ok tt) ↔ IsVm s
    unfolding validate_vm IsVm
    validate_vm_iff s = >>-iff (given_iff s.image _) (
        >>-iff (given_iff s.disk_size _)
          (>>-iff (given_iff s.req_cpu _) (given_iff s.req_memory _)))

    pub validate_system_iff :
        (s : System) → (validate_system P lab store name s ≡ ok tt) ↔ IsSystem lab store name s
    unfolding validate_system IsSystem
    validate_system_iff (System.vsim s) = validate_srvm_iff s
    validate_system_iff (System.vsri s) = validate_srvm_iff s
    validate_system_iff (System.magc s) = validate_srvm_iff s
    validate_system_iff (System.srsim s) = validate_srsim_iff s
    validate_system_iff (System.srl s) = validate_srl_iff s
    validate_system_iff (System.pod s) = validate_pod_iff s
    validate_system_iff (System.vm s) = validate_vm_iff s
