-- ===== src/Pods/Shapes.antt =====
-- The volumes and the mounts of the pods that are built.
use knl.Common.{
  ◌≡◌, refl, sym, ap, inl, inr, arith, ℕ, ℤ, Map, String, ◌<>◌, ◌==◌, Bool, true, false, ◌||◌,
  Bool-cases, eq_refl, Option, none, some, List, [], ◌∷◌, ◌++◌, ok, >>=-eq-ok, ok_inj, All, All-map,
}
use knl.Api.{SrLinux, SrSim, SrCard, SrChassis, GeneralPod, Quantity, KnlConfigSpec}
use knl.Chassis.{deref}
use knl.Kube.{
  ParsedLab, Pod, PodVolume, PodVolumeSource, claim_source, Container, new_base_pod, ConfigMap,
  Claim, EnsureError,
}
use knl.Pods.General.{get_root_pvc, general_pod, pod_entry}
use knl.Pods.SrSim.{get_cf_pvc_name, get_cf_pvc, set_limits, sim_pod, sim_entry, license_volume}
use knl.Pods.Nets.{LanNames, node_nets, annotate}
use knl.Pods.Srl.{
  get_config_map_from_srl_chassis, get_etc_pvc, srl_pod, srl_entry, srl_volumes, license_mounts,
  license_volumes, unwrap,
}
use knl.Validate.Imports.{Parsers}
use knl.Validate.Srl.{SrlChassis, get_srl_chassis_via_type_str}
use knl.Vm.{get_obj_meta}

abbrev pub has_volume : String → List PodVolume → Bool
has_volume name [] = false
has_volume name (v ∷ vs) = v.name == name || has_volume name vs

pub has_volume-first :
    (name : String) (source : PodVolumeSource) (vs : List PodVolume)
    → has_volume name (record { name = name; source = source } ∷ vs) ≡ true
has_volume-first name source vs = rw (eq_refl name) refl

pub has_volume-next :
    (name : String) (v : PodVolume) (vs : List PodVolume)
    → has_volume name vs ≡ true
    → has_volume name (v ∷ vs) ≡ true
has_volume-next name v vs h = ground (arith, h)

pub has_volume-left :
    (name : String) (vs ws : List PodVolume)
    → has_volume name vs ≡ true
    → has_volume name (vs ++ ws) ≡ true
has_volume-left name [] ws h = cc
has_volume-left name (v ∷ vs) ws h = ground (arith, h, has_volume-left name vs ws)

pub has_volume-right :
    (name : String) (us vs ws : List PodVolume)
    → has_volume name (vs ++ ws) ≡ true
    → has_volume name ((us ++ vs) ++ ws) ≡ true
has_volume-right name [] vs ws h = h
has_volume-right name (u ∷ us) vs ws h = ground (arith, has_volume-right name us vs ws h)

pub has_volume-last :
    (name : String) (volumes : List PodVolume) (source : PodVolumeSource)
    → has_volume name (volumes ++ (record { name = name; source = source } ∷ [])) ≡ true
has_volume-last name [] source = rw (eq_refl name) refl
has_volume-last name (v ∷ vs) source = rw (has_volume-last name vs source) (ground arith)

-- each mount of the container names one of the volumes
abbrev pub MountsFit : List PodVolume → Container → Type 0
MountsFit volumes c = All (λ m. has_volume m.name volumes ≡ true) c.volume_mounts

-- The pod has the namespace and the volumes given, and its mounts fit.
abbrev pub IsShaped : String → List PodVolume → Pod → Type 0
IsShaped ns volumes pod =
    (pod.meta.ns ≡ ns)
    × (pod.volumes ≡ volumes)
    × All (MountsFit pod.volumes) (pod.init_containers ++ pod.containers)

annotate-IsShaped :
    (ns text : String) (volumes : List PodVolume) (pod : Pod)
    → IsShaped ns volumes pod
    → IsShaped ns volumes (annotate text pod)
unfolding annotate
annotate-IsShaped ns text volumes pod h = elim (Bool-cases (text == "")) [
  | inl t ↦ rw t h
  | inr f ↦ rw f h
]

license_fits :
    (secret : Option String)
    → All (λ m. has_volume m.name (license_volumes secret) ≡ true) (license_mounts secret)
license_fits none = tt
license_fits (some secret) = (refl, tt)

license_mounts_fit :
    (srl : SrLinux) (topology etc : String)
    → All
        (λ m. has_volume m.name (srl_volumes srl topology etc) ≡ true)
        (license_mounts srl.lic_secret)
license_mounts_fit srl topology etc =
    All-map (λ m. has_volume m.name (license_volumes srl.lic_secret) ≡ true) _
      (λ m fits. ground (arith, fits)) _ (license_fits srl.lic_secret)

pub srl_pod-IsShaped :
    (names : LanNames) (lab : ParsedLab) (node : String) (srl : SrLinux) (topology etc : String)
    (pod : Pod)
    → srl_pod names lab srl node topology etc ≡ ok pod
    → IsShaped lab.ns (srl_volumes srl topology etc) pod
unfolding srl_pod new_base_pod get_obj_meta
srl_pod-IsShaped names lab node srl topology etc pod h =
    let (image, h1, k1) = >>=-eq-ok (deref srl.image) _ h in
    let (nets, h2, k2) =
      >>=-eq-ok (node_nets names lab.name lab.spokes (srl_entry names) node) _ k1 in
    rw (sym (ok_inj k2)) (
      annotate-IsShaped lab.ns nets.text (srl_volumes srl topology etc) _ (
        refl,
        refl,
        ((refl, (refl, tt)), ((refl, (refl, (refl, license_mounts_fit srl topology etc))), tt)),
      ))

pub topology_meta :
    (P : Parsers) (yaml : SrlChassis → Option String) (srl : SrLinux) (ns node lab : String)
    (index : ℤ) (t : ConfigMap)
    → get_config_map_from_srl_chassis P yaml srl ns node lab index ≡ ok t
    → (t.meta.ns ≡ ns) × (t.meta.name ≡ lab <> "-" <> node <> "-topo")
unfolding get_config_map_from_srl_chassis get_obj_meta
topology_meta P yaml srl ns node lab index t h =
    let (type, h1, k1) = >>=-eq-ok (deref srl.chassis) _ h in
    let (chassis, h2, k2) = >>=-eq-ok (unwrap (get_srl_chassis_via_type_str P type)) _ k1 in
    let (text, h3, k3) = >>=-eq-ok (deref (yaml _)) _ k2 in rw (sym (ok_inj k3)) (refl, refl)

pub etc_meta :
    (gconf : KnlConfigSpec) (ns node lab : String) (c : Claim)
    → get_etc_pvc gconf ns node lab ≡ ok c
    → (c.meta.ns ≡ ns) × (c.meta.name ≡ lab <> "-" <> node <> "-etc")
unfolding get_etc_pvc get_obj_meta
etc_meta gconf ns node lab c h =
    let (class, h1, k1) = >>=-eq-ok (deref gconf.pvc_storage_class) _ h in
    rw (sym (ok_inj k1)) (refl, refl)

pub root_meta :
    (gconf : KnlConfigSpec) (ns node lab : String) (size : Quantity) (c : Claim)
    → get_root_pvc gconf ns node lab size ≡ ok c
    → (c.meta.ns ≡ ns) × (c.meta.name ≡ lab <> "-" <> node <> "-root")
unfolding get_root_pvc get_obj_meta
root_meta gconf ns node lab size c h =
    let (class, h1, k1) = >>=-eq-ok (deref gconf.pvc_storage_class) _ h in
    rw (sym (ok_inj k1)) (refl, refl)

pub deref-some : {A : Type 0} (o : Option A) (a : A) → deref {E = EnsureError} o ≡ ok a → o ≡ some a
deref-some none a h = cc
deref-some (some b) a h = ap some (ok_inj h)

pub general_pod-IsShaped :
    (names : LanNames) (split : String → List String) (lab : ParsedLab) (gpod : GeneralPod)
    (image node root : String) (pod : Pod)
    → general_pod names split lab gpod image node root ≡ ok pod
    → IsShaped lab.ns (record { name = "root"; source = claim_source root } ∷ []) pod
unfolding general_pod new_base_pod get_obj_meta
general_pod-IsShaped names split lab gpod image node root pod h =
    let (nets, h1, k1) =
      >>=-eq-ok (node_nets names lab.name lab.spokes (pod_entry names) node) _ h in
    rw (sym (ok_inj k1)) (annotate-IsShaped lab.ns nets.text _ _ (refl, refl, ((refl, tt), tt)))

pub cf_meta :
    (gconf : KnlConfigSpec) (ns node lab slot : String) (i : ℕ) (c : Claim)
    → get_cf_pvc gconf ns node lab slot i ≡ ok c
    → (c.meta.ns ≡ ns) × (c.meta.name ≡ get_cf_pvc_name node lab slot i)
unfolding get_cf_pvc get_obj_meta
cf_meta gconf ns node lab slot i c h =
    let (class, h1, k1) = >>=-eq-ok (deref gconf.pvc_storage_class) _ h in
    rw (sym (ok_inj k1)) (refl, refl)

set_limits-MountsFit :
    (limits : Map Quantity) (volumes : List PodVolume) (cs cs' : List Container)
    → set_limits limits cs ≡ ok cs'
    → All (MountsFit volumes) cs
    → All (MountsFit volumes) cs'
set_limits-MountsFit limits volumes [] cs' h fits = cc
set_limits-MountsFit limits volumes (c ∷ cs) cs' h (f, fits) = rw (sym (ok_inj h)) (f, fits)

pub sim_pod-IsShaped :
    (names : LanNames) (lab : ParsedLab) (srsim : SrSim) (node image : String) (chassis : SrChassis)
    (cards : Map SrCard) (containers : List Container) (volumes : List PodVolume) (pod : Pod)
    → sim_pod names lab srsim node image chassis cards containers volumes ≡ ok pod
    → ((secret : String) → All (MountsFit (volumes ++ (license_volume secret ∷ []))) containers)
    → (secret : String) × IsShaped lab.ns (volumes ++ (license_volume secret ∷ [])) pod
unfolding sim_pod new_base_pod get_obj_meta
sim_pod-IsShaped names lab srsim node image chassis cards containers volumes pod h fits =
    let (secret, h1, k1) = >>=-eq-ok (deref srsim.lic_secret) _ h in
    let (nets, h2, k2) =
      >>=-eq-ok (node_nets names lab.name lab.spokes (sim_entry names chassis cards) node) _ k1 in
    let (limited, h3, k3) = >>=-eq-ok (set_limits nets.limits containers) _ k2 in
    (
      secret,
      rw (sym (ok_inj k3)) (
          annotate-IsShaped lab.ns nets.text _ _
            (refl, refl, set_limits-MountsFit nets.limits _ containers limited h3 (fits secret))),
    )
