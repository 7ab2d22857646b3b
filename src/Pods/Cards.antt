-- ===== src/Pods/Cards.antt =====
-- The containers and volumes of the cards of an SR-SIM (api/v1beta1/srsim.go), written out by name.
use knl.Common.{◌≡◌, ℕ, String, ◌<>◌, if◌then◌else◌, List, [], ◌∷◌, ◌++◌, map, Map, ok}
use knl.Api.{SrCard, SrChassis}
use knl.Kube.{Container, EnvVar, VolumeMount, PodVolume, claim_source}
use knl.Names.{is_cpm}
use knl.Pods.SrSim.{get_cf_pvc_name, card_env, card_container}
use knl.Text.{itoa}

module _ (lab node : String) where
  -- the mount and the volume of a compact flash, by the name of its claim
  abbrev pub named_mount : String → ℕ → VolumeMount
  named_mount slot i = record {
    name = get_cf_pvc_name node lab slot i;
    mount_path = "/cf" <> itoa i;
    sub_path = "";
  }

  abbrev pub named_volume : String → ℕ → PodVolume
  named_volume slot i = record {
    name = get_cf_pvc_name node lab slot i;
    source = claim_source (get_cf_pvc_name node lab slot i);
  }

  -- a CPM has three compact flashes
  abbrev pub flashes : String → List ℕ
  flashes slot = if is_cpm slot then 1 ∷ 2 ∷ 3 ∷ [] else []

  -- One container for each card, with its variables and a mount for each of its compact flashes, and
  -- the volumes of the compact flashes, in the order of the cards.
  unfoldable pub AreCards :
      String → SrChassis → Map SrCard → List Container → List PodVolume → Type 0
  AreCards image chassis [] cs vs = (cs ≡ []) × (vs ≡ [])
  AreCards image chassis ((slot, card) ∷ cards) cs vs =
      (vars : List EnvVar) × (cs' : List Container) × (vs' : List PodVolume) × (card_env chassis
          slot card
        ≡ ok vars)
      × (cs ≡ card_container image slot card vars (map (named_mount slot) (flashes slot)) ∷ cs')
      × (vs ≡ map (named_volume slot) (flashes slot) ++ vs')
      × AreCards image chassis cards cs' vs'
