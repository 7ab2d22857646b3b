-- ===== src/Tests/Clusters.antt =====
-- The theorems on LANs, over a cluster that is a list.
use knl.Common.{
  Bool, ap, true, false, ◌↔◌, ◌⊎◌, ◌≡◌, ◌≢◌, refl, sym, ◌∙◌, arith, eq_iff, String, none, some,
  List, [], ◌∷◌, Result, ok, All, keys,
}
use knl.Names.{get_k8lan_name}
use knl.Api.{KnlConfigSpec}
use knl.Api.Defaults.{def_knl_config}
use knl.Alloc.Bits.{list_bits, list_bits-IsLawful}
use knl.Cluster.{find_owner, is_owned_by_lab, create_if_not_exists_or_remove}
use knl.Cluster.Failed.{
  Phase, check_vmi_fail, recreate_failed, when_there, create_if_not_exists_or_failed_or_remove,
  create_if_not_exists_or_failed_ensures,
}
use knl.Cluster.Laws.{HasOwner, is_owned_by_lab_iff, create_if_not_exists_ensures}
use knl.Cluster.Interface.{Owner, ApiError, Client, IsLawful}
use knl.Cluster.ListClient.{find, remove, list_client, list_client-IsLawful}
use knl.Lans.{Lan, LanSpec, new_lan, finalizer_name, delete_external_resources}
use knl.Lans.Ensure.{Spokes, ensure_links}
use knl.Lans.Delete.{delete_external_resources_needs_lans}
use knl.Lans.Views.{UniqueVnis}
use knl.Lans.Unique.{ensure_links_unique}
use knl.Tests.Labs.{readme_lab}

abbrev cluster : Client LanSpec
cluster = list_client LanSpec

abbrev config : KnlConfigSpec
config = record def_knl_config { vxlan_default_dev = some "eth0" }

abbrev other_lan : Lan
other_lan = record new_lan {
  name = "other-link1";
  finalizers = finalizer_name ∷ [];
  body = record (new_lan.body) { vni = some 1 };
}

abbrev one_lan : List (String × Lan)
one_lan = ("knl-system", other_lan) ∷ []

abbrev own : Lan → Result ApiError Lan
own lan = ok lan

own-keeps : (o o' : Lan) → own o ≡ ok o' → (o'.name ≡ o.name) × (o'.body ≡ o.body)
own-keeps o o' h = ground (arith, h)

abbrev no_spokes : Spokes
no_spokes = record { spoke_map = []; spoke_connector_map = []; spoke_link_map = [] }

one_lan_at :
    (m n : String) (o : Lan) → find one_lan m n ≡ some o → ("knl-system" ≡ m) × ("other-link1" ≡ n)
unfolding find
one_lan_at m n o h = ground (arith, h, eq_iff "knl-system" m, eq_iff "other-link1" n)

abbrev lawful : IsLawful cluster
lawful = list_client-IsLawful LanSpec

one_lan_unique : UniqueVnis cluster one_lan
unfolding UniqueVnis
one_lan_unique m n m' n' o o' vni e e' v v' =
    let (p, q) = one_lan_at m n o e in
    let (p', q') = one_lan_at m' n' o' e' in (sym p ∙ p', sym q ∙ q')

unique_example :
    UniqueVnis cluster
      (ensure_links cluster own config "knl-system" "lab1" "uid1" list_bits readme_lab.link_list
        one_lan no_spokes).0
unique_example =
    ensure_links_unique cluster lawful own own-keeps config "knl-system" "lab1" "uid1" list_bits
      list_bits-IsLawful readme_lab.link_list one_lan no_spokes one_lan_unique

abbrev drop_finalizers : List String → List String
drop_finalizers names = []

delete_example :
    All
      (λ link. cluster.view one_lan "knl-system" (get_k8lan_name "other" link) ≢ none)
      (keys readme_lab.link_list)
unfolding delete_external_resources get_k8lan_name find
delete_example =
    delete_external_resources_needs_lans cluster lawful drop_finalizers one_lan "knl-system" "other"
      readme_lab.link_list refl

abbrev lab_owner : Owner
lab_owner = record { uid = "uid1"; name = "lab1" }

abbrev owned_lan : Lan
owned_lan = record other_lan { owners = record { uid = "uid9"; name = "x" } ∷ lab_owner ∷ [] }

owned_example : (is_owned_by_lab owned_lan "uid1" ≡ ok tt) ↔ HasOwner "uid1" (owned_lan.owners)
owned_example = is_owned_by_lab_iff owned_lan "uid1"

abbrev by_lab : Lan → Result ApiError Lan
by_lab lan = ok (record lan { owners = lab_owner ∷ [] })

by_lab-keeps : (o o' : Lan) → by_lab o ≡ ok o' → o'.name ≡ o.name
by_lab-keeps o o' h = ground (arith, h)

abbrev my_lan : Lan
my_lan = record new_lan { name = "lab1-link1" }

ensures_example :
    (o : Lan) × (cluster.view
        (create_if_not_exists_or_remove cluster one_lan "knl-system" "uid1" by_lab my_lan true
          false).0
        "knl-system"
        "lab1-link1"
      ≡ some o)
    × (HasOwner "uid1" o.owners ⊎ (by_lab my_lan ≡ ok o))
unfolding create_if_not_exists_or_remove find
ensures_example =
    create_if_not_exists_ensures cluster lawful by_lab by_lab-keeps one_lan "knl-system" "uid1"
      my_lan refl

abbrev old_lan : Lan
old_lan = record my_lan { owners = lab_owner ∷ []; finalizers = finalizer_name ∷ [] }

abbrev always : Lan → Bool
always lan = check_vmi_fail (some Phase.failed)

-- an object that failed is made again as it was
remade :
    create_if_not_exists_or_failed_or_remove cluster always
      (("knl-system", old_lan) ∷ [])
      "knl-system"
      "uid1"
      by_lab
      my_lan
      true
      false
    ≡ (("knl-system", old_lan) ∷ [], ok tt)
unfolding create_if_not_exists_or_failed_or_remove when_there recreate_failed check_vmi_fail find
    remove is_owned_by_lab find_owner
remade = refl

failed_example :
    (o : Lan) × (cluster.view
        (create_if_not_exists_or_failed_or_remove cluster always
          (("knl-system", old_lan) ∷ [])
          "knl-system"
          "uid1"
          by_lab
          my_lan
          true
          false).0
        "knl-system"
        "lab1-link1"
      ≡ some o)
    × (((cluster.view (("knl-system", old_lan) ∷ []) "knl-system" "lab1-link1" ≡ some o)
          × HasOwner "uid1" o.owners)
        ⊎ ((cluster.view (("knl-system", old_lan) ∷ []) "knl-system" "lab1-link1" ≡ none)
            × (by_lab my_lan ≡ ok o)))
failed_example =
    create_if_not_exists_or_failed_ensures cluster always lawful by_lab by_lab-keeps
      (("knl-system", old_lan) ∷ []) "knl-system" "uid1" my_lan (ap (λ r. r.1) remade)
