-- ===== src/Pods/Index.antt =====
-- The index of a node, and the base MAC address of its SR Linux chassis.
use knl.Common.{
  ℕ, suc, ◌+◌, ◌≤◌, ◌<◌, ◌≡◌, ◌≢◌, ◌↔◌, refl, ap, ◌∙◌, inl, inr, arith, pos, String, ◌==◌, eq_iff,
  Bool, true, false, ◌||◌, not, if◌then◌else◌, Bool-cases, Option, none, some, is_nil, List, [],
  ◌∷◌, Map, lookup, keys, has_key, length, get_elem?, leb, leb→le, all_below, all_below_sound,
}
use knl.Api.{LabSpec}
use knl.Defaulter.Slots.{sort, insert_sorted, get_sorted_key_slice}
use knl.Mac.{parse_mac}
use knl.Pods.Srl.{
  index_from, get_node_sort_index, get_base_mac, upper_hex_int, upper_hex, emit_upper, upper_digit,
}

abbrev member : String → List String → Bool
member a [] = false
member a (b ∷ bs) = b == a || member a bs

member-insert_sorted :
    (a b : String) (bs : List String) → member a (insert_sorted b bs) ≡ (b == a || member a bs)
unfolding insert_sorted
member-insert_sorted a b [] = refl
member-insert_sorted a b (c ∷ bs) = ground (arith, member-insert_sorted a b bs)

member-sort : (a : String) (bs : List String) → member a (sort bs) ≡ member a bs
unfolding sort
member-sort a [] = refl
member-sort a (b ∷ bs) = ground (arith, member-insert_sorted a b (sort bs), member-sort a bs)

length-insert_sorted :
    (b : String) (bs : List String) → length (insert_sorted b bs) ≡ suc (length bs)
unfolding insert_sorted
length-insert_sorted b [] = refl
length-insert_sorted b (c ∷ bs) = ground (arith, length-insert_sorted b bs)

length-sort : (bs : List String) → length (sort bs) ≡ length bs
unfolding sort
length-sort [] = refl
length-sort (b ∷ bs) = ground (arith, length-insert_sorted b (sort bs), length-sort bs)

member-keys : {V : Type 0} (a : String) (m : Map V) → has_key a m ≡ true → member a (keys m) ≡ true
unfolding keys lookup
member-keys a [] h = cc
member-keys a ((k, v) ∷ m) h = ground (arith, h, member-keys a m)

length-keys : {V : Type 0} (m : Map V) → length (keys m) ≡ length m
unfolding keys
length-keys [] = refl
length-keys ((k, v) ∷ m) = ground (arith, length-keys m)

-- the first place of a member
index_found :
    (i : ℕ) (node : String) (names : List String)
    → member node names ≡ true
    → (k : ℕ) × (index_from i node names ≡ pos (i + k))
      × (get_elem? names k ≡ some node)
      × (k < length names)
unfolding index_from
index_found i node [] h = cc
index_found i node (name ∷ names) h = elim (Bool-cases (name == node)) [
  | inl t ↦ (0, ground (arith, t), ap some ((eq_iff name node).0 t), omega arith)
  | inr f ↦
      let (k, e, at, lt) = index_found (i + 1) node names (ground (arith, h, f)) in
      (suc k, ground (arith, f, e), at, omega (arith, lt))
]

-- whether `net.ParseMAC` reads the base MAC address of an index as it should
abbrev agrees : ℕ → Bool
agrees i =
    if leb 16 i
    then not (is_nil (parse_mac (get_base_mac (pos i))))
    else is_nil (parse_mac (get_base_mac (pos i)))

all_agree : all_below 256 agrees ≡ true
unfolding all_below parse_mac get_base_mac upper_hex_int upper_hex emit_upper upper_digit
all_agree = refl

Option-none : {A : Type 0} (o : Option A) → is_nil o ≡ true → o ≡ none
Option-none none h = refl
Option-none (some a) h = cc

base_mac_iff : (i : ℕ) → i < 256 → (parse_mac (get_base_mac (pos i)) ≢ none) ↔ (16 ≤ i)
base_mac_iff i lt =
    let t : agrees i ≡ true = all_below_sound 256 agrees i all_agree lt in
    elim (Bool-cases (leb 16 i)) [
      | inl big ↦ (λ _. leb→le 16 i big, λ _ gone. ground (arith, t, big, gone))
      | inr small ↦ (
        λ given. absurd (given (Option-none _ (ground (arith, t, small)))),
        λ le. absurd (ground (arith, small, le)),
      )
    ]

-- In a lab of at most 256 nodes, the index of a node is its place among the sorted names, so that two
-- nodes never have one index, and `net.ParseMAC` reads the base MAC address of that index if and only
-- if the index is 16 or more.
pub get_node_sort_index_place :
    (spec : LabSpec) (node : String)
    → has_key node spec.node_list ≡ true
    → length spec.node_list ≤ 256
    → (k : ℕ) × (get_node_sort_index spec node ≡ pos k)
      × (get_elem? (get_sorted_key_slice spec.node_list) k ≡ some node)
      × (k < length spec.node_list)
      × ((parse_mac (get_base_mac (get_node_sort_index spec node)) ≢ none) ↔ (16 ≤ k))
unfolding get_node_sort_index get_sorted_key_slice
get_node_sort_index_place spec node h few =
    let names = get_sorted_key_slice spec.node_list in
    let listed : member node names ≡ true =
      member-sort node (keys spec.node_list) ∙ member-keys node spec.node_list h in
    let (k, e, at, lt) = index_found 0 node names listed in
    let size : length names ≡ length spec.node_list =
      length-sort (keys spec.node_list) ∙ length-keys spec.node_list in
    let small : k < length spec.node_list = omega (arith, lt, size) in
    let plain : 0 + k ≡ k = omega arith in
    let place : get_node_sort_index spec node ≡ pos k = e ∙ ap pos plain in
    (k, place, at, small, rw place (base_mac_iff k (omega (arith, small, few))))
