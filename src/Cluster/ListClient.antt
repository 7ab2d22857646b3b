-- ===== src/Cluster/ListClient.antt =====
-- A cluster as a list of objects with their namespaces, newest first: an implementation of the client,
-- in which an object that is being deleted goes with its last finalizer.
use knl.Common.{
  ◌⊎◌, Bool, true, false, ◌≡◌, refl, inl, inr, Bool-cases, ℕ, suc, get_elem?, arith, String, ◌==◌,
  eq_iff, eq_refl, not, ◌&&◌, is_nil, if◌then◌else◌, Option, none, some, List, [], ◌∷◌, map, Result,
  ok, err,
}
use knl.Cluster.Interface.{Object, ApiError, not_found, api_failed, Client, IsLawful}

abbrev is_empty : {A : Type 0} → List A → Bool
is_empty [] = true
is_empty (x ∷ xs) = false

is_empty-nil : {A : Type 0} (l : List A) → is_empty l ≡ true → l ≡ []
is_empty-nil [] h = refl
is_empty-nil (x ∷ xs) h = cc

module _ {B : Type 0} where
  unfoldable pub find : List (String × Object B) → String → String → Option (Object B)
  find [] ns name = none
  find ((m, o) ∷ st) ns name =
      if (m == ns && o.name == name) && not (name == "") then some o else find st ns name

  unfoldable pub remove : List (String × Object B) → String → String → List (String × Object B)
  remove [] ns name = []
  remove ((m, o) ∷ st) ns name =
      let rest = remove st ns name in if m == ns && o.name == name then rest else (m, o) ∷ rest

  abbrev pub found_or : Option (Object B) → Result ApiError (Object B)
  found_or none = err not_found
  found_or (some o) = ok o

  abbrev pub create_in :
      List (String × Object B) → String → Object B → List (String × Object B) × Result ApiError Unit
  create_in st ns o =
      if is_nil (find st ns o.name) && not (o.name == "")
      then ((ns, o) ∷ st, ok tt)
      else (st, err api_failed)

  -- `deleting` tells whether an object is being deleted
  abbrev pub update_in :
      (B → Bool)
      → List (String × Object B)
      → String
      → Object B
      → List (String × Object B) × Result ApiError Unit
  update_in deleting st ns o =
      if is_nil (find st ns o.name)
      then (st, err not_found)
      else if deleting o.body && is_empty o.finalizers
      then (remove st ns o.name, ok tt)
      else ((ns, o) ∷ st, ok tt)

  abbrev pub delete_in :
      List (String × Object B) → String → String → List (String × Object B) × Result ApiError Unit
  delete_in st ns name =
      if is_nil (find st ns name) then (st, err not_found) else (remove st ns name, ok tt)

  find-remove :
      (st : List (String × Object B)) (ns name : String) → find (remove st ns name) ns name ≡ none
  unfolding find remove
  find-remove [] ns name = refl
  find-remove ((m, o) ∷ st) ns name = ground (arith, find-remove st ns name)

  find-remove_others :
      (st : List (String × Object B)) (ns name ns' other : String)
      → ((ns' ≡ ns) × (other ≡ name) → ⊥)
      → find (remove st ns name) ns' other ≡ find st ns' other
  unfolding find remove
  find-remove_others [] ns name ns' other apart = refl
  find-remove_others ((m, o) ∷ st) ns name ns' other apart =
      let rest = find-remove_others st ns name ns' other apart in
      elim (Bool-cases (m == ns && o.name == name)) [
        | inr f ↦ rw f (ground (arith, rest))
        | inl t ↦
            let away : (m == ns' && o.name == other) ≡ false = ground (
              arith,
              t,
              apart,
              eq_iff m ns,
              eq_iff o.name name,
              eq_iff m ns',
              eq_iff o.name other,
            ) in
            rw (t, away) rest
      ]

  nameless_find : (st : List (String × Object B)) (ns : String) → find st ns "" ≡ none
  unfolding find
  nameless_find [] ns = refl
  nameless_find ((m, o) ∷ st) ns = ground (arith, nameless_find st ns, eq_refl "")

  find_name :
      (st : List (String × Object B)) (ns name : String) (o : Object B)
      → find st ns name ≡ some o
      → o.name ≡ name
  unfolding find
  find_name [] ns name o h = cc
  find_name ((m, p) ∷ st) ns name o h =
      ground (arith, h, eq_iff p.name name, find_name st ns name o)

  find_in_list :
      (st : List (String × Object B)) (ns name : String) (o : Object B)
      → find st ns name ≡ some o
      → (i : ℕ) × (get_elem? (map (λ entry. entry.1) st) i ≡ some o)
  unfolding find
  find_in_list [] ns name o h = cc
  find_in_list ((m, p) ∷ st) ns name o h =
      elim (Bool-cases ((m == ns && p.name == name) && not (name == ""))) [
        | inl t ↦ (0, rw t at h)
        | inr f ↦ let (i, e) = find_in_list st ns name o (rw f at h) in (suc i, e)
      ]

abbrev pub deleting_client : (B : Type 0) → (B → Bool) → Client B
deleting_client B deleting = record {
  St = List (String × Object B);
  view = find;
  get = λ st ns name. found_or (find st ns name);
  list = λ st. ok (map (λ entry. entry.1) st);
  create = create_in;
  update = update_in deleting;
  delete = delete_in;
}

-- in which no object is being deleted
abbrev pub list_client : (B : Type 0) → Client B
list_client B = deleting_client B (λ _. false)

update-written :
    {B : Type 0} (deleting : B → Bool) (st : List (String × Object B)) (ns : String) (o : Object B)
    → (update_in deleting st ns o).1 ≡ ok tt
    → (find (update_in deleting st ns o).0 ns o.name ≡ some o)
      ⊎ ((find (update_in deleting st ns o).0 ns o.name ≡ none) × (o.finalizers ≡ []))
unfolding find
update-written deleting st ns o h = elim (Bool-cases (is_nil (find st ns o.name))) [
  | inl t ↦ absurd (ground (arith, t, h))
  | inr f ↦ elim (Bool-cases (deleting o.body && is_empty o.finalizers)) [
    | inl t ↦
        rw (f, t) (inr (find-remove st ns o.name, is_empty-nil o.finalizers (ground (arith, t))))
    | inr g ↦
        rw (f, g)
          (inl
            (ground (arith, f, eq_refl ns, eq_refl o.name, nameless_find st ns, eq_iff o.name "")))
  ]
]

update-others :
    {B : Type 0} (deleting : B → Bool) (st : List (String × Object B)) (ns : String) (o : Object B)
    (ns' name : String)
    → ((ns' ≡ ns) × (name ≡ o.name) → ⊥)
    → find (update_in deleting st ns o).0 ns' name ≡ find st ns' name
unfolding find
update-others deleting st ns o ns' name apart = elim (Bool-cases (is_nil (find st ns o.name))) [
  | inl t ↦ rw t refl
  | inr f ↦ elim (Bool-cases (deleting o.body && is_empty o.finalizers)) [
    | inl t ↦ rw (f, t) (find-remove_others st ns o.name ns' name apart)
    | inr g ↦ rw (f, g) (ground (arith, apart, eq_iff ns ns', eq_iff o.name name))
  ]
]

pub deleting_client-IsLawful :
    (B : Type 0) (deleting : B → Bool) → IsLawful (deleting_client B deleting)
unfolding find remove
deleting_client-IsLawful B deleting = record {
  get_found = λ st ns name o h. ground (arith, h);
  get_missing = λ st ns name h. ground (arith, h);
  nameless = nameless_find;
  name_kept = find_name;
  update_found = λ st ns o h. ground (arith, h);
  update_written = update-written deleting;
  list_all = λ st l ns name o h e.
      let (i, found) = find_in_list st ns name o e in
      let same : map (λ entry. entry.1) st ≡ l = ground (arith, h) in (i, rw same at found);
  create_failed = λ st ns o h. ground (arith, h);
  create_written = λ st ns o h. ground (arith, h, eq_refl ns, eq_refl o.name);
  create_others = λ st ns o m name apart. ground (arith, apart, eq_iff ns m, eq_iff o.name name);
  update_others = update-others deleting;
}

pub list_client-IsLawful : (B : Type 0) → IsLawful (list_client B)
list_client-IsLawful B = deleting_client-IsLawful B (λ _. false)
