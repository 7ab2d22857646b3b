-- ===== src/Cluster/Failed.antt =====
-- Objects that are made again when they failed (api/v1beta1/k8s.go,
-- createIfNotExistsOrFailedOrRemove and checkVMIfail; api/v1beta1/common.go, WaitForObjGone).
use knl.Common.{
  ◌≡◌, refl, sym, ap, ◌∙◌, ◌⊎◌, inl, inr, arith, Bool-cases, String, Bool, true, false,
  if◌then◌else◌, Option, none, some, Result, ok, err, panic, Result-cases,
}
use knl.Cluster.{ClusterError, api, lift, is_owned_by_lab}
use knl.Cluster.Interface.{Object, ApiError, not_found, api_failed, Client, IsLawful}
use knl.Cluster.Laws.{HasOwner, lift_state, is_owned_by_lab_iff}

-- the phase of an instance; `running` stands for all others
pub data Phase : Type 0 where
  failed succeeded running : Phase

-- `checkVMIfail`: whether it returns an error, for an object that may be no instance
unfoldable pub check_vmi_fail : Option Phase → Bool
check_vmi_fail none = true
check_vmi_fail (some Phase.failed) = true
check_vmi_fail (some Phase.succeeded) = true
check_vmi_fail (some Phase.running) = false

lift_ok : {S : Type 0} (r : S × Result ApiError Unit) → (lift r).1 ≡ ok tt → r.1 ≡ ok tt
lift_ok (st, ok _) h = refl
lift_ok (st, err _) h = cc
lift_ok (st, panic) h = cc

module _ {B : Type 0} (C : Client B) (fails : Object B → Bool) where
  -- `WaitForObjGone` starts the polling in a goroutine and cancels it as it returns, without waiting,
  -- before its first poll.
  abbrev pub wait_for_obj_gone : C.St → C.St
  wait_for_obj_gone st = st

  -- the end of the function: an object that failed is deleted and made again
  unfoldable pub recreate_failed : C.St → String → Object B → C.St × Result ClusterError Unit
  recreate_failed st ns target = elim (fails target) [
    | false ↦ (st, ok tt)
    | true ↦
        let (gone, outcome) = C.delete st ns target.name in
        elim outcome [
          | ok _ ↦ lift (C.create (wait_for_obj_gone gone) ns target)
          | err e ↦ (gone, err (api e))
          | panic ↦ (gone, panic)
        ]
  ]

  -- the branch of an object that is there, which `Get` has put in the target's place
  unfoldable pub when_there :
      C.St → String → String → Object B → Bool → Bool → C.St × Result ClusterError Unit
  unfolding recreate_failed is_owned_by_lab
  when_there st ns lab_uid object need_owner remove = elim remove [
    | true ↦ lift (C.delete st ns object.name)
    | false ↦ elim (if need_owner then is_owned_by_lab object lab_uid else ok tt) [
      | ok _ ↦ recreate_failed st ns object
      | err e ↦ (st, err e)
      | panic ↦ (st, panic)
    ]
  ]

  -- the branch of an object that is missing
  unfoldable pub when_missing : C.St → String → Object B → Bool → C.St × Result ClusterError Unit
  unfolding recreate_failed
  when_missing st ns owned remove = elim remove [
    | true ↦ (st, ok tt)
    | false ↦
        let (next, outcome) = C.create st ns owned in
        elim outcome [
          | ok _ ↦ recreate_failed next ns owned
          | err e ↦ (next, err (api e))
          | panic ↦ (next, panic)
        ]
  ]

  -- `createIfNotExistsOrFailedOrRemove`
  unfoldable pub create_if_not_exists_or_failed_or_remove :
      C.St
      → String
      → String
      → (Object B → Result ApiError (Object B))
      → Object B
      → Bool
      → Bool
      → C.St × Result ClusterError Unit
  unfolding when_there when_missing
  create_if_not_exists_or_failed_or_remove st ns lab_uid set_owner target need_owner remove =
      elim (if need_owner then set_owner target else ok target) [
        | err e ↦ (st, err (api e))
        | panic ↦ (st, panic)
        | ok owned ↦ elim (C.get st ns owned.name) [
          | ok object ↦ when_there st ns lab_uid object need_owner remove
          | err not_found ↦ when_missing st ns owned remove
          | err api_failed ↦ (st, err (api api_failed))
          | panic ↦ (st, panic)
        ]
      ]

  module _ (L : IsLawful C) where
    -- what the end of the function leaves of an object that is there
    recreate_failed_keeps :
        (st : C.St) (ns : String) (o : Object B)
        → C.view st ns o.name ≡ some o
        → (recreate_failed st ns o).1 ≡ ok tt
        → C.view (recreate_failed st ns o).0 ns o.name ≡ some o
    unfolding recreate_failed
    recreate_failed_keeps st ns o there h = elim (Bool-cases (fails o)) [
      | inr f ↦ rw (recreate_failed, f) there
      | inl t ↦ elim (Result-cases (C.delete st ns o.name).1) [
        | inr (inl (e, x)) ↦ absurd (ground (arith, h, t, x))
        | inr (inr x) ↦ absurd (ground (arith, h, t, x))
        | inl (_, x) ↦
            let gone = (C.delete st ns o.name).0 in
            let created : (lift (C.create gone ns o)).1 ≡ ok tt = rw (recreate_failed, t, x) at h in
            rw (recreate_failed, t, x, lift_state (C.create gone ns o))
              (L.create_written gone ns o (lift_ok (C.create gone ns o) created))
      ]
    ]

    -- When it succeeds in making sure of an object with an owner, the cluster has an object of that
    -- name in the namespace: the one that was there, which the lab owns, as it was read, also when it had
    -- failed and was made again, or, when none was there, the one given, with its owner set. The client
    -- follows its documented laws, and setting the owner keeps the name.
    pub create_if_not_exists_or_failed_ensures :
        (set_owner : Object B → Result ApiError (Object B))
        (keeps : (o o' : Object B) → set_owner o ≡ ok o' → o'.name ≡ o.name) (st : C.St)
        (ns uid : String) (target : Object B)
        → (create_if_not_exists_or_failed_or_remove st ns uid set_owner target true false).1 ≡ ok tt
        → (o : Object B) × (C.view
              (create_if_not_exists_or_failed_or_remove st ns uid set_owner target true false).0
              ns
              target.name
            ≡ some o)
          × (((C.view st ns target.name ≡ some o) × HasOwner uid o.owners)
              ⊎ ((C.view st ns target.name ≡ none) × (set_owner target ≡ ok o)))
    unfolding create_if_not_exists_or_failed_or_remove when_there when_missing
    create_if_not_exists_or_failed_ensures set_owner keeps st ns uid target h =
        elim (Result-cases (set_owner target)) [
          | inr (inl (_, p)) ↦ absurd (ground (arith, p, h))
          | inr (inr p) ↦ absurd (ground (arith, p, h))
          | inl (owned, p) ↦
              let named = keeps target owned p in
              elim (Result-cases (C.get st ns owned.name)) [
                | inr (inr q) ↦ absurd (ground (arith, p, q, h))
                | inr (inl (api_failed, q)) ↦ absurd (ground (arith, p, q, h))
                | inr (inl (not_found, q)) ↦ elim (Result-cases (C.create st ns owned).1) [
                  | inr (inl (_, e)) ↦ absurd (ground (arith, p, q, e, h))
                  | inr (inr e) ↦ absurd (ground (arith, p, q, e, h))
                  | inl (_, e) ↦
                      let next = (C.create st ns owned).0 in
                      let done : (recreate_failed next ns owned).1 ≡ ok tt =
                        rw (create_if_not_exists_or_failed_or_remove, p, q, when_missing, e) at h in
                      rw (create_if_not_exists_or_failed_or_remove, p, q, when_missing, e)
                        (
                          owned,
                          ap (λ n. C.view (recreate_failed next ns owned).0 ns n) (sym named)
                              ∙ recreate_failed_keeps next ns owned (L.create_written st ns owned e)
                                  done,
                          inr (
                            ap (λ n. C.view st ns n) (sym named) ∙ L.get_missing st ns owned.name q,
                            refl,
                          ),
                        )
                ]
                | inl (o, q) ↦
                    let found = L.get_found st ns owned.name o q in
                    let same = L.name_kept st ns owned.name o found in
                    elim (Result-cases (is_owned_by_lab o uid)) [
                      | inr (inl (_, e)) ↦ absurd (ground (arith, p, q, e, h))
                      | inr (inr e) ↦ absurd (ground (arith, p, q, e, h))
                      | inl (_, e) ↦
                          let done : (recreate_failed st ns o).1 ≡ ok tt =
                            rw (create_if_not_exists_or_failed_or_remove, p, q, when_there, e) at
                              h in
                          rw (create_if_not_exists_or_failed_or_remove, p, q, when_there, e)
                            (
                              o,
                              ap (λ n. C.view (recreate_failed st ns o).0 ns n) (sym (same ∙ named))
                                  ∙ recreate_failed_keeps st ns o
                                      (ap (λ n. C.view st ns n) same ∙ found) done,
                              inl (
                                ap (λ n. C.view st ns n) (sym named) ∙ found,
                                (is_owned_by_lab_iff o uid).0 e,
                              ),
                            )
                    ]
              ]
        ]
