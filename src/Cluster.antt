-- ===== src/Cluster.antt =====
-- The objects of a cluster and the client that reads and writes them (api/v1beta1/k8s.go). The client
-- is a package that the operator imports: it is an interface here, over any state of the cluster.
pub mod Interface
pub mod ListClient
pub mod Laws
pub mod Failed
use knl.Common.{
  String, ◌==◌, Bool, true, false, if◌then◌else◌, Option, none, some, List, [], ◌∷◌, Result, ok,
  err, panic,
}
use knl.Cluster.Interface.{Owner, Object, ApiError, not_found, api_failed, Client}

pub data ClusterError : Type 0 where
  api : ApiError → ClusterError
  no_owner : String → ClusterError
  other_owners : String → List String → ClusterError

abbrev pub lift : {S : Type 0} → S × Result ApiError Unit → S × Result ClusterError Unit
lift (st, ok _) = (st, ok tt)
lift (st, err e) = (st, err (api e))
lift (st, panic) = (st, panic)

-- the loop of `IsOwnedbyLab` over the owners
unfoldable pub find_owner : String → String → List String → List Owner → Result ClusterError Unit
find_owner lab_uid object names [] = err (other_owners object names)
find_owner lab_uid object names (owner ∷ owners) =
    let rest = find_owner lab_uid object (owner.name ∷ names) owners in
    if owner.uid == lab_uid then ok tt else rest

-- `IsOwnedbyLab`; the names in the error stand in reverse
unfoldable pub is_owned_by_lab : {B : Type 0} → Object B → String → Result ClusterError Unit
unfolding find_owner
is_owned_by_lab object lab_uid = elim object.owners [
  | [] ↦ err (no_owner object.name)
  | owner ∷ owners ↦ find_owner lab_uid object.name [] (owner ∷ owners)
]

module _ {B : Type 0} (C : Client B) where
  -- the branch of an object that is there
  abbrev pub when_found :
      C.St → String → String → Object B → Bool → Bool → C.St × Result ClusterError Unit
  when_found st ns lab_uid object need_owner remove =
      if remove
      then lift (C.delete st ns object.name)
      else if need_owner
      then (st, is_owned_by_lab object lab_uid)
      else (st, ok tt)

  -- `createIfNotExistsOrRemove`, where `set_owner` is the lab's `SetOwnerFunc`
  unfoldable pub create_if_not_exists_or_remove :
      C.St
      → String
      → String
      → (Object B → Result ApiError (Object B))
      → Object B
      → Bool
      → Bool
      → C.St × Result ClusterError Unit
  unfolding is_owned_by_lab
  create_if_not_exists_or_remove st ns lab_uid set_owner target need_owner remove =
      elim (if need_owner then set_owner target else ok target) [
        | err e ↦ (st, err (api e))
        | panic ↦ (st, panic)
        | ok owned ↦ elim (C.get st ns owned.name) [
          | ok object ↦ when_found st ns lab_uid object need_owner remove
          | panic ↦ (st, panic)
          | err api_failed ↦ (st, err (api api_failed))
          | err not_found ↦ if remove then (st, ok tt) else lift (C.create st ns owned)
        ]
      ]
