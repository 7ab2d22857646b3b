-- ===== src/Cluster/Interface.antt =====
-- The interface of `client.Client` (sigs.k8s.io/controller-runtime), as far as the operator relies on
-- it, for the objects of one kind.
use knl.Common.{◌⊎◌, [], ℕ, get_elem?, ◌≡◌, ◌≢◌, String, Option, none, some, List, Result, ok, err}

pub record Owner : Type 0 where
  pub uid : String
  pub name : String

-- an object's name in its namespace, its owners and finalizers, and the rest of it
pub record Object (B : Type 0) : Type 0 where
  pub name : String
  pub owners : List Owner
  pub finalizers : List String
  pub body : B

pub data ApiError : Type 0 where
  not_found api_failed : ApiError

-- Each operation but `get` and `list` also gives the next state of the cluster.
pub record Client (B : Type 0) : Type 1 where
  pub St : Type 0
  -- the object at a namespace and a name
  pub view : St → String → String → Option (Object B)
  pub get : St → String → String → Result ApiError (Object B)
  pub list : St → Result Unit (List (Object B))
  pub create : St → String → Object B → St × Result ApiError Unit
  pub update : St → String → Object B → St × Result ApiError Unit
  pub delete : St → String → String → St × Result ApiError Unit

-- What the API documents: a read shows the object that is there; an update is only of an object that
-- is there, and no object has an empty name; a write that fails changes nothing, and one that
-- succeeds changes no other object. An update that succeeds leaves the object, or removes it with its
-- last finalizer, if it is being deleted. Any call may fail.
pub record IsLawful {B : Type 0} (C : Client B) : Type 0 where
  pub get_found :
      (st : C.St) (ns name : String) (o : Object B)
      → C.get st ns name ≡ ok o
      → C.view st ns name ≡ some o
  pub get_missing :
      (st : C.St) (ns name : String) → C.get st ns name ≡ err not_found → C.view st ns name ≡ none
  pub nameless : (st : C.St) (ns : String) → C.view st ns "" ≡ none
  pub name_kept :
      (st : C.St) (ns name : String) (o : Object B) → C.view st ns name ≡ some o → o.name ≡ name
  pub update_found :
      (st : C.St) (ns : String) (o : Object B)
      → (C.update st ns o).1 ≡ ok tt
      → C.view st ns o.name ≢ none
  pub update_written :
      (st : C.St) (ns : String) (o : Object B)
      → (C.update st ns o).1 ≡ ok tt
      → (C.view (C.update st ns o).0 ns o.name ≡ some o)
        ⊎ ((C.view (C.update st ns o).0 ns o.name ≡ none) × (o.finalizers ≡ []))
  pub list_all :
      (st : C.St) (l : List (Object B)) (ns name : String) (o : Object B)
      → C.list st ≡ ok l
      → C.view st ns name ≡ some o
      → (i : ℕ) × (get_elem? l i ≡ some o)
  pub create_failed :
      (st : C.St) (ns : String) (o : Object B)
      → (C.create st ns o).1 ≢ ok tt
      → C.view (C.create st ns o).0 ns o.name ≡ C.view st ns o.name
  pub create_written :
      (st : C.St) (ns : String) (o : Object B)
      → (C.create st ns o).1 ≡ ok tt
      → C.view (C.create st ns o).0 ns o.name ≡ some o
  pub create_others :
      (st : C.St) (ns : String) (o : Object B) (ns' name : String)
      → ((ns' ≡ ns) × (name ≡ o.name) → ⊥)
      → C.view (C.create st ns o).0 ns' name ≡ C.view st ns' name
  pub update_others :
      (st : C.St) (ns : String) (o : Object B) (ns' name : String)
      → ((ns' ≡ ns) × (name ≡ o.name) → ⊥)
      → C.view (C.update st ns o).0 ns' name ≡ C.view st ns' name
