-- ===== src/Reconcile/LanClient.antt =====
-- The client of LANs that the client of all resources gives.
use knl.Common.{Option, none, some, List, [], ◌∷◌, Result, ok, err, panic}
use knl.Cluster.Interface.{Object, ApiError, api_failed, Client}
use knl.Kube.{Resource, of_lan, collection}
use knl.Lans.{Lan, LanSpec}

abbrev pub as_lan : Object Resource → Option Lan
as_lan o = elim o.body [
  | of_lan spec ↦
      some (record { name = o.name; owners = o.owners; finalizers = o.finalizers; body = spec })
  | _ ↦ none
]

abbrev pub object_of_lan : Lan → Object Resource
object_of_lan lan = record {
  name = lan.name;
  owners = lan.owners;
  finalizers = lan.finalizers;
  body = of_lan lan.body;
}

-- an answer that is no LAN does not decode
abbrev pub decoded : Result ApiError (Object Resource) → Result ApiError Lan
decoded (ok o) = elim (as_lan o) [ none ↦ err api_failed | some lan ↦ ok lan ]
decoded (err e) = err e
decoded panic = panic

abbrev pub seen : Option (Object Resource) → Option Lan
seen none = none
seen (some o) = as_lan o

unfoldable pub lans_of : List (Object Resource) → List Lan
lans_of [] = []
lans_of (o ∷ os) = elim (as_lan o) [ none ↦ lans_of os | some lan ↦ lan ∷ lans_of os ]

abbrev lans_listed : Result Unit (List (Object Resource)) → Result Unit (List Lan)
lans_listed (ok os) = ok (lans_of os)
lans_listed (err e) = err e
lans_listed panic = panic

-- the client whose namespace `ns` is the collection of LANs there
abbrev pub lan_client : Client Resource → Client LanSpec
lan_client C = record {
  St = C.St;
  view = λ st ns name. seen (C.view st (collection ns "lans") name);
  get = λ st ns name. decoded (C.get st (collection ns "lans") name);
  list = λ st. lans_listed (C.list st);
  create = λ st ns lan. C.create st (collection ns "lans") (object_of_lan lan);
  update = λ st ns lan. C.update st (collection ns "lans") (object_of_lan lan);
  delete = λ st ns name. C.delete st (collection ns "lans") name;
}
