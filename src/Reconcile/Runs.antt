-- ===== src/Reconcile/Runs.antt =====
-- Runs of the lab reconciler (internal/controller/lab_controller.go), of a lab being deleted and of one
-- that is not.
use mathlib.Core.Path.{subst}
use knl.Common.{err, ◌≡◌, refl, sym, ◌∙◌, ◌⊎◌, inr, arith, String, true, false, Result, ok, panic}
use knl.Alloc.Bits.{BitSet}
use knl.Api.{System, KnlConfigSpec, Store}
use knl.Cluster.Interface.{Object, ApiError, Client, IsLawful}
use knl.Kube.{Resource, of_lab, LabBody, ParsedLab, ContextValue, Action}
use knl.Lans.{Lan}
use knl.Pods.Nodes.{Packages}
use knl.Reconcile.{
  Finalizers, labs, create_all, create_parsed, create_nodes, reconcile_live, by_deletion, reconcile,
  parse_lab,
}
use knl.Reconcile.Reads.{reads}

module _ (K : Packages) (B : BitSet) (F : Finalizers) (gconf : KnlConfigSpec)
    (my_namespace : String) (store : Store) (C : Client Resource)
    (set_owner : Object Resource → Result ApiError (Object Resource))
    (set_lan_owner : Lan → Result ApiError Lan)
    (ensure_vm : ContextValue → String → System → Action C.St Unit) (L : IsLawful C) where
  create_all_result :
      (st : C.St) (plab : ParsedLab)
      → ((create_all K B F gconf my_namespace store C set_owner set_lan_owner ensure_vm st plab).1
          ≡ ok tt)
        ⊎ ((create_all K B F gconf my_namespace store C set_owner set_lan_owner ensure_vm st plab).1
            ≡ panic)
  unfolding create_all create_nodes
  create_all_result st plab = ground arith

  create_parsed_result :
      (st : C.St) (r : Result Unit ParsedLab)
      → let run =
          create_parsed K B F gconf my_namespace store C set_owner set_lan_owner ensure_vm st r in
        (run.1 ≡ ok tt) ⊎ (run.1 ≡ panic)
  unfolding create_parsed
  create_parsed_result st (ok plab) = create_all_result st plab
  create_parsed_result st (err e) = inr refl
  create_parsed_result st panic = inr refl

  -- A run that reads a lab that is not being deleted and has the finalizer returns no error, whatever
  -- fails while it makes the links and the nodes: it returns as after a success, or panics. The client
  -- follows its documented laws.
  pub reconcile_hides_errors :
      (st : C.St) (ns name : String) (o : Object Resource) (lab : LabBody)
      → C.get st (labs ns) name ≡ ok o
      → o.body ≡ of_lab lab
      → lab.deleting ≡ false
      → F.contains o.finalizers ≡ true
      → ((reconcile K B F gconf my_namespace store C set_owner set_lan_owner ensure_vm st ns name).1
          ≡ ok tt)
        ⊎ ((reconcile K B F gconf my_namespace store C set_owner set_lan_owner ensure_vm st ns
              name).1
            ≡ panic)
  unfolding reconcile_live by_deletion
  reconcile_hides_errors st ns name o lab e body live has =
      let run =
        reads K B F gconf my_namespace store C set_owner set_lan_owner ensure_vm L st ns name o o
          lab false (L.get_found st (labs ns) name o e) e body live in
      let creates : reconcile_live K B F gconf my_namespace store C set_owner set_lan_owner
            ensure_vm st ns o lab
          ≡ create_parsed K B F gconf my_namespace store C set_owner set_lan_owner ensure_vm st
              (parse_lab ns o lab) =
        rw (reconcile_live, has) refl in
      subst (λ r. (r.1 ≡ ok tt) ⊎ (r.1 ≡ panic)) (sym (run ∙ creates))
        (create_parsed_result st (parse_lab ns o lab))
