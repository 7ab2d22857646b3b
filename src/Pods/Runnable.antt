-- ===== src/Pods/Runnable.antt =====
-- What the pods that `Ensure` builds need in the cluster (api/v1beta1/srl.go, srsim.go, generalpod.go).
use knl.Common.{String, Option, none, some, List, ◌++◌, All, All-map}
use knl.Cluster.Interface.{Client}
use knl.Kube.{
  Resource, collection, place, pod_target, Pod, PodVolume, PodVolumeSource, claim_source,
  secret_source, config_map_source, empty_dir,
}
use knl.Kube.Laws.{IsThere, Extends-IsThere, Extends}
use knl.Pods.Shapes.{MountsFit, IsShaped}
use knl.Pods.Srl.{license_volumes}

module _ (C : Client Resource) where
  -- the claim or the config map of a volume is in the namespace
  abbrev pub SourceThere : C.St → String → PodVolumeSource → Type 0
  SourceThere st ns (claim_source name) = IsThere C st (collection ns "persistentvolumeclaims") name
  SourceThere st ns (config_map_source name) = IsThere C st (collection ns "configmaps") name
  SourceThere st ns (secret_source _) = Unit
  SourceThere st ns (empty_dir _) = Unit

  abbrev pub SourcesThere : C.St → String → List PodVolume → Type 0
  SourcesThere st ns = All (λ v. SourceThere st ns v.source)

  -- A pod of this name is there, with all that the given pod needs to start: each mount of its
  -- containers names one of its volumes, and each claim and config map of its volumes is there.
  unfoldable pub IsRunnable : C.St → Pod → Type 0
  IsRunnable st pod =
      IsThere C st (collection pod.meta.ns "pods") pod.meta.name
      × SourcesThere st pod.meta.ns pod.volumes
      × All (MountsFit pod.volumes) (pod.init_containers ++ pod.containers)

  Extends-SourceThere :
      (st st' : C.St)
      → Extends C st st'
      → (ns : String) (v : PodVolumeSource) → SourceThere st ns v
      → SourceThere st' ns v
  Extends-SourceThere st st' e ns (claim_source c) h = Extends-IsThere C st st' e _ c h
  Extends-SourceThere st st' e ns (config_map_source c) h = Extends-IsThere C st st' e _ c h
  Extends-SourceThere st st' e ns (secret_source c) h = tt
  Extends-SourceThere st st' e ns (empty_dir c) h = tt

  pub Extends-SourcesThere :
      (st st' : C.St)
      → Extends C st st'
      → (ns : String) (vs : List PodVolume) → SourcesThere st ns vs
      → SourcesThere st' ns vs
  Extends-SourcesThere st st' e ns =
      All-map (λ v. SourceThere st ns v.source) (λ v. SourceThere st' ns v.source)
        λ v. Extends-SourceThere st st' e ns v.source

  pub Extends-IsRunnable :
      (st st' : C.St) (pod : Pod) → Extends C st st' → IsRunnable st pod → IsRunnable st' pod
  unfolding IsRunnable
  Extends-IsRunnable st st' pod e (there, sources, fits) = (
    Extends-IsThere C st st' e _ pod.meta.name there,
    Extends-SourcesThere st st' e pod.meta.ns pod.volumes sources,
    fits,
  )

  pub license_source :
      (st : C.St) (ns : String) (secret : Option String)
      → SourcesThere st ns (license_volumes secret)
  license_source st ns none = tt
  license_source st ns (some secret) = (tt, tt)

  pub IsShaped-IsRunnable :
      (st : C.St) (ns : String) (volumes : List PodVolume) (pod : Pod)
      → IsShaped ns volumes pod
      → IsThere C st (place (pod_target pod)) pod.meta.name
      → SourcesThere st ns volumes
      → IsRunnable st pod
  unfolding IsRunnable
  IsShaped-IsRunnable st ns volumes pod (n, v, fits) there sources =
      (there, rw (n, v) sources, fits)
