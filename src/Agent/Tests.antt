-- ===== src/Agent/Tests.antt =====
-- Tests of cluster-agent/src/kubernetes.
pub mod Routes
pub mod Cluster
use mathlib.Core.List.Memᴰ
use qubit.Base.{
  sym, subst, Text, codes, text_eq, text_dec, ◌==◌, if◌then◌else◌, false, none, some, [], ◌∷◌, Memᴰ,
  ◌≡◌, ◌≢◌, ◌↔◌, refl, inl, inr,
}
use qubit.Base.Map
use qubit.Base.Map.{Map}
use qubit.Agent.Objects.{Pod, Service, ServiceSpec}
use qubit.Agent.Registry.{
  insert_service, ServiceRegistry, empty_registry, register, find_service_for_pod,
}
use qubit.Agent.Registry.Laws.{
  IsSubset, find_service_for_pod-IsAnswer, IsAnswer, registered_is_found,
}
use qubit.Agent.Handlers.{pod_ip, label_of, pod_on_apply, pod_on_delete, pod_ips_of}
use qubit.Agent.Handlers.Laws.{told, info_of, pod_handler_lem, pod_ips_of_lem}
use qubit.Core.Cache.{map_cache}
use qubit.Core.Grpc.{idle}

abbrev labels : Map Text Text
labels = (codes "app", codes "cart") ∷ (codes "tier", codes "web") ∷ []

abbrev selector : Map Text Text
selector = (codes "app", codes "cart") ∷ []

abbrev pod : Pod
pod = record {
  metadata = record {
    name = some (codes "cart-1");
    namespace = some (codes "test");
    labels = some labels;
  };
  status = some (record { pod_ip = some (codes "10.0.0.7") });
}

abbrev spec : ServiceSpec
spec = record { selector = some selector; type_name = none; cluster_ip = none }

-- A service in another namespace than the pod's.
abbrev svc : Service
svc = record {
  metadata = record {
    name = some (codes "cart-svc");
    namespace = some (codes "prod");
    labels = none;
  };
  spec = some spec;
}

abbrev registry : ServiceRegistry
registry = (register empty_registry svc).0

usable : registry.poisoned ≡ false
unfolding register insert_service
usable = refl

find_service_for_pod-IsAnswer_example :
    IsAnswer registry pod labels (find_service_for_pod registry pod)
find_service_for_pod-IsAnswer_example =
    find_service_for_pod-IsAnswer registry pod labels refl usable

subset : IsSubset selector labels
unfolding Map.get text_dec native.Mathlib.Decide.ℕ_discrete
subset k v m = elim (Memᴰ.cases_cons m) [
  | inl p ↦ subst (λ (q : Text × Text). Map.get labels q.0 ≡ some q.1) (sym p) refl
  | inr m' ↦ absurd (Memᴰ.not-nil m')
]

registered_is_found_example : find_service_for_pod registry pod ≢ none
registered_is_found_example =
    registered_is_found empty_registry svc (codes "cart-svc") spec pod labels refl refl refl refl
      refl subset

abbrev no_json : Map Text Text → Text
no_json m = []

known : pod_ip pod ≡ some (codes "10.0.0.7")
unfolding pod_ip
known = refl

pod_handler_lem_example :
    (Map.get
        (told map_cache no_json 0
          (idle map_cache)
          registry
          pod
          (pod_on_apply registry pod)).core.pod_cache
        (codes "10.0.0.7")
      ≡ (if codes "10.0.0.7" == codes "10.0.0.7"
          then some (info_of registry pod)
          else Map.get (idle map_cache).core.pod_cache (codes "10.0.0.7")))
    × (Map.get
          (told map_cache no_json 0
            (idle map_cache)
            registry
            pod
            (pod_on_delete pod)).core.pod_cache
          (codes "10.0.0.7")
        ≡ (if codes "10.0.0.7" == codes "10.0.0.7"
            then none
            else Map.get (idle map_cache).core.pod_cache (codes "10.0.0.7")))
pod_handler_lem_example =
    pod_handler_lem map_cache no_json 0 (idle map_cache) registry pod (codes "10.0.0.7") known
      (codes "10.0.0.7")
