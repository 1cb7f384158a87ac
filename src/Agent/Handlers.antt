-- ===== src/Agent/Handlers.antt =====
-- cluster-agent/src/kubernetes/pod_handler.rs, service_handler.rs and generic_handler.rs, with the
-- requests of cluster-agent/src/service/cluster_aggregator.rs and the initial map of
-- cluster-agent/src/server/mod.rs. A handler returns the messages that it sends; they are the
-- messages of core. `deliver` is their arrival there.
pub mod Laws
pub mod Resync
use qubit.Base.{
  ℕ, Text, codes, text_eq, text_dec, ◌==◌, ◌&&◌, ◌>>=◌, ◌++◌, is_empty, or_empty, if◌then◌else◌,
  Bool, true, false, Option, none, some, List, [], ◌∷◌,
}
use qubit.Base.Map
use qubit.Base.Map.{Map}
use qubit.Agent.Objects.{ObjectMeta, Pod, PodStatus, Service, ServiceSpec}
use qubit.Agent.Registry.{
  ServiceRegistry, type_or_default, has_label, register, deregister, find_service_for_pod,
}
use qubit.Core.Cache.{CacheLib}
use qubit.Core.Grpc.{
  PodEventRequest, ServiceEventRequest, ServicePodEntry, K8sResourceEventRequest, System,
  send_pod_event, send_service_event, send_service_pod_map, send_k8s_resource_event,
  ConfigMapEventRequest, EnvoyRouteEntry, send_config_map_event, send_envoy_routes,
}

pub data Message : Type 0 where
  pod_event : PodEventRequest → Message
  service_event : ServiceEventRequest → Message
  resource_event : K8sResourceEventRequest → Message
  pod_map : List ServicePodEntry → Message
  config_map_event : ConfigMapEventRequest → Message
  envoy_routes : List EnvoyRouteEntry → Message

unfoldable pub pod_ip : Pod → Option Text
pod_ip pod = do status ← pod.status; status.pod_ip

unfoldable pub pod_ip_and_namespace : Pod → Option (Text × Text)
pod_ip_and_namespace pod = do
  status ← pod.status
  ip ← status.pod_ip
  some (ip, or_empty pod.metadata.namespace)

-- `labels.and_then(|l| l.get(key))`
unfoldable pub label_of : Pod → Text → Option Text
label_of pod key = do labels ← pod.metadata.labels; Map.get labels key

-- the first of the chain of `if let Some(name)`
unfoldable pub or_else : Option Text → Text → Text
or_else none default = default
or_else (some name) default = name

unfoldable pub resolve_application_name : Pod → Text → Text
resolve_application_name pod service_name =
    if is_empty service_name
    then or_else (label_of pod (codes "app.kubernetes.io/name")) (
        or_else (label_of pod (codes "app.k8s.io/name"))
          (or_else (label_of pod (codes "app")) (or_empty pod.metadata.name)))
    else service_name

-- `unwrap_or_default` of the found service
unfoldable pub service_or_default : Option (Text × Text) → Text × Text
service_or_default none = ([], [])
service_or_default (some found) = found

unfoldable pub send_pod_applied : Text → Text → Text → Text → Text → Message
send_pod_applied ip namespace application_name service_name service_type = pod_event (record {
  pod_ip = ip;
  namespace = namespace;
  event_type = 0;
  application_name = application_name;
  service_name = service_name;
  service_type = service_type;
})

unfoldable pub send_pod_deleted : Text → Message
send_pod_deleted ip = pod_event (record {
  pod_ip = ip;
  namespace = [];
  event_type = 1;
  application_name = [];
  service_name = [];
  service_type = [];
})

unfoldable pub pod_on_apply : ServiceRegistry → Pod → List Message
pod_on_apply registry pod = elim (pod_ip_and_namespace pod) [
  | none ↦ []
  | some (ip, namespace) ↦
      let found = service_or_default (find_service_for_pod registry pod) in
      send_pod_applied ip namespace (resolve_application_name pod found.0) found.0 found.1 ∷ []
]

unfoldable pub pod_on_delete : Pod → List Message
pod_on_delete pod = elim (pod_ip pod) [ none ↦ [] | some ip ↦ send_pod_deleted ip ∷ [] ]

unfoldable pub send_service : ℕ → Text → Text → Text → Text → Message
send_service event_type name namespace service_type cluster_ip = service_event (record {
  name = name;
  namespace = namespace;
  service_type = service_type;
  cluster_ip = cluster_ip;
  event_type = event_type;
})

unfoldable pub extract_fields : Service → Option (Text × Text × Text × Text)
extract_fields svc = do
  name ← svc.metadata.name
  spec ← svc.spec
  some (
    name,
    or_empty svc.metadata.namespace,
    type_or_default spec.type_name,
    or_empty spec.cluster_ip,
  )

unfoldable pub service_on_apply : ServiceRegistry → Service → ServiceRegistry × List Message
service_on_apply registry svc = (
  (register registry svc).0,
  elim (extract_fields svc) [
    | none ↦ []
    | some (name, namespace, service_type, cluster_ip) ↦
        send_service 0 name namespace service_type cluster_ip ∷ []
  ],
)

unfoldable pub service_on_delete : ServiceRegistry → Service → ServiceRegistry × List Message
service_on_delete registry svc =
    let name = or_empty svc.metadata.name in
    let namespace = or_empty svc.metadata.namespace in
    ((deregister registry name namespace).0, send_service 1 name namespace [] [] ∷ [])

-- `GenericHandler`, for each kind of event
unfoldable pub generic_event : Text → ℕ → ObjectMeta → List Message
generic_event resource_type event_type meta =
    resource_event (record {
      resource_type = resource_type;
      name = or_empty meta.name;
      namespace = or_empty meta.namespace;
      event_type = event_type;
      labels = or_empty meta.labels;
      resource_data = [];
    })
    ∷ []

-- `labels.and_then(|l| l.get(k)) == Some(v)` for all of the selector
unfoldable pub selected : Map Text Text → Pod → Bool
selected [] pod = true
selected ((k, v) ∷ selector) pod =
    let rest = selected selector pod in
    elim (label_of pod k) [ none ↦ false | some w ↦ w == v && rest ]

unfoldable pub pod_ips_of : Map Text Text → List Pod → List Text
pod_ips_of selector [] = []
pod_ips_of selector (pod ∷ pods) =
    let rest = pod_ips_of selector pods in
    if selected selector pod then elim (pod_ip pod) [ none ↦ rest | some ip ↦ ip ∷ rest ] else rest

unfoldable pub service_entry : List Pod → Service → List ServicePodEntry
service_entry pods svc = elim svc.metadata.name [
  | none ↦ []
  | some name ↦ elim svc.spec [
    | none ↦ []
    | some spec ↦
        let selector = or_empty spec.selector in
        let pod_ips = pod_ips_of selector pods in
        if is_empty selector
        then []
        else if is_empty pod_ips
        then []
        else record {
          service_name = name;
          namespace = or_empty svc.metadata.namespace;
          service_type = type_or_default spec.type_name;
          pod_ips = pod_ips;
          application_name = name;
        }
          ∷ []
  ]
]

unfoldable pub service_entries : List Service → List Pod → List ServicePodEntry
service_entries [] pods = []
service_entries (svc ∷ services) pods = service_entry pods svc ++ service_entries services pods

unfoldable pub send_initial_pod_service_map : List Service → List Pod → Message
send_initial_pod_service_map services pods = pod_map (service_entries services pods)

module _ (lib : CacheLib) (to_json : Map Text Text → Text) (now : ℕ) where
  unfoldable pub deliver : System lib → Message → System lib
  deliver s (pod_event req) = (send_pod_event lib s req).0
  deliver s (service_event req) = (send_service_event lib s req).0
  deliver s (resource_event req) = (send_k8s_resource_event lib to_json now s req).0
  deliver s (pod_map entries) = (send_service_pod_map lib s entries).0
  deliver s (config_map_event req) = (send_config_map_event lib s req).0
  deliver s (envoy_routes entries) = (send_envoy_routes lib s entries).0
