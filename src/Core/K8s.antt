-- ===== src/Core/K8s.antt =====
-- core/src/aggregator/k8s_aggregator.rs: the pod and service caches, the healing of the topology
-- when a pod becomes known, and resource events. The clock and the JSON text of the labels, which
-- `serde_json` writes, are arguments.
pub mod Laws
use qubit.Base.{
  ℕ, ◌%◌, ◌^◌, Text, text_dec, text_eq, codes, is_empty, if◌then◌else◌, List, [], ◌∷◌, ◌++◌, Bool,
  true, false,
}
use qubit.Core.Topology.{NodeId, K8sEvent, Topology, resolve_unknown_node, add_k8s_event}
use qubit.Core.Cache.{CacheLib}
use qubit.Core.State.{PodInfo, ServiceInfo, K8sResourceEvent, State}

-- "{namespace}/{name}"
unfoldable pub service_key : Text → Text → Text
service_key namespace name = namespace ++ (codes "/" ++ name)

module _ (lib : CacheLib) where
  -- `if let Ok(mut topo) = self.topology.write()`
  unfoldable pub with_topology : State lib → (Topology → Topology) → State lib
  with_topology s f = if s.topology_poisoned then s else record s { topology = f s.topology }

  unfoldable pub record_pod_applied : State lib → Text → Text → Text → Text → Text → State lib
  record_pod_applied s pod_ip namespace application_name service_name service_type =
      let s' : State lib = record s {
        pod_cache = lib.insert PodInfo s.pod_cache pod_ip (record {
          namespace = namespace;
          application_name = application_name;
          service_name = service_name;
          service_type = service_type;
        });
      } in
      if is_empty application_name
      then s'
      else with_topology s' (λ t. resolve_unknown_node t pod_ip application_name namespace)

  unfoldable pub record_pod_deleted : State lib → Text → State lib
  record_pod_deleted s pod_ip = record s { pod_cache = lib.remove PodInfo s.pod_cache pod_ip }

  unfoldable pub record_service_applied : State lib → Text → Text → Text → Text → State lib
  record_service_applied s name namespace service_type cluster_ip = record s {
    service_cache =
        lib.insert ServiceInfo s.service_cache (service_key namespace name)
          (record { namespace = namespace; service_type = service_type; cluster_ip = cluster_ip });
  }

  unfoldable pub record_service_deleted : State lib → Text → Text → State lib
  record_service_deleted s name namespace = record s {
    service_cache = lib.remove ServiceInfo s.service_cache (service_key namespace name);
  }

  unfoldable pub record_k8s_resource_event :
      State lib → ℕ → Text → Text → Text → Text → Text → Text → State lib
  record_k8s_resource_event s now resource_type name namespace event_type labels resource_data =
      let db_event : K8sResourceEvent = record {
        event_time = now % 2 ^ 32;
        resource_type = resource_type;
        name = name;
        namespace = namespace;
        event_type = event_type;
        labels = labels;
        resource_data = resource_data;
      } in
      let topo_event : K8sEvent = record {
        timestamp = now;
        resource_name = name;
        resource_type = resource_type;
        event_type = event_type;
        event_data = resource_data;
      } in
      let node_id : NodeId = record { application_name = name; namespace = namespace } in
      with_topology (record s { db_queue = s.db_queue ++ db_event ∷ [] })
        (λ t. add_k8s_event t node_id topo_event)
