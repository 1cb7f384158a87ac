-- ===== src/Core/K8s/Laws.antt =====
-- core/src/aggregator/k8s_aggregator.rs: the caches and the topology after a call.
use qubit.Base.{
  Text, text_eq, nat_eq, head_of_split, ◌==◌, if◌then◌else◌, none, some, [], ◌∷◌, false, ◌≡◌, ◌≢◌,
  inr, refl, subst, ◌∙◌, arith,
}
use qubit.Core.Ip.{ip_str}
use qubit.Core.Host.Laws.{parse_k8s_host-ip_str}
use qubit.Core.Topology.{
  Topology, stale_id, node_eq, rename_node, rename_flow, resolve_unknown_node,
}
use qubit.Core.Topology.Invariant.{HasFlow}
use qubit.Core.Topology.Resolve.{HasFlow-resolve}
use qubit.Core.Topology.Closed.{IsSound, HasNode}
use qubit.Core.Cache.{CacheLib}
use qubit.Core.State.{PodInfo, ServiceInfo, DomainOwner, EbpfNetworkEventInput, State}
use qubit.Core.Ebpf.{
  store, Resolved, node_of, filter_some, resolve_name, resolve_destination, record_ebpf_event,
}
use qubit.Core.Ebpf.Stored.{store-IsSound, destination_known}
use qubit.Core.Ebpf.Laws.{poison_kept, stored_if_new, HasFlow-store, IsNew, destination, flow_of}
use qubit.Core.K8s.{
  service_key, with_topology, record_pod_applied, record_pod_deleted, record_service_applied,
  record_service_deleted,
}

module _ (lib : CacheLib) (s : State lib) where
  -- After `record_pod_applied` the pod cache has the given data under the pod's address, and
  -- after `record_pod_deleted` nothing; in both cases the entries of all other addresses are as
  -- before.
  pub pod_cache_lem :
      (ip ns app svc type j : Text)
      → (lib.get PodInfo (record_pod_applied lib s ip ns app svc type).pod_cache j ≡ (
          if ip == j
          then some (record {
            namespace = ns;
            application_name = app;
            service_name = svc;
            service_type = type;
          })
          else lib.get PodInfo s.pod_cache j))
        × (lib.get PodInfo (record_pod_deleted lib s ip).pod_cache j
            ≡ (if ip == j then none else lib.get PodInfo s.pod_cache j))
  unfolding record_pod_applied record_pod_deleted with_topology
  pod_cache_lem ip ns app svc type j =
      let info : PodInfo = record {
        namespace = ns;
        application_name = app;
        service_name = svc;
        service_type = type;
      } in
      (
        ground (arith, lib.get-insert PodInfo s.pod_cache ip info j),
        ground (arith, lib.get-remove PodInfo s.pod_cache ip j),
      )

  service_cache_lem :
      (name ns type cluster_ip j : Text)
      → (lib.get ServiceInfo (record_service_applied lib s name ns type cluster_ip).service_cache j
          ≡ (if service_key ns name == j
              then some (record { namespace = ns; service_type = type; cluster_ip = cluster_ip })
              else lib.get ServiceInfo s.service_cache j))
        × (lib.get ServiceInfo (record_service_deleted lib s name ns).service_cache j
            ≡ (if service_key ns name == j then none else lib.get ServiceInfo s.service_cache j))
  unfolding record_service_applied record_service_deleted
  service_cache_lem name ns type cluster_ip j = (
    lib.get-insert ServiceInfo s.service_cache _ _ j,
    lib.get-remove ServiceInfo s.service_cache _ j,
  )

  pub applied_lem :
      (ip ns app svc type : Text)
      → app ≢ []
      → s.topology_poisoned ≡ false
      → (record_pod_applied lib s ip ns app svc type).topology
        ≡ resolve_unknown_node s.topology ip app ns
  unfolding record_pod_applied with_topology
  applied_lem ip ns [] svc type named usable = absurd (named refl)
  applied_lem ip ns (c ∷ app) svc type named usable = rw usable

-- The destination of an event whose Host header is the text of the destination's address, while
-- neither cache knows it.
module _ (lib : CacheLib) (s : State lib) (input : EbpfNetworkEventInput) where
  pub record IsUnknown : Type 0 where
    pub by_address : head_of_split 58 input.host ≡ ip_str input.dst_ip
    pub no_route : lib.get DomainOwner s.envoy_cache (ip_str input.dst_ip) ≡ none
    pub no_pod : lib.get PodInfo s.pod_cache (ip_str input.dst_ip) ≡ none

  pub unknown_destination :
      IsUnknown → node_of (destination lib s input) ≡ stale_id (ip_str input.dst_ip)
  unfolding resolve_destination resolve_name filter_some
  unknown_destination h =
      ground (arith, parse_k8s_host-ip_str input.dst_ip, h.by_address, h.no_route, h.no_pod)

module _ (lib : CacheLib) (s : State lib) (input : EbpfNetworkEventInput) where
  -- Let the topology be sound, let an event be new with a resolved source that is not the stale
  -- node of the event's destination address, and let its destination be unknown: the host is the
  -- address, and neither the Envoy cache nor the pod cache has an entry for it. If, after the
  -- event is recorded, the pod of that address is applied with a non-empty application name, then
  -- the graph has the flow from the source to that application, with the path and the method of
  -- the event.
  pub heal :
      IsSound s.topology
      → (src : Resolved) → IsNew lib s input src
      → IsUnknown lib s input
      → (ns app svc type : Text) → app ≢ []
      → node_of src ≢ stale_id (ip_str input.dst_ip)
      → HasFlow
          (record_pod_applied lib
            (record_ebpf_event lib s input).0
            (ip_str input.dst_ip)
            ns
            app
            svc
            type).topology
          (record {
            source_node = node_of src;
            destination_node = record { application_name = app; namespace = ns };
            path = input.path;
            method = input.method;
          })
  heal h src new away ns app svc type named apart =
      rw
        (applied_lem lib t ip ns app svc type named (poison_kept lib s input ∙ new.topology_usable))
        (rw topology (
          (HasFlow-resolve u ip app ns known sound.indexed _).1
            (flow_of input src dst, stored, at_name)))
    where
      ip : Text
      ip = ip_str input.dst_ip

      dst : Resolved
      dst = destination lib s input

      t : State lib
      t = (record_ebpf_event lib s input).0

      u : Topology
      u = store s.topology input src dst

      topology : t.topology ≡ u
      topology = (stored_if_new lib s input src new).1

      sound : IsSound u
      sound = store-IsSound s.topology input src dst h

      known : HasNode u (stale_id ip)
      known =
          subst (HasNode u) (unknown_destination lib s input away)
            (destination_known s.topology input src dst h)

      stored : HasFlow u (flow_of input src dst)
      stored = (HasFlow-store s.topology input src dst _).1 (inr refl)

      at_name :
          rename_flow
            (stale_id ip)
            (record { application_name = app; namespace = ns })
            (flow_of input src dst)
          ≡ record {
            source_node = node_of src;
            destination_node = record { application_name = app; namespace = ns };
            path = input.path;
            method = input.method;
          }
      at_name =
          unfold rename_flow rename_node in ground (arith, unknown_destination lib s input away)
