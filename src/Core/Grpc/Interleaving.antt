-- ===== src/Core/Grpc/Interleaving.antt =====
-- core/src/server/grpc.rs: the calls and the spawned tasks in any order.
use mathlib.Core.List.{foldl}
use qubit.Base.{ℕ, Text, List, [], ◌∷◌, ◌++◌, true, ◌≡◌, refl, Bool-cases, inl, inr, Option-cases}
use qubit.Base.Map.{Map}
use qubit.Core.Topology.{Topology}
use qubit.Core.Topology.Closed.{IsSound, add_k8s_event-IsSound, resolve-IsSound}
use qubit.Core.Cache.{CacheLib}
use qubit.Core.State.{EbpfNetworkEventInput, State}
use qubit.Core.Ebpf.{record_ebpf_event}
use qubit.Core.Ebpf.Stored.{store-IsSound}
use qubit.Core.Ebpf.Laws.{IsNew-or_unchanged, stored_if_new}
use qubit.Core.K8s.{
  with_topology, record_pod_applied, record_pod_deleted, record_service_applied,
  record_service_deleted, record_k8s_resource_event,
}
use qubit.Core.Grpc.{
  EbpfNetworkEventRequest, PodEventRequest, ServiceEventRequest, ConfigMapEventRequest,
  ServicePodEntry, K8sResourceEventRequest, EnvoyRouteEntry, System, send_ebpf_network_event,
  send_pod_event, send_service_event, send_config_map_event, send_service_pod_map,
  send_k8s_resource_event, send_envoy_routes, apply_pods, apply_entries, add_route, try_event_type,
  applied, deleted,
}

module _ (lib : CacheLib) where
  abbrev Keeps : State lib → State lib → Type 0
  Keeps s u = IsSound s.topology → IsSound u.topology

  record_ebpf_event-IsSound :
      (s : State lib) (input : EbpfNetworkEventInput) → Keeps s (record_ebpf_event lib s input).0
  record_ebpf_event-IsSound s input h = elim (IsNew-or_unchanged lib s input) [
    | inl (src, new) ↦
        rw ((stored_if_new lib s input src new).1) (store-IsSound s.topology input src _ h)
    | inr (same, _) ↦ rw same h
  ]

  pub with_topology-IsSound :
      (s : State lib) (f : Topology → Topology)
      → ((t : Topology) → IsSound t → IsSound (f t))
      → Keeps s (with_topology lib s f)
  unfolding with_topology
  with_topology-IsSound s f keep h = elim (Bool-cases s.topology_poisoned) [
    | inl bad ↦ rw bad h
    | inr usable ↦ rw usable (keep s.topology h)
  ]

  pub record_pod_applied-IsSound :
      (s : State lib) (ip ns app svc type : Text)
      → Keeps s (record_pod_applied lib s ip ns app svc type)
  unfolding record_pod_applied
  record_pod_applied-IsSound s ip ns [] svc type h = h
  record_pod_applied-IsSound s ip ns (c ∷ app) svc type h =
      with_topology-IsSound _ _ (λ t. resolve-IsSound t ip (c ∷ app) ns) h

  apply_pods-IsSound :
      (entry : ServicePodEntry) (s : State lib) (ips : List Text)
      → Keeps s (apply_pods lib entry s ips)
  unfolding apply_pods
  apply_pods-IsSound entry s [] h = h
  apply_pods-IsSound entry s (ip ∷ ips) h =
      apply_pods-IsSound entry
        (record_pod_applied lib s ip entry.namespace entry.application_name entry.service_name
          entry.service_type)
        ips (record_pod_applied-IsSound s ip _ _ _ _ h)

  apply_entries-IsSound :
      (s : State lib) (entries : List ServicePodEntry) → Keeps s (apply_entries lib s entries)
  unfolding apply_entries
  apply_entries-IsSound s [] h = h
  apply_entries-IsSound s (e ∷ es) h =
      apply_entries-IsSound (apply_pods lib e s e.pod_ips) es (apply_pods-IsSound e s e.pod_ips h)

  add_routes_lem :
      (s : State lib) (entries : List EnvoyRouteEntry)
      → (foldl (add_route lib) s entries).topology ≡ s.topology
  unfolding add_route
  add_routes_lem s [] = refl
  add_routes_lem s (e ∷ es) = add_routes_lem (add_route lib s e) es

  -- A call, a task that runs (any of those that wait), or a panic that poisons a lock.
  pub data Step : System lib → System lib → Type 0 where
    ebpf :
        (s : System lib) (req : EbpfNetworkEventRequest)
        → Step s (send_ebpf_network_event lib s req).0
    pod : (s : System lib) (req : PodEventRequest) → Step s (send_pod_event lib s req).0
    service : (s : System lib) (req : ServiceEventRequest) → Step s (send_service_event lib s req).0
    config_map :
        (s : System lib) (req : ConfigMapEventRequest) → Step s (send_config_map_event lib s req).0
    pod_map :
        (s : System lib) (entries : List ServicePodEntry)
        → Step s (send_service_pod_map lib s entries).0
    resource :
        (to_json : Map Text Text → Text) (now : ℕ) (s : System lib) (req : K8sResourceEventRequest)
        → Step s (send_k8s_resource_event lib to_json now s req).0
    routes :
        (s : System lib) (entries : List EnvoyRouteEntry)
        → Step s (send_envoy_routes lib s entries).0
    task :
        (s : System lib) (before after : List EbpfNetworkEventInput) (input : EbpfNetworkEventInput)
        → s.tasks ≡ before ++ input ∷ after
        → Step s (record { core = (record_ebpf_event lib s.core input).0; tasks = before ++ after })
    panic_topology :
        (s : System lib) → Step s (record s { core = record s.core { topology_poisoned = true } })
    panic_seen :
        (s : System lib) → Step s (record s { core = record s.core { seen_poisoned = true } })

  pub data Reach (s : System lib) : System lib → Type 0 where
    here : Reach s s
    next : {t u : System lib} → Reach s t → Step t u → Reach s u

  abbrev pub IsSoundSystem : System lib → Type 0
  IsSoundSystem s = IsSound s.core.topology

  Step-IsSound : {s u : System lib} → Step s u → IsSoundSystem s → IsSoundSystem u
  unfolding send_ebpf_network_event send_config_map_event send_service_pod_map send_envoy_routes
      send_pod_event send_service_event send_k8s_resource_event
  Step-IsSound (ebpf s req) h = h
  Step-IsSound (pod s req) h = elim (Option-cases (try_event_type req.event_type)) [
    | inl e ↦ rw (e, send_pod_event) h
    | inr (applied, e) ↦ rw (e, send_pod_event) (record_pod_applied-IsSound s.core _ _ _ _ _ h)
    | inr (deleted, e) ↦ rw (e, send_pod_event) (unfold record_pod_deleted in h)
  ]
  Step-IsSound (service s req) h = elim (Option-cases (try_event_type req.event_type)) [
    | inl e ↦ rw (e, send_service_event) h
    | inr (applied, e) ↦ rw (e, send_service_event) (unfold record_service_applied in h)
    | inr (deleted, e) ↦ rw (e, send_service_event) (unfold record_service_deleted in h)
  ]
  Step-IsSound (config_map s req) h = elim (Option-cases (try_event_type req.event_type)) [
    | inl e ↦ rw (e, send_config_map_event) h
    | inr (applied, e) ↦ rw (e, send_config_map_event) h
    | inr (deleted, e) ↦ rw (e, send_config_map_event) h
  ]
  Step-IsSound (pod_map s entries) h = apply_entries-IsSound s.core entries h
  Step-IsSound (resource to_json now s req) h =
      elim (Option-cases (try_event_type req.event_type)) [
        | inl e ↦ rw (e, send_k8s_resource_event) h
        | inr (kind, e) ↦
            rw (e, send_k8s_resource_event)
              (unfold record_k8s_resource_event in
                with_topology-IsSound _ _ (λ t. add_k8s_event-IsSound t _ _) h)
      ]
  Step-IsSound (routes s entries) h = rw add_routes_lem h
  Step-IsSound (task s before after input e) h = record_ebpf_event-IsSound s.core input h
  Step-IsSound (panic_topology s) h = h
  Step-IsSound (panic_seen s) h = h

  -- From a system with a sound topology, every sequence of calls of the gRPC handlers, of spawned
  -- event tasks run in any order, and of panics that poison a lock leads to a system with a sound
  -- topology: its two flow indexes agree, and both ends of every flow are nodes of the graph.
  Reach-IsSound : {s u : System lib} → IsSoundSystem s → Reach s u → IsSoundSystem u
  Reach-IsSound h here = h
  Reach-IsSound h (next r st) = Step-IsSound st (Reach-IsSound h r)
