-- ===== src/Core/Grpc/Calls.antt =====
-- core/src/server/grpc.rs and core/src/aggregator/k8s_aggregator.rs: a call of a handler as the accesses
-- to the shared state that it makes, one after the other.
use mathlib.Core.List.{foldl}
use qubit.Base.{
  ℕ, ◌%◌, ◌^◌, Text, text_eq, is_empty, flat_map, if◌then◌else◌, none, some, List, [], ◌∷◌, ◌++◌,
  map, ◌≡◌, refl, ap, ◌∙◌, arith, inl, inr, Option-cases,
}
use qubit.Base.Map.{Map}
use qubit.Core.Topology.{NodeId, K8sEvent, resolve_unknown_node, add_k8s_event}
use qubit.Core.Cache.{CacheLib}
use qubit.Core.State.{PodInfo, ServiceInfo, K8sResourceEvent, State}
use qubit.Core.K8s.{
  service_key, with_topology, record_pod_applied, record_pod_deleted, record_service_applied,
  record_service_deleted, record_k8s_resource_event,
}
use qubit.Core.Grpc.{
  PodEventRequest, ServiceEventRequest, ConfigMapEventRequest, ServicePodEntry,
  K8sResourceEventRequest, EnvoyRouteEntry, applied, deleted, System, try_event_type,
  event_type_str, apply_pods, apply_entries, add_route, send_pod_event, send_service_event,
  send_config_map_event, send_service_pod_map, send_k8s_resource_event, send_envoy_routes,
}

-- An access to a cache, to the topology under its lock, or a row that is handed to a task.
pub data Action : Type 0 where
  put_pod : Text → PodInfo → Action
  drop_pod : Text → Action
  heal : Text → Text → Text → Action
  put_service : Text → ServiceInfo → Action
  drop_service : Text → Action
  queue_row : K8sResourceEvent → Action
  attach : NodeId → K8sEvent → Action
  put_route : EnvoyRouteEntry → Action

-- A call of a handler other than the one for the loader's events, with the time that it reads.
pub data Call : Type 0 where
  pod_call : PodEventRequest → Call
  service_call : ServiceEventRequest → Call
  config_map_call : ConfigMapEventRequest → Call
  pod_map_call : List ServicePodEntry → Call
  resource_call : ℕ → K8sResourceEventRequest → Call
  routes_call : List EnvoyRouteEntry → Call

unfoldable pub pod_applied_actions : Text → Text → Text → Text → Text → List Action
pod_applied_actions ip namespace application_name service_name service_type =
    put_pod ip (record {
      namespace = namespace;
      application_name = application_name;
      service_name = service_name;
      service_type = service_type;
    })
    ∷ (if is_empty application_name then [] else heal ip application_name namespace ∷ [])

unfoldable pub entry_actions : ServicePodEntry → List Action
entry_actions e =
    flat_map
      (λ ip. pod_applied_actions ip e.namespace e.application_name e.service_name e.service_type)
      e.pod_ips

module _ (lib : CacheLib) where
  unfoldable pub actions_of : (Map Text Text → Text) → Call → List Action
  actions_of to_json (pod_call req) = elim (try_event_type req.event_type) [
    | none ↦ []
    | some applied ↦
        pod_applied_actions req.pod_ip req.namespace req.application_name req.service_name
          req.service_type
    | some deleted ↦ drop_pod req.pod_ip ∷ []
  ]
  actions_of to_json (service_call req) = elim (try_event_type req.event_type) [
    | none ↦ []
    | some applied ↦
        put_service (service_key req.namespace req.name) (record {
          namespace = req.namespace;
          service_type = req.service_type;
          cluster_ip = req.cluster_ip;
        })
        ∷ []
    | some deleted ↦ drop_service (service_key req.namespace req.name) ∷ []
  ]
  actions_of to_json (config_map_call req) = []
  actions_of to_json (pod_map_call entries) = flat_map entry_actions entries
  actions_of to_json (resource_call now req) = elim (try_event_type req.event_type) [
    | none ↦ []
    | some kind ↦
        queue_row (record {
          event_time = now % 2 ^ 32;
          resource_type = req.resource_type;
          name = req.name;
          namespace = req.namespace;
          event_type = event_type_str lib kind;
          labels = to_json req.labels;
          resource_data = req.resource_data;
        })
        ∷ attach (record { application_name = req.name; namespace = req.namespace })
            (record {
              timestamp = now;
              resource_name = req.name;
              resource_type = req.resource_type;
              event_type = event_type_str lib kind;
              event_data = req.resource_data;
            })
        ∷ []
  ]
  actions_of to_json (routes_call entries) = map put_route entries

  unfoldable pub act : State lib → Action → State lib
  act s (put_pod ip info) = record s { pod_cache = lib.insert PodInfo s.pod_cache ip info }
  act s (drop_pod ip) = record s { pod_cache = lib.remove PodInfo s.pod_cache ip }
  act s (heal ip app ns) = with_topology lib s (λ t. resolve_unknown_node t ip app ns)
  act s (put_service key info) = record s {
    service_cache = lib.insert ServiceInfo s.service_cache key info;
  }
  act s (drop_service key) = record s { service_cache = lib.remove ServiceInfo s.service_cache key }
  act s (queue_row row) = record s { db_queue = s.db_queue ++ row ∷ [] }
  act s (attach node event) = with_topology lib s (λ t. add_k8s_event t node event)
  act s (put_route entry) = add_route lib s entry

  abbrev pub run_actions : State lib → List Action → State lib
  run_actions = foldl act

  -- A whole call.
  unfoldable pub answer : (Map Text Text → Text) → System lib → Call → System lib
  answer to_json s (pod_call req) = (send_pod_event lib s req).0
  answer to_json s (service_call req) = (send_service_event lib s req).0
  answer to_json s (config_map_call req) = (send_config_map_event lib s req).0
  answer to_json s (pod_map_call entries) = (send_service_pod_map lib s entries).0
  answer to_json s (resource_call now req) = (send_k8s_resource_event lib to_json now s req).0
  answer to_json s (routes_call entries) = (send_envoy_routes lib s entries).0

  run_actions-append :
      (s : State lib) (xs ys : List Action)
      → run_actions s (xs ++ ys) ≡ run_actions (run_actions s xs) ys
  run_actions-append s [] ys = refl
  run_actions-append s (a ∷ xs) ys = run_actions-append (act s a) xs ys

  pub run_actions-pod_applied :
      (s : State lib) (ip ns app svc type : Text)
      → run_actions s (pod_applied_actions ip ns app svc type)
        ≡ record_pod_applied lib s ip ns app svc type
  unfolding pod_applied_actions act record_pod_applied
  run_actions-pod_applied s ip ns [] svc type = refl
  run_actions-pod_applied s ip ns (c ∷ app) svc type = refl

  run_actions-pods :
      (s : State lib) (e : ServicePodEntry) (ips : List Text)
      → run_actions s (
          flat_map
            (λ ip.
              pod_applied_actions ip e.namespace e.application_name e.service_name e.service_type)
            ips)
        ≡ apply_pods lib e s ips
  unfolding apply_pods flat_map
  run_actions-pods s e [] = refl
  run_actions-pods s e (ip ∷ ips) =
      let first =
        pod_applied_actions ip e.namespace e.application_name e.service_name e.service_type in
      let step =
        run_actions-pod_applied s ip e.namespace e.application_name e.service_name e.service_type in
      let later =
        flat_map
          (λ ip.
            pod_applied_actions ip e.namespace e.application_name e.service_name e.service_type)
          ips in
      run_actions-append s first later
      ∙ (ap (λ t. run_actions t later) step
          ∙ run_actions-pods
              (record_pod_applied lib s ip e.namespace e.application_name e.service_name
                e.service_type)
              e ips)

  run_actions-entries :
      (s : State lib) (entries : List ServicePodEntry)
      → run_actions s (flat_map entry_actions entries) ≡ apply_entries lib s entries
  unfolding apply_entries entry_actions flat_map
  run_actions-entries s [] = refl
  run_actions-entries s (e ∷ es) =
      run_actions-append s (entry_actions e) (flat_map entry_actions es)
      ∙ (ap (λ t. run_actions t (flat_map entry_actions es)) (run_actions-pods s e e.pod_ips)
          ∙ run_actions-entries (apply_pods lib e s e.pod_ips) es)

  run_actions-routes :
      (s : State lib) (entries : List EnvoyRouteEntry)
      → run_actions s (map put_route entries) ≡ foldl (add_route lib) s entries
  unfolding act
  run_actions-routes s [] = refl
  run_actions-routes s (e ∷ es) = run_actions-routes (add_route lib s e) es

  -- A call that nothing interrupts does what the handler does as a whole.
  pub run_actions-answer :
      (to_json : Map Text Text → Text) (s : System lib) (c : Call)
      → run_actions s.core (actions_of to_json c) ≡ (answer to_json s c).core
  unfolding actions_of answer send_pod_event send_service_event send_config_map_event
      send_service_pod_map send_k8s_resource_event send_envoy_routes act record_pod_deleted
      record_service_applied record_service_deleted record_k8s_resource_event
  run_actions-answer to_json s (pod_call req) =
      elim (Option-cases (try_event_type req.event_type)) [
        | inl e ↦ rw (answer, e, actions_of, send_pod_event) refl
        | inr (applied, e) ↦
            rw (answer, e, actions_of, send_pod_event) (run_actions-pod_applied s.core _ _ _ _ _)
        | inr (deleted, e) ↦ rw (answer, e, actions_of, send_pod_event) refl
      ]
  run_actions-answer to_json s (service_call req) =
      elim (Option-cases (try_event_type req.event_type)) [
        | inl e ↦ rw (answer, e, actions_of, send_service_event) refl
        | inr (applied, e) ↦ rw (answer, e, actions_of, send_service_event) refl
        | inr (deleted, e) ↦ rw (answer, e, actions_of, send_service_event) refl
      ]
  run_actions-answer to_json s (config_map_call req) = ground arith
  run_actions-answer to_json s (pod_map_call entries) = run_actions-entries s.core entries
  run_actions-answer to_json s (resource_call now req) =
      elim (Option-cases (try_event_type req.event_type)) [
        | inl e ↦ rw (answer, e, actions_of, send_k8s_resource_event) refl
        | inr (kind, e) ↦ rw (answer, e, actions_of, send_k8s_resource_event) refl
      ]
  run_actions-answer to_json s (routes_call entries) = run_actions-routes s.core entries
