-- ===== src/Agent/Cluster.antt =====
-- The agent (cluster-agent/src/kubernetes, cluster-agent/src/server/mod.rs) next to core
-- (core/src/server/grpc.rs). The watched events come in any order, and each message has a task of its
-- own, so the messages arrive in any order, between any two accesses of core's threads, or are lost.
pub mod Runs
pub mod Told
pub mod Answered
pub mod Late
use qubit.Base.{ℕ, Text, List, [], ◌∷◌, ◌++◌, ◌≡◌, true}
use qubit.Base.Map.{Map}
use qubit.Agent.Objects.{ObjectMeta, Pod, Service, ConfigMap, Event}
use qubit.Agent.Registry.{ServiceRegistry}
use qubit.Agent.Envoy.{YamlLib}
use qubit.Agent.Handlers.{
  Message, pod_event, service_event, resource_event, pod_map, config_map_event, envoy_routes,
  send_initial_pod_service_map,
}
use qubit.Agent.ConfigMaps.{send_envoy_routes_from_configmaps}
use qubit.Agent.Informer.{WatchEvent, handle}
use qubit.Agent.Informer.Handlers.{
  pod_handler, service_handler, configmap_handler, event_handler, generic_handler,
}
use qubit.Core.Cache.{CacheLib}
use qubit.Core.State.{State, EbpfNetworkEventInput}
use qubit.Core.Ebpf.Phases.{Progress, started, advance}
use qubit.Core.Grpc.Threads.{Threads}
use qubit.Core.Grpc.Calls.{
  Action, Call, pod_call, service_call, config_map_call, pod_map_call, resource_call, routes_call,
  actions_of, act,
}

-- The call of core that a message is, with the time at which it arrives.
unfoldable pub call_for : ℕ → Message → Call
call_for now (pod_event req) = pod_call req
call_for now (service_event req) = service_call req
call_for now (resource_event req) = resource_call now req
call_for now (pod_map entries) = pod_map_call entries
call_for now (config_map_event req) = config_map_call req
call_for now (envoy_routes entries) = routes_call entries

module _ (lib : CacheLib) (y : YamlLib) (to_json : Map Text Text → Text) where
  pub record Cluster : Type 0 where
    pub registry : ServiceRegistry
    pub sent : List Message
    pub core : Threads lib

  -- A handler's reaction.
  abbrev pub react : Cluster → ServiceRegistry × List Message → Cluster
  react s (registry', messages) = record s { registry = registry'; sent = s.sent ++ messages }

  abbrev pub tell : Cluster → List Message → Cluster
  tell s messages = record s { sent = s.sent ++ messages }

  pub data Turn : Cluster → Cluster → Type 0 where
    pods : (s : Cluster) (ev : WatchEvent Pod) → Turn s (react s (handle pod_handler s.registry ev))
    services :
        (s : Cluster) (ev : WatchEvent Service)
        → Turn s (react s (handle service_handler s.registry ev))
    config_maps :
        (s : Cluster) (ev : WatchEvent ConfigMap)
        → Turn s (react s (handle (configmap_handler y) s.registry ev))
    k8s_events :
        (s : Cluster) (ev : WatchEvent Event)
        → Turn s (react s (handle event_handler s.registry ev))
    resources :
        (s : Cluster) (resource_type : Text) (ev : WatchEvent ObjectMeta)
        → Turn s (react s (handle (generic_handler resource_type) s.registry ev))
    -- The two parts of the initial state, which are sent again every 30 seconds.
    resync_pods :
        (s : Cluster) (svcs : List Service) (pods : List Pod)
        → Turn s (tell s (send_initial_pod_service_map svcs pods ∷ []))
    resync_routes :
        (s : Cluster) (cms : List ConfigMap)
        → Turn s (tell s (send_envoy_routes_from_configmaps y cms))
    arrive :
        (s : Cluster) (now : ℕ) (before after : List Message) (m : Message)
        → s.sent ≡ before ++ m ∷ after
        → Turn s (record s {
          sent = before ++ after;
          core = record s.core {
            calls = s.core.calls ++ actions_of lib to_json (call_for now m) ∷ [];
          };
        })
    -- A call that fails is logged.
    lose :
        (s : Cluster) (before after : List Message) (m : Message)
        → s.sent ≡ before ++ m ∷ after
        → Turn s (record s { sent = before ++ after })
    -- A loader's event arrives at core.
    network_event :
        (s : Cluster) (input : EbpfNetworkEventInput)
        → Turn s
            (record s { core = record s.core { running = s.core.running ++ started input ∷ [] } })
    -- Core's threads go on, and its locks are poisoned by panics.
    proceed :
        (s : Cluster) (before after : List Progress) (p : Progress)
        → s.core.running ≡ before ++ p ∷ after
        → Turn s (record s {
          core = record s.core {
            core = (advance lib s.core.core p).0;
            running = before ++ (advance lib s.core.core p).1 ∷ after;
          };
        })
    access :
        (s : Cluster) (before after : List (List Action)) (a : Action) (rest : List Action)
        → s.core.calls ≡ before ++ (a ∷ rest) ∷ after
        → Turn s (record s {
          core = record s.core { core = act lib s.core.core a; calls = before ++ rest ∷ after };
        })
    reply_sent :
        (s : Cluster) (before after : List (List Action))
        → s.core.calls ≡ before ++ [] ∷ after
        → Turn s (record s { core = record s.core { calls = before ++ after } })
    panic_topology :
        (s : Cluster)
        → Turn s (record s {
          core = record s.core { core = record s.core.core { topology_poisoned = true } };
        })
    panic_seen :
        (s : Cluster)
        → Turn s (record s {
          core = record s.core { core = record s.core.core { seen_poisoned = true } };
        })

  pub data Run (s : Cluster) : Cluster → Type 0 where
    here : Run s s
    next : {t u : Cluster} → Run s t → Turn t u → Run s u
