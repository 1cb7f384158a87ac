-- ===== src/Agent/Cluster/Runs.antt =====
-- Agent and core together: what core goes through is an interleaving of its own threads, and the call
-- that a message becomes is the one that delivers it.
use qubit.Base.{ℕ, Text, List, ◌≡◌, refl}
use qubit.Base.Map.{Map}
use qubit.Agent.Envoy.{YamlLib}
use qubit.Agent.Handlers.{
  Message, pod_event, service_event, resource_event, pod_map, config_map_event, envoy_routes,
  deliver,
}
use qubit.Agent.Cluster.{
  Cluster, call_for, Turn, pods, services, config_maps, k8s_events, resources, resync_pods,
  resync_routes, arrive, lose, network_event, proceed, access, reply_sent, panic_topology,
  panic_seen, Run, here, next,
}
use qubit.Core.Topology.Closed.{IsSound}
use qubit.Core.Cache.{CacheLib}
use qubit.Core.State.{State}
use qubit.Core.Grpc.{System}
use qubit.Core.Grpc.Calls.{answer}
use qubit.Core.Grpc.Threads as Threads
use qubit.Core.Grpc.Threads.{Moves, Moves-IsSound}
use qubit.Core.Grpc.Races.{IsClaimedOnce, Moves-IsClaimedOnce}

module _ (lib : CacheLib) (y : YamlLib) (to_json : Map Text Text → Text) where
  Moves-Turn :
      {s u : Cluster lib y to_json}
      → Turn lib y to_json s u
      → {t : Threads.Threads lib} → Moves lib t s.core
      → Moves lib t u.core
  Moves-Turn (pods s ev) r = r
  Moves-Turn (services s ev) r = r
  Moves-Turn (config_maps s ev) r = r
  Moves-Turn (k8s_events s ev) r = r
  Moves-Turn (resources s type ev) r = r
  Moves-Turn (resync_pods s svcs ps) r = r
  Moves-Turn (resync_routes s cms) r = r
  Moves-Turn (arrive s now before after m e) r =
      Threads.more r (Threads.call s.core to_json (call_for now m))
  Moves-Turn (lose s before after m e) r = r
  Moves-Turn (network_event s input) r = Threads.more r (Threads.arrive s.core input)
  Moves-Turn (proceed s before after p e) r =
      Threads.more r (Threads.proceed s.core before after p e)
  Moves-Turn (access s before after a rest e) r =
      Threads.more r (Threads.access s.core before after a rest e)
  Moves-Turn (reply_sent s before after e) r =
      Threads.more r (Threads.reply_sent s.core before after e)
  Moves-Turn (panic_topology s) r = Threads.more r (Threads.panic_topology s.core)
  Moves-Turn (panic_seen s) r = Threads.more r (Threads.panic_seen s.core)

  -- What core goes through in a run is an interleaving of its threads.
  Run-Moves : {s u : Cluster lib y to_json} → Run lib y to_json s u → Moves lib s.core u.core
  Run-Moves here = Threads.stay
  Run-Moves (next r turn) = Moves-Turn turn (Run-Moves r)

  -- If core's topology is sound at first, and at most one of core's threads is between the claim
  -- of each edge key and the store of its flow, and only of a key that is marked as seen, then
  -- both are so after every run of agent and core together: the agent reacts to any watched
  -- events and sends its initial state again at any time, the messages arrive in any order or are
  -- lost, and core's threads, those that record the loader's events and those that answer the
  -- agent's calls, are interleaved at every access to a cache and every lock, also with panics
  -- that poison a lock. A topology is sound if its two flow indexes agree and both ends of every
  -- flow are nodes of the graph.
  pub Run-IsSound :
      {s u : Cluster lib y to_json}
      → IsSound s.core.core.topology
      → IsClaimedOnce lib s.core
      → Run lib y to_json s u
      → IsSound u.core.core.topology × IsClaimedOnce lib u.core
  Run-IsSound sound once r =
      (Moves-IsSound lib sound (Run-Moves r), Moves-IsClaimedOnce lib once (Run-Moves r))

  pub deliver-answer :
      (now : ℕ) (s : System lib) (m : Message)
      → answer lib to_json s (call_for now m) ≡ deliver lib to_json now s m
  unfolding deliver answer call_for
  deliver-answer now s (pod_event req) = refl
  deliver-answer now s (service_event req) = refl
  deliver-answer now s (resource_event req) = refl
  deliver-answer now s (pod_map entries) = refl
  deliver-answer now s (config_map_event req) = refl
  deliver-answer now s (envoy_routes entries) = refl

  -- The cluster with another state of core and other messages on their way.
  abbrev pub with_core : Cluster lib y to_json → List Message → State lib → Cluster lib y to_json
  with_core s sent core' = record s { sent = sent; core = record s.core { core = core' } }
