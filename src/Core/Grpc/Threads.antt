-- ===== src/Core/Grpc/Threads.antt =====
-- core/src/server/grpc.rs and core/src/aggregator: the threads that record events and those that answer
-- calls, interleaved at every access to a cache, to the seen edges or to the topology.
use qubit.Base.{Text, true, List, [], ◌∷◌, ◌++◌, ◌≡◌, arith, text_eq}
use qubit.Base.Map.{Map}
use qubit.Core.Topology.Closed.{IsSound, resolve-IsSound, add_k8s_event-IsSound}
use qubit.Core.Cache.{CacheLib}
use qubit.Core.State.{State, EbpfNetworkEventInput}
use qubit.Core.Ebpf.{record_flow}
use qubit.Core.Ebpf.Stored.{store-IsSound}
use qubit.Core.Ebpf.Phases.{
  Progress, started, sourced, unrouted, named, resolved, claimed, finished, advance,
}
use qubit.Core.Grpc.{add_route}
use qubit.Core.Grpc.Interleaving.{with_topology-IsSound}
use qubit.Core.Grpc.Calls.{
  Action, put_pod, drop_pod, heal, put_service, drop_service, queue_row, attach, put_route, Call,
  actions_of, act,
}

module _ (lib : CacheLib) where
  -- A call in progress is what it has still to do.
  pub record Threads : Type 0 where
    pub core : State lib
    pub running : List Progress
    pub calls : List (List Action)

  pub data Move : Threads → Threads → Type 0 where
    -- A call of `send_ebpf_network_event` starts a thread.
    arrive :
        (s : Threads) (input : EbpfNetworkEventInput)
        → Move s (record s { running = s.running ++ started input ∷ [] })
    -- Any of these threads does its next step.
    proceed :
        (s : Threads) (before after : List Progress) (p : Progress)
        → s.running ≡ before ++ p ∷ after
        → Move s (record s {
          core = (advance lib s.core p).0;
          running = before ++ (advance lib s.core p).1 ∷ after;
        })
    -- A call of another handler.
    call :
        (s : Threads) (to_json : Map Text Text → Text) (c : Call)
        → Move s (record s { calls = s.calls ++ actions_of lib to_json c ∷ [] })
    access :
        (s : Threads) (before after : List (List Action)) (a : Action) (rest : List Action)
        → s.calls ≡ before ++ (a ∷ rest) ∷ after
        → Move s (record s { core = act lib s.core a; calls = before ++ rest ∷ after })
    reply_sent :
        (s : Threads) (before after : List (List Action))
        → s.calls ≡ before ++ [] ∷ after
        → Move s (record s { calls = before ++ after })
    -- A panic poisons a lock.
    panic_topology :
        (s : Threads) → Move s (record s { core = record s.core { topology_poisoned = true } })
    panic_seen : (s : Threads) → Move s (record s { core = record s.core { seen_poisoned = true } })

  pub data Moves (s : Threads) : Threads → Type 0 where
    stay : Moves s s
    more : {t u : Threads} → Moves s t → Move t u → Moves s u

  pub advance-IsSound :
      (s : State lib) (p : Progress) → IsSound s.topology → IsSound (advance lib s p).0.topology
  unfolding advance record_flow
  advance-IsSound s (started input) h = ground arith
  advance-IsSound s (sourced input src) h = ground arith
  advance-IsSound s (unrouted input src) h = ground arith
  advance-IsSound s (named input src name) h = h
  advance-IsSound s (resolved input src dst) h = ground arith
  advance-IsSound s (claimed input src dst) h =
      ground (arith, store-IsSound s.topology input src dst h)
  advance-IsSound s (finished answer) h = h

  act-IsSound : (s : State lib) (a : Action) → IsSound s.topology → IsSound (act lib s a).topology
  unfolding act add_route
  act-IsSound s (put_pod ip info) h = h
  act-IsSound s (drop_pod ip) h = h
  act-IsSound s (heal ip app ns) h =
      with_topology-IsSound lib s _ (λ t. resolve-IsSound t ip app ns) h
  act-IsSound s (put_service key info) h = h
  act-IsSound s (drop_service key) h = h
  act-IsSound s (queue_row row) h = h
  act-IsSound s (attach node event) h =
      with_topology-IsSound lib s _ (λ t. add_k8s_event-IsSound t node event) h
  act-IsSound s (put_route entry) h = h

  Move-IsSound : {s u : Threads} → Move s u → IsSound s.core.topology → IsSound u.core.topology
  Move-IsSound (arrive s input) h = h
  Move-IsSound (proceed s before after p e) h = advance-IsSound s.core p h
  Move-IsSound (call s to_json c) h = h
  Move-IsSound (access s before after a rest e) h = act-IsSound s.core a h
  Move-IsSound (reply_sent s before after e) h = h
  Move-IsSound (panic_topology s) h = h
  Move-IsSound (panic_seen s) h = h

  -- If the topology is sound at first, it is sound after every interleaving of the threads.
  pub Moves-IsSound :
      {s u : Threads} → IsSound s.core.topology → Moves s u → IsSound u.core.topology
  Moves-IsSound h stay = h
  Moves-IsSound h (more r mv) = Move-IsSound mv (Moves-IsSound h r)
