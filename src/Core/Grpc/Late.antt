-- ===== src/Core/Grpc/Late.antt =====
-- core/src/aggregator/ebpf_aggregator.rs and core/src/aggregator/k8s_aggregator.rs: a pod that becomes known
-- between the claim of an edge and its store, against one that becomes known after the store.
use qubit.Base.{
  Text, text_eq, ==_iff, set_insert, false, some, List, [], ◌∷◌, ◌++◌, ◌≡◌, ◌≢◌, refl, subst, arith,
}
use qubit.Core.Ip.{ip_str}
use qubit.Core.Topology.{stale_id}
use qubit.Core.Topology.Closed.{IsSound, HasNode, resolve_forgets}
use qubit.Core.Cache.{CacheLib}
use qubit.Core.State.{PodInfo, State, EbpfNetworkEventInput}
use qubit.Core.Ebpf.{
  Resolved, edge_key, store, record_flow, resolve_destination, resolve_name, filter_some,
}
use qubit.Core.Ebpf.Laws.{IsNew, destination}
use qubit.Core.Ebpf.Stored.{store-IsSound, destination_known}
use qubit.Core.Ebpf.Phases.{Progress, started, claimed, advance, run_alone}
use qubit.Core.K8s.{with_topology, record_pod_applied}
use qubit.Core.K8s.Laws.{IsUnknown, unknown_destination, applied_lem, pod_cache_lem}
use qubit.Core.Grpc.Interleaving.{record_pod_applied-IsSound}
use qubit.Core.Grpc.Calls.{pod_applied_actions, run_actions, run_actions-pod_applied}
use qubit.Core.Grpc.Threads.{Threads, proceed, Moves, stay, more}
use qubit.Core.Grpc.Alone.{thread_goes_on, pod_is_reported}

module _ (lib : CacheLib) where
  -- A thread that has claimed the edge of its event.
  abbrev pub with_claim : State lib → EbpfNetworkEventInput → Resolved → State lib
  with_claim s input src = record s {
    seen_edges = (set_insert s.seen_edges (edge_key src (destination lib s input))).0;
  }

  -- The thread of an event to an unknown address claims its edge with its fifth step.
  to_claim :
      (s : State lib) (input : EbpfNetworkEventInput) (src : Resolved)
      → IsNew lib s input src
      → IsUnknown lib s input
      → run_alone lib 5 (s, started input)
        ≡ (with_claim s input src, claimed input src (destination lib s input))
  unfolding run_alone advance resolve_destination resolve_name filter_some set_insert
  to_claim s input src new away = ground (
    arith, new.traffic, new.resolved, new.unseen, new.seen_usable, away.by_address, away.no_route,
    away.no_pod,
  )

  module _ (s : Threads lib) (before after : List Progress) (input : EbpfNetworkEventInput)
      (src : Resolved) (ns app svc type : Text) where
    abbrev info : PodInfo
    info = record {
      namespace = ns;
      application_name = app;
      service_name = svc;
      service_type = type;
    }

    abbrev dst : Resolved
    dst = destination lib s.core input

    abbrev stores : State lib → State lib × Progress
    stores x = advance lib x (claimed input src dst)

    abbrev is_told : State lib → State lib
    is_told x = run_actions lib x (pod_applied_actions (ip_str input.dst_ip) ns app svc type)

    -- The event's thread claims its edge, the pod is reported, and the thread stores the edge.
    abbrev pub report_first : Threads lib
    report_first =
        let x = is_told (with_claim s.core input src) in
        record s { core = (stores x).0; running = before ++ (stores x).1 ∷ after }

    -- The thread stores the edge, and the pod is reported.
    abbrev pub store_first : Threads lib
    store_first =
        let x = with_claim s.core input src in
        record s { core = is_told (stores x).0; running = before ++ (stores x).1 ∷ after }

    module _ (waits : s.running ≡ before ++ started input ∷ after)
        (new : IsNew lib s.core input src) (away : IsUnknown lib s.core input) where
      claiming : Moves lib s (record s {
        core = with_claim s.core input src;
        running = before ++ claimed input src dst ∷ after;
      })
      claiming =
          subst
            (λ (q : State lib × Progress).
              Moves lib s (record s { core = q.0; running = before ++ q.1 ∷ after }))
            (to_claim s.core input src new away)
            (thread_goes_on lib 5 s before after (started input) waits stay)

      both_happen : Moves lib s report_first × Moves lib s store_first
      both_happen = (
        more (pod_is_reported lib _ (ip_str input.dst_ip) ns app svc type claiming)
            (proceed _ before after (claimed input src dst) refl),
        pod_is_reported lib _ (ip_str input.dst_ip) ns app svc type
            (more claiming (proceed _ before after (claimed input src dst) refl)),
      )

    told_lem :
        (x : State lib) → is_told x ≡ record_pod_applied lib x (ip_str input.dst_ip) ns app svc type
    told_lem x = run_actions-pod_applied lib x (ip_str input.dst_ip) ns app svc type

    stored_lem :
        (x : State lib)
        → x.topology_poisoned ≡ false
        → ((stores x).0.topology ≡ store x.topology input src dst)
          × ((stores x).0.topology_poisoned ≡ false)
          × ((stores x).0.pod_cache ≡ x.pod_cache)
    unfolding advance record_flow
    stored_lem x usable = (ground arith, ground arith, ground arith)

    told_usable :
        (x : State lib)
        → x.topology_poisoned ≡ false
        → (record_pod_applied lib x (ip_str input.dst_ip) ns app svc type).topology_poisoned ≡ false
    unfolding record_pod_applied with_topology
    told_usable x usable = ground arith

    cached :
        (x : State lib)
        → lib.get PodInfo
            (record_pod_applied lib x (ip_str input.dst_ip) ns app svc type).pod_cache
            (ip_str input.dst_ip)
          ≡ some info
    cached x =
        let ip = ip_str input.dst_ip in
        ground (arith, (pod_cache_lem lib x ip ns app svc type ip).0, ==_iff ip ip)

    -- Let the thread of an event have just begun, among any threads and calls, with a sound
    -- topology. Let the event be new for a resolved source, and its destination be unknown: its
    -- host is the address, and neither the Envoy cache nor the pod cache has an entry for it. Let
    -- the pod of that address be reported with an application's name that is not empty and a name
    -- that differs from the stale node. The threads can come to both of two states. In the first,
    -- the thread claims the edge, the report is answered and the thread stores the edge: then the
    -- stale node of the address is in the graph. In the second, the thread stores the edge before
    -- the report is answered: then it is not. In both the pod cache has the pod under the
    -- address.
    pub late_flow-stale :
        s.running ≡ before ++ started input ∷ after
        → IsSound s.core.topology
        → IsNew lib s.core input src
        → IsUnknown lib s.core input
        → app ≢ []
        → stale_id (ip_str input.dst_ip) ≢ record { application_name = app; namespace = ns }
        → let ip = ip_str input.dst_ip in
          Moves lib s report_first
          × Moves lib s store_first
          × HasNode report_first.core.topology (stale_id ip)
          × (¬ HasNode store_first.core.topology (stale_id ip))
          × (lib.get PodInfo report_first.core.pod_cache ip ≡ some info)
          × (lib.get PodInfo store_first.core.pod_cache ip ≡ some info)
    late_flow-stale waits sound new away named differ =
        let ip = ip_str input.dst_ip in
        let x = with_claim s.core input src in
        let y = record_pod_applied lib x ip ns app svc type in
        let first = stored_lem x new.topology_usable in
        let (up, usable, kept) = stored_lem y (told_usable x new.topology_usable) in
        let known =
          destination_known y.topology input src dst
            (record_pod_applied-IsSound lib x ip ns app svc type sound) in
        let healed = applied_lem lib (stores x).0 ip ns app svc type named first.1 in
        let forgets =
          resolve_forgets (store s.core.topology input src dst) ip app ns
            (store-IsSound s.core.topology input src dst sound) differ in
        (
          (both_happen waits new away).0,
          (both_happen waits new away).1,
          rw (told_lem x, up)
              (subst (HasNode (store y.topology input src dst))
                (unknown_destination lib s.core input away) known),
          rw (told_lem (stores x).0, healed, first.0) forgets.0,
          rw (told_lem x, kept) (cached x),
          rw (told_lem (stores x).0) (cached (stores x).0),
        )
