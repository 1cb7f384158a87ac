-- ===== src/Core/Grpc/Carried.antt =====
-- core/src/aggregator and core/src/topology/topology.rs: what becomes of a flow while the threads go on. It
-- stays, under the names that its ends get when addresses become known.
use qubit.Base.{
  Text, ◌==◌, ==_iff, if◌then◌else◌, false, ◌≡◌, refl, subst, inl, inr, Bool-cases, arith,
}
use qubit.Base.Map
use qubit.Core.Topology.{
  NodeId, Flow, Topology, stale_id, node_eq, rename_node, rename_flow, resolve_unknown_node,
  add_k8s_event,
}
use qubit.Core.Topology.Invariant.{HasFlow}
use qubit.Core.Topology.Resolve.{HasFlow-resolve, unresolved_lem}
use qubit.Core.Topology.Closed.{IsSound, HasNode}
use qubit.Core.Cache.{CacheLib}
use qubit.Core.State.{State}
use qubit.Core.Ebpf.{record_flow}
use qubit.Core.Ebpf.Laws.{HasFlow-store}
use qubit.Core.Ebpf.Phases.{
  Progress, started, sourced, unrouted, named, resolved, claimed, finished, advance,
}
use qubit.Core.K8s.{with_topology}
use qubit.Core.Grpc.{add_route}
use qubit.Core.Grpc.Calls.{
  Action, put_pod, drop_pod, heal, put_service, drop_service, queue_row, attach, put_route, act,
}
use qubit.Core.Grpc.Threads.{
  Threads, arrive, proceed, call, access, reply_sent, panic_topology, panic_seen, Moves, stay, more,
  Moves-IsSound,
}

-- A node of a graph is not renamed if the stale node is not there.
name_kept :
    (t : Topology) (stale new n : NodeId)
    → Map.contains_key t.nodes stale ≡ false
    → HasNode t n
    → rename_node stale new n ≡ n
unfolding rename_node
name_kept t stale new n absent known = elim (Bool-cases (n == stale)) [
  | inl same ↦ absurd (cc (subst (HasNode t) ((==_iff n stale).0 same) known, absent))
  | inr other ↦ ground arith
]

HasFlow-renamed :
    (t : Topology) (ip app ns : Text) (f : Flow)
    → IsSound t
    → HasFlow t f
    → HasFlow
        (resolve_unknown_node t ip app ns)
        (rename_flow (stale_id ip) (record { application_name = app; namespace = ns }) f)
unfolding rename_flow
HasFlow-renamed t ip app ns f h known =
    let new : NodeId = record { application_name = app; namespace = ns } in
    elim (Bool-cases (Map.contains_key t.nodes (stale_id ip))) [
      | inl stale ↦ (HasFlow-resolve t ip app ns stale h.indexed _).1 (f, known, refl)
      | inr absent ↦
          rw
            (
              unresolved_lem t ip app ns absent,
              name_kept t (stale_id ip) new f.source_node absent (h.source_known f known),
              name_kept t (stale_id ip) new f.destination_node absent (h.destination_known f known),
            )
            known
    ]

module _ (lib : CacheLib) where
  -- What an access to the shared state makes of a flow's names.
  abbrev pub renamed_by : State lib → Action → Flow → Flow
  renamed_by s (heal ip app ns) f =
      if s.topology_poisoned
      then f
      else rename_flow (stale_id ip) (record { application_name = app; namespace = ns }) f
  renamed_by s _ f = f

  -- What a run makes of them.
  abbrev pub carried : {s u : Threads lib} → Moves lib s u → Flow → Flow
  carried stay f = f
  carried (more r (access s before after a rest e)) f = renamed_by s.core a (carried r f)
  carried (more r _) f = carried r f

  HasFlow-act :
      (s : State lib) (a : Action) (f : Flow)
      → IsSound s.topology
      → HasFlow s.topology f
      → HasFlow (act lib s a).topology (renamed_by s a f)
  unfolding act add_route with_topology add_k8s_event
  HasFlow-act s (put_pod ip info) f h known = known
  HasFlow-act s (drop_pod ip) f h known = known
  HasFlow-act s (heal ip app ns) f h known = elim (Bool-cases s.topology_poisoned) [
    | inl bad ↦ rw bad known
    | inr usable ↦ rw usable (HasFlow-renamed s.topology ip app ns f h known)
  ]
  HasFlow-act s (put_service key info) f h known = known
  HasFlow-act s (drop_service key) f h known = known
  HasFlow-act s (queue_row row) f h known = known
  HasFlow-act s (attach node event) f h known = ground arith
  HasFlow-act s (put_route entry) f h known = known

  HasFlow-advance :
      (s : State lib) (p : Progress) (f : Flow)
      → HasFlow s.topology f
      → HasFlow (advance lib s p).0.topology f
  unfolding advance record_flow
  HasFlow-advance s (started input) f known = ground arith
  HasFlow-advance s (sourced input src) f known = ground arith
  HasFlow-advance s (unrouted input src) f known = ground arith
  HasFlow-advance s (named input src name) f known = known
  HasFlow-advance s (resolved input src dst) f known = ground arith
  HasFlow-advance s (claimed input src dst) f known =
      ground (arith, (HasFlow-store s.topology input src dst f).1 (inl known))
  HasFlow-advance s (finished answer) f known = known

  -- A flow of a sound graph is there after any interleaving, under the names that it has then.
  pub HasFlow-carried :
      {s u : Threads lib} (run : Moves lib s u) (f : Flow)
      → IsSound s.core.topology
      → HasFlow s.core.topology f
      → HasFlow u.core.topology (carried run f)
  HasFlow-carried stay f h known = known
  HasFlow-carried (more r (arrive s input)) f h known = HasFlow-carried r f h known
  HasFlow-carried (more r (proceed s before after p e)) f h known =
      HasFlow-advance s.core p (carried r f) (HasFlow-carried r f h known)
  HasFlow-carried (more r (call s to_json c)) f h known = HasFlow-carried r f h known
  HasFlow-carried (more r (access s before after a rest e)) f h known =
      HasFlow-act s.core a (carried r f) (Moves-IsSound lib h r) (HasFlow-carried r f h known)
  HasFlow-carried (more r (reply_sent s before after e)) f h known = HasFlow-carried r f h known
  HasFlow-carried (more r (panic_topology s)) f h known = HasFlow-carried r f h known
  HasFlow-carried (more r (panic_seen s)) f h known = HasFlow-carried r f h known
