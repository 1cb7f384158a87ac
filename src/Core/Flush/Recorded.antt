-- ===== src/Core/Flush/Recorded.antt =====
-- core/src/aggregator/ebpf_aggregator.rs: from an event to a row of the table, with the threads that go on
-- in between.
use mathlib.Core.List.Memᴰ
use qubit.Base.{ℕ, inr, false, Memᴰ, ◌≡◌, refl, sym, subst, arith}
use qubit.Core.Cache.{CacheLib}
use qubit.Core.State.{EbpfNetworkEventInput, State, ok}
use qubit.Core.Topology.Invariant.{HasFlow}
use qubit.Core.Topology.Closed.{IsSound}
use qubit.Core.Ebpf.{Resolved, record_flow}
use qubit.Core.Ebpf.Laws.{flow_of, HasFlow-store}
use qubit.Core.Ebpf.Phases.{claimed, advance}
use qubit.Core.Dao.{NetworkClient, add_events}
use qubit.Core.Dao.Laws.{HasKey}
use qubit.Core.Flush.{row_of, snapshot, tick}
use qubit.Core.Flush.Laws.{flow_key, key_of-row_of, tick_lem, tick_stores}
use qubit.Core.Grpc.Threads.{Threads, Moves, advance-IsSound, Moves-IsSound}
use qubit.Core.Grpc.Carried.{carried, HasFlow-carried}

-- Let a thread store the edge that it has claimed, in a state with a sound topology and a usable
-- lock, and let core's threads and calls then go on in any way, interleaved at every access. The
-- flow of the event stays in the graph, under the names that its ends get from the reports of
-- pods in between. Whenever the lock is still usable and a tick of the timer reads the graph and
-- its call of the database succeeds, whatever the rows are, the table has a row with the key of
-- the flow as it is named then, and it has the row of just this flow, with its namespaces and its
-- method, if no row had the key.
pub recorded_stored :
    (lib : CacheLib) (x : State lib) (input : EbpfNetworkEventInput) (src dst : Resolved)
    → IsSound x.topology
    → x.topology_poisoned ≡ false
    → (t u : Threads lib) → t.core ≡ (advance lib x (claimed input src dst)).0
    → (run : Moves lib t u) → u.core.topology_poisoned ≡ false
    → (c : NetworkClient) (now_ns : ℕ) (db : c.Db)
    → (add_events c db (snapshot now_ns u.core.topology)).1 ≡ ok tt
    → let f = carried lib run (flow_of input src dst) in
      let db' = tick c u.core.topology_poisoned u.core.topology now_ns db in
      HasFlow u.core.topology f
      × HasKey c db' (flow_key f)
      × ((¬ HasKey c db (flow_key f)) → Memᴰ (row_of now_ns f) (c.rows db'))
unfolding advance record_flow
recorded_stored lib x input src dst sound usable t u at_t run unpoisoned c now_ns db h =
    let f = carried lib run (flow_of input src dst) in
    let stored : HasFlow (advance lib x (claimed input src dst)).0.topology
        (flow_of input src dst) =
      ground
        (arith, (HasFlow-store x.topology input src dst (flow_of input src dst)).1 (inr refl)) in
    let sound_t =
      subst (λ (y : State lib). IsSound y.topology) (sym at_t)
        (advance-IsSound lib x (claimed input src dst) sound) in
    let known =
      HasFlow-carried lib run (flow_of input src dst) sound_t
        (subst (λ (y : State lib). HasFlow y.topology (flow_of input src dst)) (sym at_t) stored) in
    let indexed = (Moves-IsSound lib sound_t run).indexed in
    rw unpoisoned (
      known,
      tick_stores c u.core.topology now_ns db indexed h f known,
      λ absent.
          let (added, grown, which) = tick_lem c u.core.topology now_ns db indexed h in
          subst (Memᴰ (row_of now_ns f)) (sym grown) (
            Memᴰ.append_right (c.rows db) (
              (which (row_of now_ns f)).1 (
                (f, known, refl),
                subst (λ k. ¬ HasKey c db k) (sym (key_of-row_of now_ns f)) absent,
              ))),
    )
