-- ===== src/Core/Flush/Timer.antt =====
-- core/src/aggregator/ebpf_aggregator.rs, `start_flush_timer`: the timer's task next to core's threads. A
-- tick reads the graph under the lock and writes to the database later, when the threads have gone on.
use qubit.Base.{
  ℕ, false, is_empty, if◌then◌else◌, Option, none, some, List, Memᴰ, ◌≡◌, ◌⊎◌, inl, inr, sym, subst,
  arith,
}
use qubit.Core.Cache.{CacheLib}
use qubit.Core.Topology.{Flow}
use qubit.Core.Topology.Invariant.{HasFlow}
use qubit.Core.Topology.Closed.{IsSound}
use qubit.Core.Dao.Rows.{EbpfNetworkEvent}
use qubit.Core.Dao.{NetworkClient, add_events}
use qubit.Core.Dao.Kept.{add_events-AreKept}
use qubit.Core.Flush.{row_of, snapshot}
use qubit.Core.Flush.Laws.{snapshot_iff}
use qubit.Core.Grpc.Threads as Threads
use qubit.Core.Grpc.Threads.{Move, Moves, Moves-IsSound}

-- The batch that a tick has in hand; a tick without flows has none.
unfoldable pub batch_of : List EbpfNetworkEvent → Option (List EbpfNetworkEvent)
batch_of events = if is_empty events then none else some events

module _ (lib : CacheLib) (c : NetworkClient) where
  pub record Timer : Type 0 where
    pub core : Threads.Threads lib
    pub db : c.Db
    pub batch : Option (List EbpfNetworkEvent)

  pub data Tick : Timer → Timer → Type 0 where
    go_on :
        (s : Timer) (core' : Threads.Threads lib)
        → Move lib s.core core'
        → Tick s (record s { core = core' })
    read :
        (s : Timer) (now_ns : ℕ)
        → s.batch ≡ none
        → s.core.core.topology_poisoned ≡ false
        → Tick s (record s { batch = batch_of (snapshot now_ns s.core.core.topology) })
    -- An error is logged and dropped.
    write :
        (s : Timer) (events : List EbpfNetworkEvent)
        → s.batch ≡ some events
        → Tick s (record s { db = (add_events c s.db events).0; batch = none })

  pub data Ticks (s : Timer) : Timer → Type 0 where
    stay : Ticks s s
    more : {t u : Timer} → Ticks s t → Tick t u → Ticks s u

  -- At some time on the way a flow of the graph had this row.
  pub record WasSeen (s u : Timer) (r : EbpfNetworkEvent) : Type 0 where
    pub at_read : Timer
    pub until : Ticks s at_read
    pub since : Ticks at_read u
    pub now_ns : ℕ
    pub flow : Flow
    pub known : HasFlow at_read.core.core.topology flow
    pub row : row_of now_ns flow ≡ r

  later : {s t u : Timer} {r : EbpfNetworkEvent} → Tick t u → WasSeen s t r → WasSeen s u r
  later tk w = record {
    at_read = w.at_read;
    until = w.until;
    since = more w.since tk;
    now_ns = w.now_ns;
    flow = w.flow;
    known = w.known;
    row = w.row;
  }

  -- What core's threads do in a run.
  Ticks-Moves : {s u : Timer} → Ticks s u → Moves lib s.core u.core
  Ticks-Moves stay = Threads.stay
  Ticks-Moves (more r (go_on t core' mv)) = Threads.more (Ticks-Moves r) mv
  Ticks-Moves (more r (read t now_ns idle usable)) = Ticks-Moves r
  Ticks-Moves (more r (write t events pending)) = Ticks-Moves r

  pub record IsObserved (s u : Timer) : Type 0 where
    pub stored :
        (r : EbpfNetworkEvent) → Memᴰ r (c.rows u.db) → Memᴰ r (c.rows s.db) ⊎ WasSeen s u r
    pub in_hand :
        (events : List EbpfNetworkEvent)
        → u.batch ≡ some events
        → (r : EbpfNetworkEvent) → Memᴰ r events
        → WasSeen s u r

  batch_of-some :
      (events found : List EbpfNetworkEvent) → batch_of events ≡ some found → events ≡ found
  unfolding batch_of
  batch_of-some events found e = ground arith

  -- What the timer had is as it was, one step later.
  wait :
      {s t u : Timer} (tk : Tick t u)
      → IsObserved s t
      → (r : EbpfNetworkEvent) → Memᴰ r (c.rows t.db)
      → Memᴰ r (c.rows s.db) ⊎ WasSeen s u r
  wait tk o r at_r = elim (o.stored r at_r) [ inl old ↦ inl old | inr seen ↦ inr (later tk seen) ]

  Tick-IsObserved :
      {s t u : Timer} (run : Ticks s t) (tk : Tick t u)
      → IsSound s.core.core.topology
      → IsObserved s t
      → IsObserved s u
  Tick-IsObserved run (go_on t core' mv) sound o = record {
    stored = wait (go_on t core' mv) o;
    in_hand = λ events pending r at_r. later (go_on t core' mv) (o.in_hand events pending r at_r);
  }
  Tick-IsObserved run (read t now_ns idle usable) sound o = record {
    stored = wait (read t now_ns idle usable) o;
    in_hand = λ events pending r at_r.
        let taken = batch_of-some (snapshot now_ns t.core.core.topology) events pending in
        let indexed = (Moves-IsSound lib sound (Ticks-Moves run)).indexed in
        let (f, known, row) =
          (snapshot_iff now_ns t.core.core.topology r indexed).0
            (subst (Memᴰ r) (sym taken) at_r) in
        record {
          at_read = t;
          until = run;
          since = more stay (read t now_ns idle usable);
          now_ns = now_ns;
          flow = f;
          known = known;
          row = row;
        };
  }
  Tick-IsObserved run (write t events pending) sound o = record {
    stored = λ r at_r.
        let tk = write t events pending in
        elim (add_events-AreKept c t.db events r at_r) [
          | inl old ↦ wait tk o r old
          | inr new ↦ inr (later tk (o.in_hand events pending r new))
        ];
    in_hand = λ found none_left. absurd (ground arith);
  }

  -- Let core's threads and the timer's task run interleaved, where a tick reads the graph under
  -- the lock and writes the rows later, with or without success. If the graph is sound and the
  -- timer has no batch in hand at first, then at every time each row of the table was there at
  -- first or is the row of a flow that the graph had at some time of a run that leads here, and
  -- so is each row of the batch in hand.
  pub Ticks-IsObserved :
      {s u : Timer} (run : Ticks s u)
      → IsSound s.core.core.topology
      → s.batch ≡ none
      → IsObserved s u
  Ticks-IsObserved stay sound idle = record {
    stored = λ r at_r. inl at_r;
    in_hand = λ events pending. absurd (ground arith);
  }
  Ticks-IsObserved (more r tk) sound idle =
      Tick-IsObserved r tk sound (Ticks-IsObserved r sound idle)
