-- ===== src/Core/Tests/Timer.antt =====
-- Tests of the flush timer next to core's threads.
use qubit.Base.{List, [], none, some, ◌≡◌, refl, ap, true}
use qubit.Core.Cache.{map_cache}
use qubit.Core.State.{init}
use qubit.Core.Dao.Rows.{EbpfNetworkEvent}
use qubit.Core.Dao.{add_events}
use qubit.Core.Flush.{snapshot}
use qubit.Core.Flush.Timer.{
  Timer, batch_of, Ticks, stay, more, go_on, read, write, IsObserved, Ticks-IsObserved,
}
use qubit.Core.Grpc.Threads.{panic_topology}
use qubit.Core.Tests.{stale_graph, stale_graph-IsSound}
use qubit.Core.Tests.Database.{rows_client}

abbrev at_first : Timer map_cache rows_client
at_first = record {
  core = record {
    core = record (init map_cache) { topology = stale_graph };
    running = [];
    calls = [];
  };
  db = [];
  batch = none;
}

abbrev events : List EbpfNetworkEvent
events = snapshot 7 stale_graph

abbrev holding : Timer map_cache rows_client
holding = record at_first { batch = batch_of events }

-- The lock is poisoned between the read and the write.
abbrev poisoned : Timer map_cache rows_client
poisoned = record holding {
  core = record holding.core { core = record holding.core.core { topology_poisoned = true } };
}

abbrev written : Timer map_cache rows_client
written = record poisoned { db = (add_events rows_client [] events).0; batch = none }

pending : batch_of events ≡ some events
unfolding batch_of snapshot qubit.Core.Flush.all_flows qubit.Core.Topology.add_flow
    qubit.Core.Topology.push_at qubit.Base.Map.insert qubit.Core.Topology.add_node
    qubit.Base.Map.contains_key qubit.Base.Map.get qubit.Core.Topology.node_dec qubit.Base.text_dec
    native.Mathlib.Decide.ℕ_discrete qubit.Base.contains
pending = refl

runs : Ticks map_cache rows_client at_first written
runs =
    more
      (more (more stay (read at_first 7 refl refl))
        (go_on holding poisoned.core (panic_topology holding.core)))
      (write poisoned events pending)

Ticks-IsObserved_example : IsObserved map_cache rows_client at_first written
Ticks-IsObserved_example = Ticks-IsObserved map_cache rows_client runs stale_graph-IsSound refl
