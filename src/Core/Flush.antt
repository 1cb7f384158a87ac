-- ===== src/Core/Flush.antt =====
-- core/src/aggregator/ebpf_aggregator.rs, `start_flush_timer`: one tick of the timer, which hands the
-- flows of the graph to the database. A tick whose snapshot fails is skipped.
pub mod Laws
pub mod Recorded
pub mod Timer
use qubit.Base.{ℕ, zero, Text, codes, is_empty, if◌then◌else◌, Bool, List, [], ◌∷◌, ◌++◌, map}
use qubit.Base.Map
use qubit.Core.Topology.{NodeId, Flow, FlowMap, Topology}
use qubit.Core.Dao.Rows.{EbpfNetworkEvent}
use qubit.Core.Dao.{NetworkClient, add_events}

unfoldable pub row_of : ℕ → Flow → EbpfNetworkEvent
row_of now_ns flow = record {
  timestamp_ns = now_ns;
  src_service = flow.source_node.application_name;
  src_namespace = flow.source_node.namespace;
  src_application = flow.source_node.application_name;
  dst_service = flow.destination_node.application_name;
  dst_namespace = flow.destination_node.namespace;
  dst_application = flow.destination_node.application_name;
  src_port = 0;
  dst_port = 0;
  method = flow.method;
  path = flow.path;
  host = flow.destination_node.application_name;
}

-- `downstream.values().flatten()`
unfoldable pub all_flows : FlowMap → List Flow
all_flows [] = []
all_flows ((k, flows) ∷ m) = flows ++ all_flows m

unfoldable pub snapshot : ℕ → Topology → List EbpfNetworkEvent
snapshot now_ns t = map (row_of now_ns) (all_flows t.downstream)

-- An error of the database is logged and dropped.
unfoldable pub tick : (c : NetworkClient) → Bool → Topology → ℕ → c.Db → c.Db
tick c poisoned t now_ns db =
    let events = snapshot now_ns t in
    if poisoned then db else if is_empty events then db else (add_events c db events).0
