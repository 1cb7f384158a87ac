-- ===== src/Core/Topology.antt =====
-- core/src/topology/topology.rs: the in-memory service graph and the operations that change it.
-- `&mut self` methods return the new topology. The proofs are in the modules below.
pub mod Invariant
pub mod Move
pub mod Resolve
pub mod Distinct
pub mod Closed
use qubit.Base.{
  ℕ, Text, codes, text_dec, Eq, ◌==◌, contains, if◌then◌else◌, Option, none, some, List, [], ◌∷◌,
  ◌++◌, map, length, or_empty,
}
use qubit.Base.Map
use qubit.Base.Map.{Map}

pub record NodeId : Type 0 where
  pub application_name : Text
  pub namespace : Text

pub record Flow : Type 0 where
  pub source_node : NodeId
  pub destination_node : NodeId
  pub path : Text
  pub method : Text

pub record K8sEvent : Type 0 where
  pub timestamp : ℕ
  pub resource_name : Text
  pub resource_type : Text
  pub event_type : Text
  pub event_data : Text

pub record NodeData : Type 0 where
  pub ip : Text
  pub k8s_events : List K8sEvent

unfoldable pub node_dec : Discrete NodeId
node_dec = hlevel text_dec

unfoldable pub flow_dec : Discrete Flow
flow_dec = hlevel text_dec

instance abbrev pub node_eq : Eq NodeId
node_eq = record { dec = node_dec }

instance abbrev pub flow_eq : Eq Flow
flow_eq = record { dec = flow_dec }

abbrev pub FlowMap : Type 0
FlowMap = Map NodeId (List Flow)

pub record Topology : Type 0 where
  pub nodes : Map NodeId NodeData
  -- indexed by destination
  pub upstream : FlowMap
  -- indexed by source
  pub downstream : FlowMap

-- `Topology::new`
abbrev pub new : Topology
new = record { nodes = []; upstream = []; downstream = [] }

unfoldable pub add_node : Topology → NodeId → NodeData → Topology
add_node t node node_data =
    if Map.contains_key t.nodes node
    then t
    else record t { nodes = Map.insert t.nodes node node_data }

-- `if !flows.contains(&flow) { flows.push(flow) }`
unfoldable pub push_new : List Flow → Flow → List Flow
push_new flows flow = if contains flows flow then flows else flows ++ flow ∷ []

-- `m.entry(k).or_default()`, then the push
unfoldable pub push_at : FlowMap → NodeId → Flow → FlowMap
unfolding push_new
push_at m k flow = Map.insert m k (push_new (or_empty (Map.get m k)) flow)

unfoldable pub add_flow : Topology → Flow → Topology
add_flow t flow = record t {
  upstream = push_at t.upstream flow.destination_node flow;
  downstream = push_at t.downstream flow.source_node flow;
}

unfoldable pub add_k8s_event : Topology → NodeId → K8sEvent → Topology
add_k8s_event t node event = elim (Map.get t.nodes node) [
  | none ↦ t
  | some node_data ↦ record t {
    nodes =
        Map.insert t.nodes node
          (record node_data { k8s_events = node_data.k8s_events ++ event ∷ [] });
  }
]

-- The namespace of a node whose service is not known yet.
unfoldable pub unknown : Text
unknown = codes "unknown"

abbrev pub stale_id : Text → NodeId
stale_id ip = record { application_name = ip; namespace = unknown }

module _ (stale resolved : NodeId) where
  -- step 1: the data moves to the new key, unless that key is there already
  unfoldable pub move_data : Map NodeId NodeData → Map NodeId NodeData
  move_data m = elim (Map.get m stale) [
    | none ↦ m
    | some node_data ↦
        let rest = Map.remove m stale in
        if Map.contains_key rest resolved then rest else Map.insert rest resolved node_data
  ]

  -- steps 2 and 3: the flows of the old key are appended to those of the new one
  unfoldable pub move_flows : FlowMap → FlowMap
  move_flows m = elim (Map.get m stale) [
    | none ↦ m
    | some flows ↦
        let rest = Map.remove m stale in
        Map.insert rest resolved (or_empty (Map.get rest resolved) ++ flows)
  ]

  -- step 4: the references inside a flow
  unfoldable pub rename_node : NodeId → NodeId
  rename_node n = if n == stale then resolved else n

  unfoldable pub rename_flow : Flow → Flow
  unfolding rename_node
  rename_flow f = record f {
    source_node = rename_node f.source_node;
    destination_node = rename_node f.destination_node;
  }

  unfoldable pub rename_flows : FlowMap → FlowMap
  rename_flows = Map.map_values (map rename_flow)

unfoldable pub resolve_unknown_node : Topology → Text → Text → Text → Topology
resolve_unknown_node t ip application_name namespace =
    let stale = stale_id ip in
    let resolved : NodeId = record { application_name = application_name; namespace = namespace } in
    if Map.contains_key t.nodes stale
    then record {
      nodes = move_data stale resolved t.nodes;
      upstream = rename_flows stale resolved (move_flows stale resolved t.upstream);
      downstream = rename_flows stale resolved (move_flows stale resolved t.downstream);
    }
    else t

-- `self.downstream.values().map(|v| v.len()).sum()` of the `Display`
unfoldable pub edge_count : Topology → ℕ
edge_count t = Map.total length t.downstream
