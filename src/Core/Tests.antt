-- ===== src/Core/Tests.antt =====
-- Concrete graphs, states and events, on which the theorems about core/src are tried.
pub mod Graph
pub mod View
pub mod Events
pub mod Hosts
pub mod Queries
pub mod Database
pub mod Table
pub mod Timer
pub mod Races
use qubit.Base.{ℕ, Text, codes, List, [], false, refl, inl, inr}
use qubit.Core.Topology.{NodeId, NodeData, Flow, Topology, new, add_node, add_flow, stale_id}
use qubit.Core.Topology.Invariant.{HasFlow, HasFlow-add_flow}
use qubit.Core.Topology.Closed.{
  IsSound, HasNode, new-IsSound, add_node-IsSound, add_flow-IsSound, HasNode-add_node,
}

abbrev pub address : Text
address = codes "10.0.0.7"

abbrev pub prod : Text
prod = codes "prod"

abbrev pub shop : NodeId
shop = record { application_name = codes "shop"; namespace = prod }

abbrev pub stock : NodeId
stock = record { application_name = codes "stock"; namespace = prod }

abbrev pub items : Text
items = codes "/items"

abbrev pub call_of : NodeId → NodeId → Flow
call_of source target = record {
  source_node = source;
  destination_node = target;
  path = items;
  method = codes "GET";
}

abbrev pub data_of : Text → NodeData
data_of ip = record { ip = ip; k8s_events = [] }

-- Two nodes and a call between them.
abbrev pub pair : NodeId → NodeId → Topology
pair source target =
    add_flow (add_node (add_node new source (data_of (codes "10.0.0.5"))) target (data_of address))
      (call_of source target)

pub pair-IsSound : (source target : NodeId) → IsSound (pair source target)
pair-IsSound source target =
    let one = add_node new source (data_of (codes "10.0.0.5")) in
    let known = HasNode-add_node one target (data_of address) in
    add_flow-IsSound _ _
      ((known source).1
        (inl ((HasNode-add_node new source (data_of (codes "10.0.0.5")) source).1 (inr refl))))
      ((known target).1 (inr refl))
      (add_node-IsSound one _ _ (add_node-IsSound new _ _ new-IsSound))

pub pair_known : (source target : NodeId) → HasNode (pair source target) target
unfolding add_flow
pair_known source target =
    (HasNode-add_node (add_node new source (data_of (codes "10.0.0.5"))) target (data_of address)
        target).1
      (inr refl)

pub pair_calls : (source target : NodeId) → HasFlow (pair source target) (call_of source target)
pair_calls source target = (HasFlow-add_flow _ _ _).1 (inr refl)

-- The shop calls an address.
abbrev pub stale_graph : Topology
stale_graph = pair shop (stale_id address)

pub stale_graph-IsSound : IsSound stale_graph
stale_graph-IsSound = pair-IsSound shop (stale_id address)

-- It has called the stock service by its name too.
abbrev pub twin_graph : Topology
twin_graph = add_flow (add_node stale_graph stock (data_of (codes "10.0.0.9"))) (call_of shop stock)

pub twin_graph-IsSound : IsSound twin_graph
twin_graph-IsSound =
    let known = HasNode-add_node stale_graph stock (data_of (codes "10.0.0.9")) in
    add_flow-IsSound _ _
      ((known shop).1
        (inl (stale_graph-IsSound.source_known _ (pair_calls shop (stale_id address)))))
      ((known stock).1 (inr refl)) (add_node-IsSound _ _ _ stale_graph-IsSound)
