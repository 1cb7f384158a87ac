-- ===== src/Core/Query.antt =====
-- core/src/server/query.rs and core/src/server/handler.rs: the graph as the answers show it. The
-- iteration order of a hash map is the order of its entries, and `collect` into a map inserts them
-- one by one.
pub mod Laws
use qubit.Base.{
  ℕ, min, Text, text_eq, codes, if◌then◌else◌, Bool, true, false, Option, none, some, List, [], ◌∷◌,
  ◌++◌, map,
}
use qubit.Base.Map
use qubit.Base.Map.{Map}
use qubit.Core.Topology.{NodeId, NodeData, Flow, FlowMap, Topology, node_eq}
use qubit.Core.Subgraph.{get_subgraph}

-- "{namespace}/{application_name}"
unfoldable pub node_key : NodeId → Text
node_key n = n.namespace ++ (47 ∷ n.application_name)

-- `.map(|(id, value)| (key, view)).collect()`
unfoldable pub collect : {V W : Type 0} → (NodeId → V → W) → Map Text W → Map NodeId V → Map Text W
collect view answer [] = answer
collect view answer ((n, v) ∷ m) = collect view (Map.insert answer (node_key n) (view n v)) m

-- `TopologyNode` of the gRPC answer, `NodeDto` of the HTTP one
pub record TopologyNode : Type 0 where
  pub application_name : Text
  pub namespace : Text
  pub ip : Text

pub record TopologyEdge : Type 0 where
  pub source_application : Text
  pub source_namespace : Text
  pub destination_application : Text
  pub destination_namespace : Text
  pub method : Text
  pub path : Text

pub record FlowDto : Type 0 where
  pub source_application : Text
  pub destination_application : Text
  pub method : Text
  pub path : Text

-- `GetTopologyResponse` with its edges, `TopologyResponse` with its flows
pub record TopologyResponse (F : Type 0) : Type 0 where
  pub nodes : Map Text TopologyNode
  pub upstream : Map Text (List F)
  pub downstream : Map Text (List F)

unfoldable pub node_view : NodeId → NodeData → TopologyNode
node_view n d = record { application_name = n.application_name; namespace = n.namespace; ip = d.ip }

unfoldable pub to_edge : Flow → TopologyEdge
to_edge flow = record {
  source_application = flow.source_node.application_name;
  source_namespace = flow.source_node.namespace;
  destination_application = flow.destination_node.application_name;
  destination_namespace = flow.destination_node.namespace;
  method = flow.method;
  path = flow.path;
}

unfoldable pub to_dto : Flow → FlowDto
to_dto flow = record {
  source_application = flow.source_node.application_name;
  destination_application = flow.destination_node.application_name;
  method = flow.method;
  path = flow.path;
}

unfoldable pub answer_of : {F : Type 0} → (Flow → F) → Topology → TopologyResponse F
answer_of view t = record {
  nodes = collect node_view [] t.nodes;
  upstream = collect (λ n flows. map view flows) [] t.upstream;
  downstream = collect (λ n flows. map view flows) [] t.downstream;
}

-- A poisoned lock makes the gRPC query answer with an error, and the HTTP handlers panic.
pub data QueryReply (F : Type 0) : Type 0 where
  response : TopologyResponse F → QueryReply F
  internal : QueryReply F
  panicked : QueryReply F

unfoldable pub get_topology : Bool → Topology → QueryReply TopologyEdge
get_topology poisoned t = if poisoned then internal else response (answer_of to_edge t)

unfoldable pub topology : Bool → Topology → QueryReply FlowDto
topology poisoned t = if poisoned then panicked else response (answer_of to_dto t)

-- the `filter_map` over the nodes of the view
unfoldable pub collect_nodes :
    Map NodeId NodeData → Map Text TopologyNode → List NodeId → Map Text TopologyNode
collect_nodes known answer [] = answer
collect_nodes known answer (n ∷ ns) = elim (Map.get known n) [
  | none ↦ collect_nodes known answer ns
  | some d ↦ collect_nodes known (Map.insert answer (node_key n) (node_view n d)) ns
]

-- `unwrap_or`
unfoldable pub unwrap_or : Option ℕ → ℕ → ℕ
unwrap_or none default = default
unwrap_or (some n) default = n

unfoldable pub topology_subgraph : Bool → Topology → Text → Text → Option ℕ → QueryReply FlowDto
topology_subgraph poisoned t service namespace depth =
    let sg = get_subgraph t service namespace (unwrap_or depth 1) in
    if poisoned
    then panicked
    else response (record {
      nodes = collect_nodes t.nodes [] sg.nodes;
      upstream = collect (λ n flows. map to_dto flows) [] sg.upstream;
      downstream = collect (λ n flows. map to_dto flows) [] sg.downstream;
    })
