-- ===== src/McpServer/Answers.antt =====
-- mcp-server/src/tools.rs: the texts that the tools answer about the graph. The queries' results and the sorting of
-- the standard library are arguments: a query answers a result or fails with a message.
pub mod Laws
pub mod Graph
use qubit.Base.{
  ℕ, Text, text_dec, text_eq, codes, concat, join, show_nat, length, is_empty, ◌==◌, ◌&&◌, not,
  if◌then◌else◌, flat_map, Option, none, some, List, [], ◌∷◌, ◌++◌, map,
}
use qubit.Base.Map
use qubit.Base.Map.{Map}
use qubit.Core.Query.{TopologyNode, TopologyEdge, TopologyResponse, unwrap_or}
use qubit.McpServer.Sql.{k8s_query, network_query}

pub data Queried (A : Type 0) : Type 0 where
  found : A → Queried A
  error : Text → Queried A

-- The arrows and the dash of the texts are no ASCII characters.
abbrev pub left_arrow : Text
left_arrow = 226 ∷ 134 ∷ 144 ∷ []

abbrev pub right_arrow : Text
right_arrow = 226 ∷ 134 ∷ 146 ∷ []

abbrev pub long_dash : Text
long_dash = 226 ∷ 128 ∷ 148 ∷ []

abbrev pub newline : Text
newline = 10 ∷ []

unfoldable pub keys : {V : Type 0} → Map Text V → List Text
keys [] = []
keys ((k, v) ∷ m) = k ∷ keys m

unfoldable pub topology_edge : TopologyEdge → Text
topology_edge edge = concat (
    codes "    "
    ∷ right_arrow
    ∷ codes " "
    ∷ edge.method
    ∷ codes " "
    ∷ edge.path
    ∷ codes " "
    ∷ right_arrow
    ∷ codes " "
    ∷ edge.destination_namespace
    ∷ codes "/"
    ∷ edge.destination_application
    ∷ newline
    ∷ [])

-- the lines of one key; `topo.nodes[key]` is there for a key of the map
unfoldable pub topology_node : TopologyResponse TopologyEdge → Text → Text
topology_node topo key = elim (Map.get topo.nodes key) [
  | none ↦ []
  | some node ↦
      let edges : Text = elim (Map.get topo.downstream key) [
        | none ↦ []
        | some flows ↦ flat_map topology_edge flows
      ] in
      let address : Text =
        if is_empty node.ip then [] else codes "  (ip: " ++ (node.ip ++ codes ")") in
      concat (
        newline
        ∷ codes "  "
        ∷ node.namespace
        ∷ codes "/"
        ∷ node.application_name
        ∷ address
        ∷ newline
        ∷ edges
        ∷ [])
]

unfoldable pub get_topology :
    (List Text → List Text) → Queried (TopologyResponse TopologyEdge) → Text
get_topology sort (error e) = codes "Error fetching topology: " ++ e
get_topology sort (found topo) =
    if is_empty topo.nodes
    then codes "No services discovered yet. The cluster may not have traffic flowing."
    else concat (
        codes "Service Topology ("
        ∷ show_nat (length topo.nodes)
        ∷ codes " services):"
        ∷ newline
        ∷ flat_map (topology_node topo) (sort (keys topo.nodes))
        ∷ [])

unfoldable pub caller_line : TopologyEdge → Text
caller_line edge = concat (
    codes "    "
    ∷ left_arrow
    ∷ codes " "
    ∷ edge.source_namespace
    ∷ codes "/"
    ∷ edge.source_application
    ∷ codes " ("
    ∷ edge.method
    ∷ codes " "
    ∷ edge.path
    ∷ codes ")"
    ∷ newline
    ∷ [])

unfoldable pub callee_line : TopologyEdge → Text
callee_line edge = concat (
    codes "    "
    ∷ right_arrow
    ∷ codes " "
    ∷ edge.destination_namespace
    ∷ codes "/"
    ∷ edge.destination_application
    ∷ codes " ("
    ∷ edge.method
    ∷ codes " "
    ∷ edge.path
    ∷ codes ")"
    ∷ newline
    ∷ [])

-- `Some(flow_list) if !flow_list.flows.is_empty()`
unfoldable pub lines : (TopologyEdge → Text) → Option (List TopologyEdge) → Text
lines line none = codes "    (none)" ++ newline
lines line (some flows) =
    if is_empty flows then codes "    (none)" ++ newline else flat_map line flows

unfoldable pub dependency_key : Text → Text → Text
dependency_key namespace service = concat (namespace ∷ codes "/" ∷ service ∷ [])

unfoldable pub get_service_dependencies :
    Queried (TopologyResponse TopologyEdge) → Text → Text → Text
get_service_dependencies (error e) service namespace = codes "Error fetching topology: " ++ e
get_service_dependencies (found topo) service namespace =
    let key = dependency_key namespace service in
    if not (Map.contains_key topo.nodes key)
    then concat (
        codes "Service '"
        ∷ key
        ∷ codes "' not found in topology. Known services: "
        ∷ join (codes ", ") (keys topo.nodes)
        ∷ [])
    else concat (
        codes "Dependencies for "
        ∷ key
        ∷ codes ":"
        ∷ newline
        ∷ newline
        ∷ codes "  Upstream (callers):"
        ∷ newline
        ∷ lines caller_line (Map.get topo.upstream key)
        ∷ newline
        ∷ codes "  Downstream (dependencies):"
        ∷ newline
        ∷ lines callee_line (Map.get topo.downstream key)
        ∷ [])
