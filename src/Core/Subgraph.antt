-- ===== src/Core/Subgraph.antt =====
-- core/src/topology/topology.rs, `get_subgraph`: the breadth-first search from a root, and the
-- edges that the filtered view shows. Sets are lists of their elements.
pub mod Search
pub mod Tree
pub mod Visible
pub mod View
use mathlib.Core.List.{foldl, filter}
use qubit.Base.{
  ℕ, zero, suc, Text, Eq, ◌==◌, contains, set_insert, if◌then◌else◌, none, some, List, [], ◌∷◌,
  ◌++◌, map, or_empty, is_empty, Bool, false,
}
use qubit.Base.Map
use qubit.Base.Map.{Map}
use qubit.Core.Topology.{NodeId, Flow, FlowMap, Topology, node_dec, node_eq}

pub record SubgraphResult : Type 0 where
  pub nodes : List NodeId
  pub upstream : FlowMap
  pub downstream : FlowMap

abbrev pub Edge : Type 0
Edge = NodeId × NodeId

unfoldable pub edge_dec : Discrete Edge
edge_dec = hlevel node_dec

instance abbrev pub edge_eq : Eq Edge
edge_eq = record { dec = edge_dec }

-- The sets of the search, and the vector `next` that the running level fills.
pub record Bfs : Type 0 where
  pub visited : List NodeId
  pub bfs_edges : List Edge
  pub next : List NodeId

-- the body of `for flow in flows`
unfoldable pub visit : NodeId → Bfs → Flow → Bfs
visit node b flow =
    let dst = flow.destination_node in
    if contains b.visited dst then b else record {
      visited = (set_insert b.visited dst).0;
      bfs_edges = (set_insert b.bfs_edges (node, dst)).0;
      next = b.next ++ dst ∷ [];
    }

module _ (downstream : FlowMap) where
  -- the body of `for node in &frontier`
  unfoldable pub scan : Bfs → NodeId → Bfs
  scan b node = elim (Map.get downstream node) [
    | none ↦ b
    | some flows ↦ foldl (visit node) b flows
  ]

  unfoldable pub level : Bfs → Bfs
  level b = foldl scan (record b { next = [] }) b.next

  -- `for _ in 0..depth`, which stops at an empty frontier; `next` is the frontier
  unfoldable pub search : ℕ → Bfs → Bfs
  search zero b = b
  search (suc depth) b = elim b.next [ [] ↦ b | _ ∷ _ ↦ search depth (level b) ]

abbrev pub start : NodeId → Bfs
start root = record { visited = root ∷ []; bfs_edges = []; next = root ∷ [] }

unfoldable pub add_sources : List NodeId → List Flow → List NodeId
add_sources nodes inflows = foldl (λ s f. (set_insert s f.source_node).0) nodes inflows

-- `if let Some(flows) = m.get(&root) { vis.insert(root, flows.clone()) }`
unfoldable pub root_entry : FlowMap → NodeId → FlowMap
root_entry m root = elim (Map.get m root) [ none ↦ [] | some flows ↦ Map.insert [] root flows ]

unfoldable pub keep : (Flow → Bool) → List Flow → List Flow
keep p [] = []
keep p (f ∷ fs) = let rest = keep p fs in if p f then f ∷ rest else rest

-- one round of `for node in &visited`, for one of the maps
unfoldable pub show_node : NodeId → (NodeId → Flow → Bool) → FlowMap → FlowMap → NodeId → FlowMap
show_node root is_tree m vis node =
    if node == root
    then vis
    else (let shown = keep (is_tree node) (or_empty (Map.get m node)) in
        if is_empty shown then vis else Map.insert vis node shown)

unfoldable pub into_node : List Edge → NodeId → Flow → Bool
into_node edges node f = contains edges (f.source_node, node)

unfoldable pub out_of_node : List Edge → NodeId → Flow → Bool
out_of_node edges node f = contains edges (node, f.destination_node)

unfoldable pub get_subgraph : Topology → Text → Text → ℕ → SubgraphResult
get_subgraph t root_app root_ns depth =
    let root : NodeId = record { application_name = root_app; namespace = root_ns } in
    let b = search t.downstream depth (start root) in
    if Map.contains_key t.nodes root
    then record {
      nodes = add_sources b.visited (or_empty (Map.get t.upstream root));
      upstream =
          foldl (show_node root (into_node b.bfs_edges) t.upstream) (root_entry t.upstream root)
            b.visited;
      downstream =
          foldl (show_node root (out_of_node b.bfs_edges) t.downstream)
            (root_entry t.downstream root) b.visited;
    }
    else record { nodes = []; upstream = []; downstream = [] }
