-- ===== src/Core/Subgraph/View.antt =====
-- core/src/topology/topology.rs, `get_subgraph`: which nodes and flows the filtered view shows.
use mathlib.Core.List.{foldl}
use qubit.Base.{
  ℕ, ◌≤◌, contains, true, false, Memᴰ, ◌≡◌, refl, subst, ◌↔◌, ◌⊎◌, inl, inr, arith, ◌≢◌, Bool-cases,
}
use qubit.Base.Map
use qubit.Base.Map.{get-insert}
use qubit.Core.Topology.{NodeId, Flow, FlowMap, Topology, node_eq}
use qubit.Core.Topology.Invariant.{flows_at, IsIndexed}
use qubit.Core.Subgraph.{
  Bfs, SubgraphResult, search, start, edge_eq, add_sources, root_entry, show_node, into_node,
  out_of_node, get_subgraph,
}
use qubit.Core.Subgraph.Search.{IsVisited, Walk, here, call, Reaches, IsVisited-iff_Reaches}
use qubit.Core.Subgraph.Tree.{HasEdge, bfs_edges-IsTree}
use qubit.Core.Subgraph.Visible.{add_sources_lem, mem_visible}

module _ (t : Topology) (root : NodeId) (depth : ℕ) where
  abbrev pub found : Bfs
  found = search t.downstream depth (start root)

  abbrev pub subgraph : SubgraphResult
  subgraph = get_subgraph t root.application_name root.namespace depth

  -- The root is a node of the graph.
  abbrev pub IsKnown : Type 0
  IsKnown = Map.contains_key t.nodes root ≡ true

  -- A flow of the root's upstream list comes from v.
  abbrev pub CallsRoot : NodeId → Type 0
  CallsRoot v = (f : Flow) × Memᴰ f (flows_at t.upstream root) × (f.source_node ≡ v)

  known_lem :
      IsKnown
      → (subgraph.nodes ≡ add_sources found.visited (flows_at t.upstream root))
        × (subgraph.upstream
            ≡ foldl
                (show_node root (into_node found.bfs_edges) t.upstream)
                (root_entry t.upstream root)
                found.visited)
        × (subgraph.downstream
            ≡ foldl
                (show_node root (out_of_node found.bfs_edges) t.downstream)
                (root_entry t.downstream root)
                found.visited)
  unfolding get_subgraph flows_at
  known_lem h = rw h (refl, refl, refl)

  -- If the root is a node of the graph, the nodes of the view are exactly those at most `depth`
  -- flows away from the root and the sources of the flows in the root's `upstream` list.
  pub subgraph_nodes :
      IsKnown
      → (v : NodeId)
      → (contains subgraph.nodes v ≡ true) ↔ (Reaches t.downstream root depth v ⊎ CallsRoot v)
  subgraph_nodes h v =
      let sources = add_sources_lem found.visited (flows_at t.upstream root) v in
      let reach = IsVisited-iff_Reaches t.downstream root depth v in
      rw ((known_lem h).0) (
        λ m. elim (sources.0 m) [ inl o ↦ inl (reach.0 o) | inr c ↦ inr c ],
        λ m. elim m [ inl r ↦ sources.1 (inl (reach.1 r)) | inr c ↦ sources.1 (inr c) ],
      )

  -- If the root is a node of the graph, a flow is in the `downstream` list that the view shows
  -- for a node exactly if the node is at most `depth` flows away from the root, the flow is in
  -- its `downstream` list of the graph, and the node is the root or the search recorded an edge
  -- from it to the flow's destination.
  subgraph_downstream :
      IsKnown
      → (k : NodeId) (f : Flow)
      → Memᴰ f (flows_at subgraph.downstream k) ↔ (
          Reaches t.downstream root depth k
          × Memᴰ f (flows_at t.downstream k)
          × ((k ≡ root) ⊎ HasEdge found k f.destination_node))
  unfolding out_of_node
  subgraph_downstream h k f =
      let reach = IsVisited-iff_Reaches t.downstream root depth k in
      let tree = bfs_edges-IsTree t.downstream root depth in
      let visible =
        mem_visible root (out_of_node found.bfs_edges) t.downstream found.visited k f tree.rooted in
      rw ((known_lem h).2) (
        λ m. let (v, old, e) = visible.0 m in (reach.0 v, old, e),
        λ (r, old, e). visible.1 (reach.1 r, old, e),
      )

  -- If the root is a node of the graph, a flow is in the `upstream` list that the view shows for
  -- a node exactly if the node is at most `depth` flows away from the root, the flow is in its
  -- `upstream` list of the graph, and the node is the root or the search recorded an edge from
  -- the flow's source to it.
  subgraph_upstream :
      IsKnown
      → (k : NodeId) (f : Flow)
      → Memᴰ f (flows_at subgraph.upstream k) ↔ (
          Reaches t.downstream root depth k
          × Memᴰ f (flows_at t.upstream k)
          × ((k ≡ root) ⊎ HasEdge found f.source_node k))
  unfolding into_node
  subgraph_upstream h k f =
      let reach = IsVisited-iff_Reaches t.downstream root depth k in
      let tree = bfs_edges-IsTree t.downstream root depth in
      let visible =
        mem_visible root (into_node found.bfs_edges) t.upstream found.visited k f tree.rooted in
      rw ((known_lem h).1) (
        λ m. let (v, old, e) = visible.0 m in (reach.0 v, old, e),
        λ (r, old, e). visible.1 (reach.1 r, old, e),
      )

  -- If the root is a node of the graph, a flow is in the `downstream` list that the view shows
  -- for a node exactly if the node is at most `depth` flows away from the root, the flow is in
  -- its `downstream` list of the graph, and the node is the root or the search recorded an edge
  -- from it to the flow's destination; and so for the `upstream` lists, with an edge from the
  -- flow's source to the node.
  pub subgraph_flows :
      IsKnown
      → (k : NodeId) (f : Flow)
      → (Memᴰ f (flows_at subgraph.downstream k) ↔ (
          Reaches t.downstream root depth k
          × Memᴰ f (flows_at t.downstream k)
          × ((k ≡ root) ⊎ HasEdge found k f.destination_node)))
        × (Memᴰ f (flows_at subgraph.upstream k) ↔ (
            Reaches t.downstream root depth k
            × Memᴰ f (flows_at t.upstream k)
            × ((k ≡ root) ⊎ HasEdge found f.source_node k)))
  subgraph_flows h k f = (subgraph_downstream h k f, subgraph_upstream h k f)

  abbrev IsShown : NodeId → Type 0
  IsShown v = contains subgraph.nodes v ≡ true

  visited-IsShown : IsKnown → (v : NodeId) → IsVisited found v → IsShown v
  visited-IsShown h v m =
      (subgraph_nodes h v).1 (inl ((IsVisited-iff_Reaches t.downstream root depth v).0 m))

  -- If the root is a node of the graph, the depth is at least one and the two indexes of the
  -- graph agree, then both ends of every flow that the view shows are nodes of the view.
  subgraph_closed :
      IsKnown
      → 1 ≤ depth
      → IsIndexed t
      → (k : NodeId) (f : Flow)
      → (Memᴰ f (flows_at subgraph.downstream k) ⊎ Memᴰ f (flows_at subgraph.upstream k))
      → IsShown f.source_node × IsShown f.destination_node
  subgraph_closed h deep i k f (inl m) =
      let (r, old, e) = (subgraph_downstream h k f).0 m in
      let source = i.by_source k f old in
      let tree = bfs_edges-IsTree t.downstream root depth in
      (
        rw source ((subgraph_nodes h k).1 (inl r)),
        elim e [
          | inl at_root ↦ (subgraph_nodes h f.destination_node).1 (
              inl (
                1,
                deep,
                call here (f, subst (λ x. Memᴰ f (flows_at t.downstream x)) at_root old, refl),
              ))
          | inr edge ↦ visited-IsShown h _ ((tree.child k f.destination_node edge).0)
        ],
      )
  subgraph_closed h deep i k f (inr m) =
      let (r, old, e) = (subgraph_upstream h k f).0 m in
      let target = i.by_destination k f old in
      let tree = bfs_edges-IsTree t.downstream root depth in
      (
        elim e [
          | inl at_root ↦
              (subgraph_nodes h f.source_node).1
                (inr (f, subst (λ x. Memᴰ f (flows_at t.upstream x)) at_root old, refl))
          | inr edge ↦ visited-IsShown h _ (tree.parent f.source_node k edge)
        ],
        rw target ((subgraph_nodes h k).1 (inl r)),
      )

Walk-zero : (t : FlowMap) (root v : NodeId) (n : ℕ) → n ≤ 0 → Walk t root n v → v ≡ root
Walk-zero t root v n h here = refl
Walk-zero t root v n h (call w c) = absurd (omega arith)

-- With depth zero, a flow from the root, which is a node of the graph, to another node that does
-- not call the root is shown by the view, and its destination is not among the nodes of the view.
depth_zero_dangles :
    (t : Topology) (root : NodeId) (f : Flow)
    → IsKnown t root 0
    → Memᴰ f (flows_at t.downstream root)
    → f.destination_node ≢ root
    → ¬ CallsRoot t root 0 f.destination_node
    → Memᴰ f (flows_at (subgraph t root 0).downstream root)
      × (contains (subgraph t root 0).nodes f.destination_node ≡ false)
depth_zero_dangles t root f h mem other silent = (
  (subgraph_downstream t root 0 h root f).1 ((0, omega arith, here), mem, inl refl),
  elim (Bool-cases (contains (subgraph t root 0).nodes f.destination_node)) [
    | inl m ↦ elim ((subgraph_nodes t root 0 h f.destination_node).0 m) [
      | inl (n, le, w) ↦ absurd (other (Walk-zero t.downstream root _ n le w))
      | inr c ↦ absurd (silent c)
    ]
    | inr absent ↦ absent
  ],
)
