-- ===== src/Core/Tests/Graph.antt =====
-- Tests of core/src/topology/topology.rs.
use qubit.Base.{
  codes, ◌==◌, ◌&&◌, not, if◌then◌else◌, none, ◌≡◌, ◌≢◌, ap, sym, subst, ◌∙◌, ◌↔◌, refl, arith, inl,
  inr,
}
use qubit.Base.Map
use qubit.Core.Topology.{
  NodeId, Flow, node_eq, add_node, add_flow, rename_node, stale_id, rename_flow,
  resolve_unknown_node,
}
use qubit.Core.Topology.Invariant.{flows_at, HasFlow, HasFlow-add_flow}
use qubit.Core.Topology.Resolve.{resolved_id, IsStale, renamed, after, HasFlow-resolve, get-resolve}
use qubit.Core.Topology.Closed.{HasNode, HasNode-add_node, resolve_forgets}
use qubit.Core.Topology.Distinct.{IsDistinct, resolve_duplicates}
use qubit.Core.Tests.{
  twin_graph-IsSound, pair_known, pair_calls, address, prod, shop, stock, call_of, data_of,
  stale_graph, stale_graph-IsSound, twin_graph,
}

abbrev stale : IsStale stale_graph address (codes "stock") prod
stale = pair_known shop (stale_id address)

-- The address is no name of a service.
apart : stale_id address ≢ resolved_id stale_graph address (codes "stock") prod
apart e = cc (ap (λ (n : NodeId). n.application_name) e)

HasFlow-resolve_example :
    HasFlow (after stale_graph address (codes "stock") prod) (call_of shop stock) ↔ (
      (g : Flow) × HasFlow stale_graph g
      × (renamed stale_graph address (codes "stock") prod g ≡ call_of shop stock))
HasFlow-resolve_example =
    HasFlow-resolve stale_graph address (codes "stock") prod stale stale_graph-IsSound.indexed
      (call_of shop stock)

get-resolve_example : Map.get (after stale_graph address (codes "stock") prod).nodes stock ≡ (
    if stock == stale_id address
    then none
    else if stock == stock && not (Map.contains_key stale_graph.nodes stock)
    then Map.get stale_graph.nodes (stale_id address)
    else Map.get stale_graph.nodes stock)
get-resolve_example = get-resolve stale_graph address (codes "stock") prod stale apart stock

resolve_forgets_example :
    let u = resolve_unknown_node stale_graph address (codes "stock") prod in
    (¬ HasNode u (stale_id address))
    × ((f : Flow)
        → HasFlow u f
        → (f.source_node ≢ stale_id address) × (f.destination_node ≢ stale_id address))
resolve_forgets_example =
    resolve_forgets stale_graph address (codes "stock") prod stale_graph-IsSound apart

-- Both calls are in the graph: the one to the address, and the one that it turns into.
twin_stale : IsStale twin_graph address (codes "stock") prod
unfolding add_flow
twin_stale =
    (HasNode-add_node stale_graph stock (data_of (codes "10.0.0.9")) (stale_id address)).1
      (inl stale)

old_call : HasFlow twin_graph (call_of shop (stale_id address))
unfolding add_node
old_call = (HasFlow-add_flow _ _ _).1 (inl (ground (arith, pair_calls shop (stale_id address))))

renamed_call :
    renamed twin_graph address (codes "stock") prod (call_of shop (stale_id address))
    ≡ call_of shop stock
unfolding rename_flow rename_node
renamed_call = ground (arith, apart)

differ :
    call_of shop (stale_id address)
    ≢ renamed twin_graph address (codes "stock") prod (call_of shop (stale_id address))
differ e = apart (ap (λ (f : Flow). f.destination_node) (e ∙ renamed_call))

twin :
    HasFlow twin_graph
      (renamed twin_graph address (codes "stock") prod (call_of shop (stale_id address)))
twin = subst (HasFlow twin_graph) (sym renamed_call) ((HasFlow-add_flow _ _ _).1 (inr refl))

resolve_duplicates_example : ¬ IsDistinct (
    flows_at
      (resolve_unknown_node twin_graph address (codes "stock") prod).downstream
      (renamed twin_graph address
        (codes "stock")
        prod
        (call_of shop (stale_id address))).source_node)
resolve_duplicates_example =
    resolve_duplicates twin_graph address (codes "stock") prod (call_of shop (stale_id address))
      twin_stale twin_graph-IsSound.indexed old_call twin differ
