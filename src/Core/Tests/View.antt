-- ===== src/Core/Tests/View.antt =====
-- Tests of `get_subgraph` in core/src/topology/topology.rs.
use mathlib.Core.List.Memᴰ
use qubit.Base.{text_dec, contains, true, Memᴰ, ◌≡◌, ◌≢◌, ◌↔◌, ◌⊎◌, refl, inl, arith, ap}
use qubit.Base.Map
use qubit.Core.Topology.{NodeId, node_eq, node_dec, add_flow, add_node, push_at}
use qubit.Core.Topology.Invariant.{flows_at}
use qubit.Core.Subgraph.{search, start}
use qubit.Core.Subgraph.Search.{here, IsVisited, Reaches, IsVisited-iff_Reaches}
use qubit.Core.Subgraph.Tree.{HasEdge}
use qubit.Core.Subgraph.View.{subgraph, found, IsKnown, CallsRoot, subgraph_nodes, subgraph_flows}
use qubit.Core.Tests.{shop, stock, call_of, pair, pair-IsSound, pair_calls}

IsVisited-iff_Reaches_example :
    IsVisited (search (pair shop stock).downstream 2 (start shop)) stock
    ↔ Reaches (pair shop stock).downstream shop 2 stock
IsVisited-iff_Reaches_example = IsVisited-iff_Reaches (pair shop stock).downstream shop 2 stock

known : IsKnown (pair shop stock) shop 2
known = (pair-IsSound shop stock).source_known _ (pair_calls shop stock)

subgraph_nodes_example :
    (contains (subgraph (pair shop stock) shop 2).nodes stock ≡ true)
    ↔ (Reaches (pair shop stock).downstream shop 2 stock ⊎ CallsRoot (pair shop stock) shop 2 stock)
subgraph_nodes_example = subgraph_nodes (pair shop stock) shop 2 known stock

subgraph_flows_example :
    (Memᴰ (call_of shop stock) (flows_at (subgraph (pair shop stock) shop 2).downstream shop) ↔ (
      Reaches (pair shop stock).downstream shop 2 shop
      × Memᴰ (call_of shop stock) (flows_at (pair shop stock).downstream shop)
      × ((shop ≡ shop) ⊎ HasEdge (found (pair shop stock) shop 2) shop stock)))
    × (Memᴰ (call_of shop stock) (flows_at (subgraph (pair shop stock) shop 2).upstream shop) ↔ (
        Reaches (pair shop stock).downstream shop 2 shop
        × Memᴰ (call_of shop stock) (flows_at (pair shop stock).upstream shop)
        × ((shop ≡ shop) ⊎ HasEdge (found (pair shop stock) shop 2) shop shop)))
subgraph_flows_example = subgraph_flows (pair shop stock) shop 2 known shop (call_of shop stock)

apart : stock ≢ shop
apart e = cc (ap (λ (n : NodeId). n.application_name) e)

silent : ¬ CallsRoot (pair shop stock) shop 0 stock
unfolding add_flow push_at flows_at Map.get Map.insert node_dec text_dec add_node Map.contains_key
    native.Mathlib.Decide.ℕ_discrete
silent (f, m, e) = Memᴰ.not-nil m

root_shown :
    Memᴰ (call_of shop stock) (flows_at (subgraph (pair shop stock) shop 2).downstream shop)
root_shown =
    (subgraph_flows (pair shop stock) shop 2 known shop (call_of shop stock)).0.1
      ((0, omega arith, here), pair_calls shop stock, inl refl)
