-- ===== src/Core/Tests/Queries.antt =====
-- Tests of core/src/server/query.rs and core/src/server/handler.rs.
use qubit.Base.{
  text_eq, text_dec, codes, set_insert, contains, false, none, [], ◌∷◌, map, ◌≡◌, refl, arith,
}
use qubit.Base.Map
use qubit.Core.Topology.{node_dec, Topology, node_eq}
use qubit.Core.Subgraph.{get_subgraph, add_sources, search, level, scan, visit}
use qubit.Core.Query.{
  to_dto, collect, collect_nodes, TopologyResponse, FlowDto, topology_subgraph, response, unwrap_or,
}
use qubit.Core.Query.Laws.{IsPlain, AllPlain, IsPlainGraph}
use qubit.Core.Tests.{address, data_of, call_of, shop, stock, prod}

abbrev pub small : Topology
small = record {
  nodes = (shop, data_of (codes "10.0.0.5")) ∷ (stock, data_of address) ∷ [];
  upstream = (stock, call_of shop stock ∷ []) ∷ [];
  downstream = (shop, call_of shop stock ∷ []) ∷ [];
}

pub small-IsPlainGraph : IsPlainGraph small
unfolding Map.get node_dec text_dec native.Mathlib.Decide.ℕ_discrete
small-IsPlainGraph = record {
  unique_nodes = (refl, (refl, tt));
  unique_upstream = (refl, tt);
  unique_downstream = (refl, tt);
  plain_nodes = omega arith;
  plain_upstream = omega arith;
  plain_downstream = omega arith;
}

plain : IsPlain stock
plain = omega arith

abbrev view : TopologyResponse FlowDto
view = record {
  nodes = collect_nodes small.nodes [] (get_subgraph small (codes "shop") prod 1).nodes;
  upstream =
      collect (λ n flows. map to_dto flows) [] (get_subgraph small (codes "shop") prod 1).upstream;
  downstream =
      collect (λ n flows. map to_dto flows) []
        (get_subgraph small (codes "shop") prod 1).downstream;
}

answered : topology_subgraph false small (codes "shop") prod none ≡ response view
unfolding topology_subgraph unwrap_or
answered = refl

all_plain : AllPlain (get_subgraph small (codes "shop") prod (unwrap_or none 1)).nodes
unfolding get_subgraph unwrap_or Map.contains_key Map.get node_dec text_dec
    native.Mathlib.Decide.ℕ_discrete add_sources search level scan visit contains set_insert
all_plain = omega arith
