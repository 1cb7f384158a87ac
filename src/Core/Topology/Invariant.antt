-- ===== src/Core/Topology/Invariant.antt =====
-- core/src/topology/topology.rs: the agreement of the two indexes of the flows.
use mathlib.Core.List.Memᴰ
use qubit.Base.{
  ◌==◌, if◌then◌else◌, List, [], ◌∷◌, or_empty, Memᴰ, ◌≡◌, ◌↔◌, ◌⊎◌, arith, contains_iff,
  Memᴰ-append, Memᴰ-cons,
}
use qubit.Base.Map
use qubit.Base.Map.{
  IsUnique, get-insert, get-remove, get-map_values, insert-IsUnique, remove-IsUnique,
  map_values-IsUnique,
}
use qubit.Core.Topology.{
  NodeId, Flow, FlowMap, Topology, push_new, push_at, add_flow, node_eq, flow_eq,
}

unfoldable pub flows_at : FlowMap → NodeId → List Flow
flows_at m k = or_empty (Map.get m k)

-- The flows of the graph, as `downstream` stores them.
abbrev pub HasFlow : Topology → Flow → Type 0
HasFlow t f = Memᴰ f (flows_at t.downstream f.source_node)

pub record IsIndexed (t : Topology) : Type 0 where
  pub unique_upstream : IsUnique t.upstream
  pub unique_downstream : IsUnique t.downstream
  pub by_destination :
      (k : NodeId) (f : Flow) → Memᴰ f (flows_at t.upstream k) → f.destination_node ≡ k
  pub by_source : (k : NodeId) (f : Flow) → Memᴰ f (flows_at t.downstream k) → f.source_node ≡ k
  pub mirror : (f : Flow) → Memᴰ f (flows_at t.upstream f.destination_node) ↔ HasFlow t f

mem-push_new :
    (flows : List Flow) (flow f : Flow) → Memᴰ f (push_new flows flow) ↔ (Memᴰ f flows ⊎ (f ≡ flow))
unfolding push_new
mem-push_new flows flow f = ground (
  arith,
  contains_iff flows flow,
  Memᴰ-append f flows (flow ∷ []),
  Memᴰ-cons f flow [],
  Memᴰ.not-nil {a = f},
)

pub flows_at-push_at :
    (m : FlowMap) (k : NodeId) (flow : Flow) (j : NodeId)
    → flows_at (push_at m k flow) j
      ≡ (if k == j then push_new (flows_at m k) flow else flows_at m j)
unfolding push_at flows_at
flows_at-push_at m k flow j = ground (arith, get-insert m k (push_new (flows_at m k) flow) j)

-- `add_flow` keeps both indexes right and equal.
pub add_flow-IsIndexed : (t : Topology) (flow : Flow) → IsIndexed t → IsIndexed (add_flow t flow)
unfolding add_flow
add_flow-IsIndexed t flow h =
    let at_target = λ (k : NodeId). flows_at-push_at t.upstream flow.destination_node flow k in
    let at_source = λ (k : NodeId). flows_at-push_at t.downstream flow.source_node flow k in
    let callers = λ (f : Flow). mem-push_new (flows_at t.upstream flow.destination_node) flow f in
    let callees = λ (f : Flow). mem-push_new (flows_at t.downstream flow.source_node) flow f in
    record {
      unique_upstream = unfold push_at in insert-IsUnique t.upstream _ _ h.unique_upstream;
      unique_downstream = unfold push_at in insert-IsUnique t.downstream _ _ h.unique_downstream;
      by_destination = λ k f m. ground (arith, at_target k, callers f, h.by_destination k f);
      by_source = λ k f m. ground (arith, at_source k, callees f, h.by_source k f);
      mirror = λ f. ground (
        arith,
        h.mirror f,
        at_target f.destination_node,
        at_source f.source_node,
        callers f,
        callees f,
      );
    }

-- The flows of the graph after `add_flow` are the old ones and the new one.
pub HasFlow-add_flow :
    (t : Topology) (flow f : Flow) → HasFlow (add_flow t flow) f ↔ (HasFlow t f ⊎ (f ≡ flow))
unfolding add_flow
HasFlow-add_flow t flow f = ground (
  arith,
  flows_at-push_at t.downstream flow.source_node flow f.source_node,
  mem-push_new (flows_at t.downstream flow.source_node) flow f,
)
