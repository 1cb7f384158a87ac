-- ===== src/Core/Topology/Resolve.antt =====
-- core/src/topology/topology.rs, `resolve_unknown_node`: what it makes of the flows and the nodes.
use qubit.Base.{
  Text, ◌==◌, if◌then◌else◌, none, ◌≡◌, refl, ap, ◌↔◌, inl, inr, arith, ◌≢◌, Bool-cases, true,
  false, not, ◌&&◌,
}
use qubit.Base.Map
use qubit.Base.Map.{
  Map, IsUnique, get-insert, get-remove, get-map_values, insert-IsUnique, remove-IsUnique,
  map_values-IsUnique, total-insert, total-remove, total-map_values,
}
use qubit.Core.Topology.{
  NodeId, Flow, Topology, stale_id, move_data, rename_node, rename_flow, rename_flows,
  resolve_unknown_node, edge_count, node_eq, flow_eq,
}
use qubit.Core.Topology.Invariant.{HasFlow, IsIndexed}
use qubit.Core.Topology.Move.{
  move_flows-IsUnique, get-move_data, present_of_key, moved, mem-moved, total-moved, moved-IsKeyed,
}

module _ (t : Topology) (ip app ns : Text) where
  abbrev pub resolved_id : NodeId
  resolved_id = record { application_name = app; namespace = ns }

  abbrev pub after : Topology
  after = resolve_unknown_node t ip app ns

  -- Whether the stale node was in the graph: the call does nothing without it.
  abbrev pub IsStale : Type 0
  IsStale = Map.contains_key t.nodes (stale_id ip) ≡ true

  abbrev pub renamed : Flow → Flow
  renamed = rename_flow (stale_id ip) resolved_id

  pub resolve_lem :
      IsStale
      → (after.nodes ≡ move_data (stale_id ip) resolved_id t.nodes)
        × (after.upstream ≡ moved (stale_id ip) resolved_id (λ f. f.destination_node) t.upstream)
        × (after.downstream ≡ moved (stale_id ip) resolved_id (λ f. f.source_node) t.downstream)
  unfolding resolve_unknown_node
  resolve_lem h = ground arith

  -- If the stale node `(ip, unknown)` is in a graph whose two indexes agree, then after
  -- `resolve_unknown_node` the flows under their sources in `downstream` are exactly the old
  -- flows with the stale node renamed at both ends: none is lost and none is made up.
  pub HasFlow-resolve :
      IsStale
      → IsIndexed t
      → (f : Flow) → HasFlow after f ↔ ((g : Flow) × HasFlow t g × (renamed g ≡ f))
  unfolding rename_flow rename_node
  HasFlow-resolve stale h f =
      let source =
        mem-moved (stale_id ip) resolved_id (λ g. g.source_node) t.downstream h.by_source
          f.source_node f in
      rw ((resolve_lem stale).2) (
        λ m. let (g, old, _, e) = source.0 m in (g, old, e),
        λ (g, old, e). source.1 (g, old, ap (λ (x : Flow). x.source_node) e, e),
      )

  pub unresolved_lem : Map.contains_key t.nodes (stale_id ip) ≡ false → after ≡ t
  unfolding resolve_unknown_node
  unresolved_lem h = rw h

  stale-IsIndexed : IsStale → IsIndexed t → IsIndexed after
  unfolding rename_flow rename_node rename_flows
  stale-IsIndexed stale h =
      let (_, up, down) = resolve_lem stale in
      let target =
        mem-moved (stale_id ip) resolved_id (λ g. g.destination_node) t.upstream h.by_destination in
      record {
        unique_upstream =
            rw up (map_values-IsUnique _ _ (move_flows-IsUnique _ _ _ h.unique_upstream));
        unique_downstream =
            rw down (map_values-IsUnique _ _ (move_flows-IsUnique _ _ _ h.unique_downstream));
        by_destination = rw up (moved-IsKeyed _ _ _ (λ f. refl) _ h.by_destination);
        by_source = rw down (moved-IsKeyed _ _ _ (λ f. refl) _ h.by_source);
        mirror = λ f. rw up (
          λ m.
              let (g, old, _, e) = (target f.destination_node f).0 m in
              (HasFlow-resolve stale h f).1 (g, (h.mirror g).0 old, e),
          λ m.
              let (g, old, e) = (HasFlow-resolve stale h f).0 m in
              (target f.destination_node f).1
                (g, (h.mirror g).1 old, ap (λ (x : Flow). x.destination_node) e, e),
        );
      }

  -- The indexes agree after the call too.
  pub resolve-IsIndexed : IsIndexed t → IsIndexed after
  resolve-IsIndexed h = elim (Bool-cases (Map.contains_key t.nodes (stale_id ip))) [
    | inl stale ↦ stale-IsIndexed stale h
    | inr absent ↦ rw (unresolved_lem absent) h
  ]

  -- If the two indexes agree, `resolve_unknown_node` leaves the number of flows in `downstream`
  -- unchanged, also where two lists are joined.
  edge_count-resolve : IsIndexed t → edge_count after ≡ edge_count t
  unfolding edge_count
  edge_count-resolve h = elim (Bool-cases (Map.contains_key t.nodes (stale_id ip))) [
    | inl stale ↦ rw ((resolve_lem stale).2) (
        total-moved (stale_id ip) resolved_id (λ f. f.source_node) t.downstream h.unique_downstream)
    | inr absent ↦ rw (unresolved_lem absent)
  ]

  -- If the stale node is in the graph and differs from the new name, then after
  -- `resolve_unknown_node` the stale key has no data, the new key has the stale node's data
  -- unless it had data before, and the data of every other key, and of the new key if it had
  -- data, is unchanged.
  pub get-resolve :
      IsStale
      → stale_id ip ≢ resolved_id
      → (j : NodeId)
      → Map.get after.nodes j ≡ (
          if j == stale_id ip
          then none
          else if j == resolved_id && not (Map.contains_key t.nodes resolved_id)
          then Map.get t.nodes (stale_id ip)
          else Map.get t.nodes j)
  get-resolve stale differ j =
      rw ((resolve_lem stale).0)
        (get-move_data (stale_id ip) resolved_id t.nodes differ (present_of_key t.nodes _ stale) j)
