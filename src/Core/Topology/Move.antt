-- ===== src/Core/Topology/Move.antt =====
-- core/src/topology/topology.rs: the steps of `resolve_unknown_node` on the nodes and on one index.
use mathlib.Core.List.{append-nil}
use mathlib.Core.List.Memᴰ
use qubit.Base.{
  ℕ, ◌==◌, if◌then◌else◌, none, List, [], ◌++◌, map, length, length-append, length-map, ◌∙◌,
  or_empty, Memᴰ, Memᴰ-append, ◌≡◌, sym, ap, ◌↔◌, inl, inr, arith, ◌≢◌, Option-cases, true, not,
  ◌&&◌,
}
use qubit.Base.Map
use mathlib.Core.Path.{fun_ext}
use qubit.Base.Map.{
  Map, IsUnique, get-insert, get-remove, get-map_values, insert-IsUnique, remove-IsUnique,
  map_values-IsUnique, total-insert, total-remove, total-map_values,
}
use qubit.Core.Topology.{
  NodeId, NodeData, Flow, FlowMap, move_data, move_flows, rename_node, rename_flow, rename_flows,
  node_eq, flow_eq,
}
use qubit.Core.Topology.Invariant.{flows_at}

module _ (stale resolved : NodeId) where
  flows_at-move_flows :
      (m : FlowMap) (j : NodeId)
      → flows_at (move_flows stale resolved m) j ≡ (
          if stale == resolved
          then flows_at m j
          else if j == resolved
          then flows_at m resolved ++ flows_at m stale
          else if j == stale
          then []
          else flows_at m j)
  unfolding move_flows flows_at
  flows_at-move_flows m j = elim (Option-cases (Map.get m stale)) [
    | inl absent ↦ rw (absent, move_flows) (ground (arith, append-nil (flows_at m resolved)))
    | inr (flows, present) ↦
        let rest = Map.remove m stale in
        rw (present, move_flows)
          (ground (
            arith,
            get-insert rest resolved (or_empty (Map.get rest resolved) ++ flows) j,
            get-remove m stale j,
            get-remove m stale resolved,
          ))
  ]

  pub flows_at-rename_flows :
      (m : FlowMap) (j : NodeId)
      → flows_at (rename_flows stale resolved m) j ≡ map (rename_flow stale resolved) (flows_at m j)
  unfolding rename_flows flows_at
  flows_at-rename_flows m j = ground (arith, get-map_values (map (rename_flow stale resolved)) m j)

  pub move_flows-IsUnique : (m : FlowMap) → IsUnique m → IsUnique (move_flows stale resolved m)
  unfolding move_flows
  move_flows-IsUnique m u = elim (Option-cases (Map.get m stale)) [
    | inl absent ↦ rw (absent, move_flows) u
    | inr (flows, present) ↦
        rw (present, move_flows) (insert-IsUnique _ resolved _ (remove-IsUnique m stale u))
  ]

  total-move_flows :
      (m : FlowMap)
      → IsUnique m
      → Map.total length (move_flows stale resolved m) ≡ Map.total length m
  unfolding move_flows
  total-move_flows m u = elim (Option-cases (Map.get m stale)) [
    | inl absent ↦ rw (absent, move_flows)
    | inr (flows, present) ↦
        let rest = Map.remove m stale in
        let before = or_empty (Map.get rest resolved) in
        rw (present, move_flows)
          (ground (
            arith,
            total-insert length rest resolved (before ++ flows),
            total-remove length m stale u,
            length-append before flows,
            present,
          ))
  ]

  pub get-move_data :
      (m : Map NodeId NodeData)
      → stale ≢ resolved
      → Map.get m stale ≢ none
      → (j : NodeId)
      → Map.get (move_data stale resolved m) j ≡ (
          if j == stale
          then none
          else if j == resolved && not (Map.contains_key m resolved)
          then Map.get m stale
          else Map.get m j)
  unfolding move_data Map.contains_key
  get-move_data m differ kept j = elim (Option-cases (Map.get m stale)) [
    | inl absent ↦ absurd (kept absent)
    | inr (d, present) ↦
        let rest = Map.remove m stale in
        rw (present, move_data)
          (ground (
            arith,
            get-insert rest resolved d j,
            get-remove m stale j,
            get-remove m stale resolved,
          ))
  ]

pub present_of_key :
    (m : Map NodeId NodeData) (k : NodeId) → Map.contains_key m k ≡ true → Map.get m k ≢ none
unfolding Map.contains_key
present_of_key m k h = ground arith

-- One of the two maps, by the end of a flow that it is keyed by.
module _ (stale resolved : NodeId) (key : Flow → NodeId) where
  abbrev pub IsKeyed : FlowMap → Type 0
  IsKeyed m = (k : NodeId) (f : Flow) → Memᴰ f (flows_at m k) → key f ≡ k

  -- where the flows of a map are after steps 2 and 3
  pub mem-move_flows :
      (m : FlowMap)
      → IsKeyed m
      → (j : NodeId) (f : Flow)
      → Memᴰ f (flows_at (move_flows stale resolved m) j)
        ↔ (Memᴰ f (flows_at m (key f)) × (rename_node stale resolved (key f) ≡ j))
  unfolding rename_node
  mem-move_flows m keyed j f = ground (
    arith,
    flows_at-move_flows stale resolved m j,
    keyed j f,
    keyed stale f,
    keyed resolved f,
    Memᴰ-append f (flows_at m resolved) (flows_at m stale),
    Memᴰ.not-nil {a = f},
  )

  abbrev pub moved : FlowMap → FlowMap
  moved m = rename_flows stale resolved (move_flows stale resolved m)

  -- and after step 4
  pub mem-moved :
      (m : FlowMap)
      → IsKeyed m
      → (j : NodeId) (f : Flow)
      → Memᴰ f (flows_at (moved m) j) ↔ (
          (g : Flow) × Memᴰ g (flows_at m (key g))
          × (rename_node stale resolved (key g) ≡ j)
          × (rename_flow stale resolved g ≡ f))
  mem-moved m keyed j f =
      rw (flows_at-rename_flows stale resolved (move_flows stale resolved m) j) (
        λ h.
            let (g, mem, e) = Memᴰ.of_map _ _ h in
            let (old, at_j) = (mem-move_flows m keyed j g).0 mem in (g, old, at_j, e),
        λ (g, old, at_j, e).
            Memᴰ.cast (sym e) (Memᴰ.map _ ((mem-move_flows m keyed j g).1 (old, at_j))),
      )

  pub total-moved : (m : FlowMap) → IsUnique m → Map.total length (moved m) ≡ Map.total length m
  unfolding rename_flows
  total-moved m u =
      total-map_values (map (rename_flow stale resolved)) length (move_flows stale resolved m)
      ∙ ap (λ (f : List Flow → ℕ). Map.total f (move_flows stale resolved m))
          (fun_ext (length-map (rename_flow stale resolved)))
      ∙ total-move_flows stale resolved m u

  pub moved-IsKeyed :
      ((f : Flow) → key (rename_flow stale resolved f) ≡ rename_node stale resolved (key f))
      → (m : FlowMap) → IsKeyed m
      → IsKeyed (moved m)
  moved-IsKeyed along m keyed j f h =
      let (g, old, at_j, e) = (mem-moved m keyed j f).0 h in rw (← e, along) at_j
