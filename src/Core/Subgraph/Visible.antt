-- ===== src/Core/Subgraph/Visible.antt =====
-- core/src/topology/topology.rs, `get_subgraph`: the loops that fill the nodes and the flows shown.
use mathlib.Core.List.{foldl}
use mathlib.Core.List.Memᴰ
use qubit.Base.{
  ◌==◌, ◌&&◌, not, contains, contains-set_insert, set_insert, true, Bool, List, [], ◌∷◌, Memᴰ,
  Memᴰ-cons, ◌≡◌, refl, ◌↔◌, ◌⊎◌, inl, inr, arith, Bool-cases, if◌then◌else◌, is_empty,
}
use qubit.Base.Map
use qubit.Base.Map.{get-insert}
use qubit.Core.Topology.{NodeId, Flow, FlowMap, node_eq}
use qubit.Core.Topology.Invariant.{flows_at}
use qubit.Core.Subgraph.{edge_eq, add_sources, root_entry, keep, show_node}

mem-keep :
    (p : Flow → Bool) (fs : List Flow) (f : Flow) → Memᴰ f (keep p fs) ↔ (Memᴰ f fs × (p f ≡ true))
unfolding keep
mem-keep p [] f = (λ m. absurd (Memᴰ.not-nil m), λ (m, _). absurd (Memᴰ.not-nil m))
mem-keep p (g ∷ fs) f = elim (Bool-cases (p g)) [
  | inl good ↦
      rw good (ground (arith, mem-keep p fs f, Memᴰ-cons f g fs, Memᴰ-cons f g (keep p fs)))
  | inr bad ↦ rw bad (ground (arith, mem-keep p fs f, Memᴰ-cons f g fs))
]

pub add_sources_lem :
    (nodes : List NodeId) (fs : List Flow) (v : NodeId)
    → (contains (add_sources nodes fs) v ≡ true)
      ↔ ((contains nodes v ≡ true) ⊎ ((f : Flow) × Memᴰ f fs × (f.source_node ≡ v)))
unfolding add_sources
add_sources_lem nodes [] v =
    (inl, λ h. elim h [ inl o ↦ o | inr (f, m, e) ↦ absurd (Memᴰ.not-nil m) ])
add_sources_lem nodes (f ∷ fs) v =
    let ih = add_sources_lem (set_insert nodes f.source_node).0 fs v in
    let step = contains-set_insert nodes f.source_node v in
    (
      λ h. elim (ih.0 h) [
        | inl o ↦ elim (Bool-cases (contains nodes v)) [
          | inl old ↦ inl old
          | inr new ↦ inr (f, Memᴰ.head refl, ground arith)
        ]
        | inr (g, m, e) ↦ inr (g, Memᴰ.tail m, e)
      ],
      λ h. elim h [
        | inl old ↦ ih.1 (inl (ground arith))
        | inr (g, m, e) ↦ elim (Memᴰ.cases_cons m) [
          | inl p ↦ ih.1 (inl (ground arith))
          | inr m' ↦ ih.1 (inr (g, m', e))
        ]
      ],
    )

module _ (root : NodeId) (is_tree : NodeId → Flow → Bool) (m : FlowMap) where
  abbrev pub shown : NodeId → List Flow
  shown k = keep (is_tree k) (flows_at m k)

  flows_at-root_entry :
      (k : NodeId) → flows_at (root_entry m root) k ≡ (if k == root then flows_at m root else [])
  unfolding root_entry flows_at Map.get Map.insert
  flows_at-root_entry k = ground arith

  flows_at-show_node :
      (vis : FlowMap) (node k : NodeId)
      → flows_at (show_node root is_tree m vis node) k ≡ (
          if k == root
          then flows_at vis k
          else if k == node && not (is_empty (shown k))
          then shown k
          else flows_at vis k)
  unfolding show_node flows_at
  flows_at-show_node vis node k = ground (arith, get-insert vis node (shown node) k)

  flows_at-show_nodes :
      (vis : FlowMap) (us : List NodeId) (k : NodeId)
      → flows_at (foldl (show_node root is_tree m) vis us) k ≡ (
          if k == root
          then flows_at vis k
          else if contains us k && not (is_empty (shown k))
          then shown k
          else flows_at vis k)
  unfolding contains
  flows_at-show_nodes vis [] k = ground arith
  flows_at-show_nodes vis (u ∷ us) k =
      ground (
        arith,
        flows_at-show_node vis u k,
        flows_at-show_nodes (show_node root is_tree m vis u) us k,
      )

  nothing_shown : (fs : List Flow) → is_empty fs ≡ true → fs ≡ []
  nothing_shown [] h = refl
  nothing_shown (f ∷ fs) h = cc

  -- The view shows all flows of the root and the tree's flows of the other nodes.
  pub mem_visible :
      (us : List NodeId) (k : NodeId) (f : Flow)
      → contains us root ≡ true
      → Memᴰ f (flows_at (foldl (show_node root is_tree m) (root_entry m root) us) k)
        ↔ ((contains us k ≡ true) × Memᴰ f (flows_at m k) × ((k ≡ root) ⊎ (is_tree k f ≡ true)))
  mem_visible us k f h = ground (
    arith,
    flows_at-show_nodes (root_entry m root) us k,
    flows_at-root_entry k,
    mem-keep (is_tree k) (flows_at m k) f,
    nothing_shown (shown k),
    Memᴰ.not-nil {a = f},
  )
