-- ===== src/Core/Topology/Closed.antt =====
-- core/src/topology/topology.rs: whether the ends of every flow are nodes of the graph. A topology is
-- sound if they are and its indexes agree.
use mathlib.Core.List.Memᴰ
use qubit.Base.{
  Text, [], ◌∷◌, ◌++◌, ◌≡◌, refl, subst, ◌↔◌, ◌⊎◌, inl, inr, arith, ◌≢◌, Option-cases, Bool-cases,
  true,
}
use qubit.Base.Map
use qubit.Base.Map.{Map, get-insert, get-remove}
use qubit.Core.Topology.{
  NodeId, NodeData, Flow, K8sEvent, Topology, new, add_node, add_flow, add_k8s_event, stale_id,
  move_data, rename_node, rename_flow, resolve_unknown_node, node_eq,
}
use qubit.Core.Topology.Invariant.{
  flows_at, HasFlow, IsIndexed, add_flow-IsIndexed, HasFlow-add_flow,
}
use qubit.Core.Topology.Resolve.{
  resolved_id, IsStale, HasFlow-resolve, resolve-IsIndexed, resolve_lem, unresolved_lem,
  get-resolve,
}

abbrev pub HasNode : Topology → NodeId → Type 0
HasNode t n = Map.contains_key t.nodes n ≡ true

pub record IsSound (t : Topology) : Type 0 where
  pub indexed : IsIndexed t
  pub source_known : (f : Flow) → HasFlow t f → HasNode t f.source_node
  pub destination_known : (f : Flow) → HasFlow t f → HasNode t f.destination_node

pub new-IsSound : IsSound new
unfolding flows_at Map.get
new-IsSound = record {
  indexed = record {
    unique_upstream = tt;
    unique_downstream = tt;
    by_destination = λ k f m. absurd (Memᴰ.not-nil m);
    by_source = λ k f m. absurd (Memᴰ.not-nil m);
    mirror = λ f. (λ m. m, λ m. m);
  };
  source_known = λ f m. absurd (Memᴰ.not-nil m);
  destination_known = λ f m. absurd (Memᴰ.not-nil m);
}

-- An operation that leaves the flows alone and keeps the nodes.
same_flows :
    (t u : Topology)
    → u.upstream ≡ t.upstream
    → u.downstream ≡ t.downstream
    → ((n : NodeId) → HasNode t n → HasNode u n)
    → IsSound t
    → IsSound u
same_flows t u up down nodes h =
    let i = h.indexed in
    record {
      indexed = record {
        unique_upstream = rw up i.unique_upstream;
        unique_downstream = rw down i.unique_downstream;
        by_destination = rw up i.by_destination;
        by_source = rw down i.by_source;
        mirror = rw (up, down) i.mirror;
      };
      source_known = rw down (λ f m. nodes _ (h.source_known f m));
      destination_known = rw down (λ f m. nodes _ (h.destination_known f m));
    }

pub HasNode-add_node :
    (t : Topology) (n : NodeId) (d : NodeData) (k : NodeId)
    → HasNode (add_node t n d) k ↔ (HasNode t k ⊎ (k ≡ n))
unfolding add_node Map.contains_key
HasNode-add_node t n d k = ground (arith, get-insert t.nodes n d k)

pub add_node-IsSound :
    (t : Topology) (n : NodeId) (d : NodeData) → IsSound t → IsSound (add_node t n d)
unfolding add_node
add_node-IsSound t n d h =
    same_flows t (add_node t n d) (ground arith) (ground arith)
      (λ k m. (HasNode-add_node t n d k).1 (inl m)) h

pub add_k8s_event-IsSound :
    (t : Topology) (n : NodeId) (e : K8sEvent) → IsSound t → IsSound (add_k8s_event t n e)
unfolding add_k8s_event Map.contains_key
add_k8s_event-IsSound t n e h = elim (Option-cases (Map.get t.nodes n)) [
  | inl absent ↦ rw (absent, add_k8s_event) h
  | inr (d, present) ↦
      rw (present, add_k8s_event)
        (same_flows t _ refl refl
          (λ k m.
            ground
              (arith, get-insert t.nodes n (record d { k8s_events = d.k8s_events ++ e ∷ [] }) k))
          h)
]

-- The ends of the new flow have to be nodes.
pub add_flow-IsSound :
    (t : Topology) (f : Flow)
    → HasNode t f.source_node
    → HasNode t f.destination_node
    → IsSound t
    → IsSound (add_flow t f)
add_flow-IsSound t f src dst h =
    let flows = HasFlow-add_flow t f in
    record {
      indexed = add_flow-IsIndexed t f h.indexed;
      source_known = λ g m. elim ((flows g).0 m) [
        | inl old ↦ unfold add_flow in h.source_known g old
        | inr e ↦ unfold add_flow in rw e src
      ];
      destination_known = λ g m. elim ((flows g).0 m) [
        | inl old ↦ unfold add_flow in h.destination_known g old
        | inr e ↦ unfold add_flow in rw e dst
      ];
    }

key_move_data :
    (stale resolved : NodeId) (m : Map NodeId NodeData) (n : NodeId)
    → Map.contains_key m stale ≡ true
    → Map.contains_key m n ≡ true
    → Map.contains_key (move_data stale resolved m) (rename_node stale resolved n) ≡ true
unfolding move_data rename_node Map.contains_key
key_move_data stale resolved m n was known = elim (Option-cases (Map.get m stale)) [
  | inl absent ↦ cc (rw (absent, Map.contains_key) at was)
  | inr (d, present) ↦
      let rest = Map.remove m stale in
      rw (present, move_data)
        (ground (
          arith,
          get-insert rest resolved d resolved,
          get-insert rest resolved d n,
          get-remove m stale n,
          get-remove m stale resolved,
          present,
        ))
]

module _ (t : Topology) (ip app ns : Text) where
  HasNode-resolve :
      IsStale t ip app ns
      → (n : NodeId) → HasNode t n
      → HasNode
          (resolve_unknown_node t ip app ns)
          (rename_node (stale_id ip) (resolved_id t ip app ns) n)
  HasNode-resolve stale n known =
      rw ((resolve_lem t ip app ns stale).0) (key_move_data _ _ t.nodes n stale known)

  -- A pod that becomes known leaves the graph sound.
  pub resolve-IsSound : IsSound t → IsSound (resolve_unknown_node t ip app ns)
  unfolding rename_flow
  resolve-IsSound h = elim (Bool-cases (Map.contains_key t.nodes (stale_id ip))) [
    | inl stale ↦ record {
      indexed = resolve-IsIndexed t ip app ns h.indexed;
      source_known = λ f m.
          let (g, old, e) = (HasFlow-resolve t ip app ns stale h.indexed f).0 m in
          rw (← e) (HasNode-resolve stale g.source_node (h.source_known g old));
      destination_known = λ f m.
          let (g, old, e) = (HasFlow-resolve t ip app ns stale h.indexed f).0 m in
          rw (← e) (HasNode-resolve stale g.destination_node (h.destination_known g old));
    }
    | inr absent ↦ rw (unresolved_lem t ip app ns absent) h
  ]

  rename_forgets :
      (n : NodeId)
      → stale_id ip ≢ resolved_id t ip app ns
      → rename_node (stale_id ip) (resolved_id t ip app ns) n ≢ stale_id ip
  unfolding rename_node
  rename_forgets n differ e = ground arith

  -- If the topology is sound and the new name differs from the stale node, then after
  -- `resolve_unknown_node` the stale node is no node of the graph and no end of any of its flows.
  pub resolve_forgets :
      IsSound t
      → stale_id ip ≢ resolved_id t ip app ns
      → (let u = resolve_unknown_node t ip app ns in
          (¬ HasNode u (stale_id ip))
          × ((f : Flow)
              → HasFlow u f
              → (f.source_node ≢ stale_id ip) × (f.destination_node ≢ stale_id ip)))
  resolve_forgets h differ = (
    gone,
    λ f m.
        let after = resolve-IsSound h in
        (
          λ e. gone (subst (HasNode u) e (after.source_known f m)),
          λ e. gone (subst (HasNode u) e (after.destination_known f m)),
        ),
  )
    where
      u : Topology
      u = resolve_unknown_node t ip app ns

      gone : ¬ HasNode u (stale_id ip)
      gone known = elim (Bool-cases (Map.contains_key t.nodes (stale_id ip))) [
        | inl stale ↦
            unfold Map.contains_key in
            ground (arith, get-resolve t ip app ns stale differ (stale_id ip))
        | inr absent ↦
            cc (
              subst (λ v. HasNode v (stale_id ip)) (unresolved_lem t ip app ns absent) known,
              absent,
            )
      ]
