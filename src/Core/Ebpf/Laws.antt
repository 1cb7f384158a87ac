-- ===== src/Core/Ebpf/Laws.antt =====
-- core/src/aggregator/ebpf_aggregator.rs, `record_ebpf_event`: when an event becomes an edge.
use qubit.Base.{
  Text, text_eq, codes, contains, set_insert, contains_text, false, some, ◌≡◌, ◌≢◌, ◌↔◌, ◌⊎◌, inl,
  inr, arith, Option-cases, Bool-cases, ap, sym, ◌∙◌,
}
use mathlib.Core.Option.{some-injective}
use qubit.Core.Topology.{NodeId, NodeData, Flow, Topology, add_node}
use qubit.Core.Topology.Invariant.{HasFlow, HasFlow-add_flow}
use qubit.Core.Cache.{CacheLib}
use qubit.Core.State.{Result, ok, EbpfNetworkEventInput, State}
use qubit.Core.Ebpf.{
  Resolved, edge_key, node_of, saved, already, skipped, unresolved, store, resolve_source,
  resolve_destination, record_flow, record_edge, record_ebpf_event,
}

abbrev pub flow_of : EbpfNetworkEventInput → Resolved → Resolved → Flow
flow_of input src dst = record {
  source_node = node_of src;
  destination_node = node_of dst;
  path = input.path;
  method = input.method;
}

HasFlow-add_node :
    (t : Topology) (n : NodeId) (d : NodeData) (f : Flow) → HasFlow (add_node t n d) f ↔ HasFlow t f
unfolding add_node
HasFlow-add_node t n d f = ground arith

pub HasFlow-store :
    (t : Topology) (input : EbpfNetworkEventInput) (src dst : Resolved) (f : Flow)
    → HasFlow (store t input src dst) f ↔ (HasFlow t f ⊎ (f ≡ flow_of input src dst))
unfolding store
HasFlow-store t input src dst f = grind (arith, HasFlow-add_flow, HasFlow-add_node)

-- The answers are distinct texts.
answers : (saved ≢ already) × (saved ≢ skipped) × (saved ≢ unresolved)
unfolding saved already skipped unresolved
answers = (λ e. cc, λ e. cc, λ e. cc)

module _ (lib : CacheLib) (s : State lib) (input : EbpfNetworkEventInput) where
  abbrev pub destination : Resolved
  destination = resolve_destination lib s input

  abbrev pub outcome : State lib × Result Text
  outcome = record_ebpf_event lib s input

  -- An event that is to be stored: it is no health check, its source is known by name, no lock is
  -- poisoned, and no event with the same two services has been seen.
  pub record IsNew (src : Resolved) : Type 0 where
    pub traffic : contains_text input.path (codes "/health") ≡ false
    pub resolved : resolve_source lib s input ≡ some src
    pub unseen : contains s.seen_edges (edge_key src destination) ≡ false
    pub seen_usable : s.seen_poisoned ≡ false
    pub topology_usable : s.topology_poisoned ≡ false

  pub stored_if_new :
      (src : Resolved)
      → IsNew src
      → (outcome.1 ≡ ok saved) × (outcome.0.topology ≡ store s.topology input src destination)
  unfolding record_ebpf_event record_edge record_flow set_insert
  stored_if_new src h = ground arith

  abbrev pub IsUnchanged : Type 0
  IsUnchanged = (outcome.0.topology ≡ s.topology) × (outcome.1 ≢ ok saved)

  edge_cases :
      (src : Resolved)
      → contains_text input.path (codes "/health") ≡ false
      → resolve_source lib s input ≡ some src
      → IsNew src ⊎ IsUnchanged
  unfolding record_ebpf_event record_edge record_flow set_insert
  edge_cases src traffic known =
      elim (Bool-cases (contains s.seen_edges (edge_key src destination))) [
        | inl seen ↦ inr (ground arith, λ e. ground (arith, answers))
        | inr unseen ↦ elim (Bool-cases s.seen_poisoned) [
          | inl bad ↦ inr (ground arith, λ e. ground arith)
          | inr usable ↦ elim (Bool-cases s.topology_poisoned) [
            | inl bad ↦ inr (ground arith, λ e. ground arith)
            | inr usable' ↦ inl (record {
              traffic = traffic;
              resolved = known;
              unseen = unseen;
              seen_usable = usable;
              topology_usable = usable';
            })
          ]
        ]
      ]

  pub IsNew-or_unchanged : ((src : Resolved) × IsNew src) ⊎ IsUnchanged
  unfolding record_ebpf_event
  IsNew-or_unchanged = elim (Bool-cases (contains_text input.path (codes "/health"))) [
    | inl health ↦ inr (ground arith, λ e. ground (arith, answers))
    | inr traffic ↦ elim (Option-cases (resolve_source lib s input)) [
      | inl not_known ↦ inr (ground arith, λ e. ground (arith, answers))
      | inr (src, known) ↦ elim (edge_cases src traffic known) [
        | inl new ↦ inl (src, new)
        | inr same ↦ inr same
      ]
    ]
  ]

  -- After `record_ebpf_event` the flows of the graph are the old ones and, exactly if the event
  -- is new for some source, the event's flow between that source and the resolved destination;
  -- and exactly if it is new for some source the answer is `saved event!`. An event is new for a
  -- source if its path has no `/health`, the source is resolved to it, no lock is poisoned and no
  -- event with the same edge key has been seen.
  pub record_ebpf_event_lem :
      ((f : Flow)
        → HasFlow outcome.0.topology f ↔ (
            HasFlow s.topology f
            ⊎ ((src : Resolved) × IsNew src × (f ≡ flow_of input src destination))))
      × ((outcome.1 ≡ ok saved) ↔ ((src : Resolved) × IsNew src))
  record_ebpf_event_lem = elim IsNew-or_unchanged [
    | inl (src, new) ↦
        let (answer, topology) = stored_if_new src new in
        let flow = HasFlow-store s.topology input src destination in
        (
          λ f. rw topology (
            λ m. elim ((flow f).0 m) [ inl old ↦ inl old | inr e ↦ inr (src, new, e) ],
            λ m. elim m [
              | inl old ↦ (flow f).1 (inl old)
              | inr (src', new', e) ↦ (flow f).1 (
                  inr (
                    rw e (
                      ap (λ r. flow_of input r destination)
                        (some-injective _ _ (sym new'.resolved ∙ new.resolved)))))
            ],
          ),
          (λ _. (src, new), λ _. answer),
        )
    | inr (same, other) ↦ (
      λ f. rw same (
        inl,
        λ m. elim m [
          | inl old ↦ old
          | inr (src, new, e) ↦ absurd (other (stored_if_new src new).0)
        ],
      ),
      (λ e. absurd (other e), λ (src, new). (stored_if_new src new).0),
    )
  ]

  -- What an event is resolved to depends on the caches, which events leave alone.
  pub caches_kept : (outcome.0.pod_cache ≡ s.pod_cache) × (outcome.0.envoy_cache ≡ s.envoy_cache)
  unfolding record_ebpf_event record_edge record_flow
  caches_kept = (ground arith, ground arith)

  pub poison_kept : outcome.0.topology_poisoned ≡ s.topology_poisoned
  unfolding record_ebpf_event record_edge record_flow
  poison_kept = ground arith

  pub known_lem :
      (src : Resolved)
      → contains_text input.path (codes "/health") ≡ false
      → resolve_source lib s input ≡ some src
      → outcome ≡ record_edge lib s input src destination
  unfolding record_ebpf_event
  known_lem src traffic known = ground arith
