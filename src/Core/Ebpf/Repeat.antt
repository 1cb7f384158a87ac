-- ===== src/Core/Ebpf/Repeat.antt =====
-- core/src/aggregator/ebpf_aggregator.rs, `record_ebpf_event`: a second event, or the same one again.
use qubit.Base.{
  Text, text_eq, codes, contains, contains-set_insert, set_insert, contains_text, true, some, ◌≡◌,
  ◌↔◌, ◌⊎◌, inl, inr, arith, Option-cases, Bool-cases, ap, sym, subst, ◌∙◌,
}
use mathlib.Core.Option.{some-injective}
use qubit.Core.Topology.{Flow}
use qubit.Core.Topology.Invariant.{HasFlow}
use qubit.Core.Cache.{CacheLib}
use qubit.Core.State.{Result, EbpfNetworkEventInput, State}
use qubit.Core.Ebpf.{
  Resolved, edge_key, resolve_source, resolve_name, resolve_destination, record_flow, record_edge,
  record_ebpf_event,
}
use qubit.Core.Ebpf.Laws.{
  IsNew, IsNew-or_unchanged, destination, flow_of, caches_kept, known_lem, stored_if_new,
  HasFlow-store,
}

-- An event is resolved alike where the caches are alike.
module _ (lib : CacheLib) (s t : State lib) (input : EbpfNetworkEventInput) where
  source_of_cache :
      t.pod_cache ≡ s.pod_cache → resolve_source lib t input ≡ resolve_source lib s input
  unfolding resolve_source
  source_of_cache pods = ground arith

  destination_of_caches :
      t.pod_cache ≡ s.pod_cache
      → t.envoy_cache ≡ s.envoy_cache
      → resolve_destination lib t input ≡ resolve_destination lib s input
  unfolding resolve_destination resolve_name
  destination_of_caches pods domains = ground arith

module _ (lib : CacheLib) (s : State lib) (input : EbpfNetworkEventInput) where
  record_edge_again :
      (src dst : Resolved)
      → let t = (record_edge lib s input src dst).0 in (record_edge lib t input src dst).0 ≡ t
  unfolding record_edge record_flow set_insert
  record_edge_again src dst =
      ground (arith, contains-set_insert s.seen_edges (edge_key src dst) (edge_key src dst))

module _ (lib : CacheLib) (s : State lib) (before input : EbpfNetworkEventInput) where
  abbrev after : State lib
  after = (record_ebpf_event lib s before).0

  source_kept : resolve_source lib after input ≡ resolve_source lib s input
  source_kept = source_of_cache lib s after input (caches_kept lib s before).0

  destination_kept : resolve_destination lib after input ≡ resolve_destination lib s input
  destination_kept =
      destination_of_caches lib s after input (caches_kept lib s before).0
        (caches_kept lib s before).1

-- Recording an event a second time, right after the first, leaves the state as the first left it.
record_ebpf_event_again :
    (lib : CacheLib) (s : State lib) (input : EbpfNetworkEventInput)
    → let t = (record_ebpf_event lib s input).0 in (record_ebpf_event lib t input).0 ≡ t
record_ebpf_event_again lib s input =
    elim (Bool-cases (contains_text input.path (codes "/health"))) [
      | inl health ↦ unfold record_ebpf_event in ground arith
      | inr traffic ↦ elim (Option-cases (resolve_source lib s input)) [
        | inl not_known ↦ unfold record_ebpf_event in ground arith
        | inr (src, known) ↦
            let t = (record_ebpf_event lib s input).0 in
            let first = known_lem lib s input src traffic known in
            let second =
              known_lem lib t input src traffic (source_kept lib s input input ∙ known) in
            ap (λ (r : State lib × Result Text). r.0) second
            ∙ ap (λ d. (record_edge lib t input src d).0) (destination_kept lib s input input)
            ∙ subst
                (λ (u : State lib × Result Text).
                  (record_edge lib u.0 input src (resolve_destination lib s input)).0 ≡ u.0)
                (sym first) (record_edge_again lib s input src _)
      ]
    ]

seen_after :
    (lib : CacheLib) (s : State lib) (input : EbpfNetworkEventInput) (src : Resolved)
    → IsNew lib s input src
    → contains (record_ebpf_event lib s input).0.seen_edges (edge_key src (destination lib s input))
      ≡ true
unfolding record_ebpf_event record_edge record_flow set_insert contains
seen_after lib s input src new = ground arith

-- Let a first event be new, and let a second one have a resolved source and the same edge key,
-- which is made of namespaces and service names. When the second is recorded after the first, its
-- flow is in the graph only if it was there before both or is equal to the first one's flow, and
-- then it is.
pub same_services_dropped :
    (lib : CacheLib) (s : State lib) (first second : EbpfNetworkEventInput) (p q : Resolved)
    → IsNew lib s first p
    → resolve_source lib s second ≡ some q
    → edge_key q (destination lib s second) ≡ edge_key p (destination lib s first)
    → let t = (record_ebpf_event lib s first).0 in
      let f = flow_of second q (destination lib s second) in
      HasFlow (record_ebpf_event lib t second).0.topology f
      ↔ (HasFlow s.topology f ⊎ (f ≡ flow_of first p (destination lib s first)))
same_services_dropped lib s first second p q new known same =
    elim (IsNew-or_unchanged lib t second) [
      | inl (src, again) ↦
          let e =
            some-injective _ _ (sym again.resolved ∙ source_kept lib s first second ∙ known) in
          cc (
            again.unseen,
            seen_after lib s first p new,
            same,
            e,
            destination_kept lib s first second,
          )
      | inr (unchanged, _) ↦ rw unchanged (
          rw ((stored_if_new lib s first p new).1)
            (HasFlow-store s.topology first p (destination lib s first) f))
    ]
  where
    t : State lib
    t = (record_ebpf_event lib s first).0

    f : Flow
    f = flow_of second q (destination lib s second)
