-- ===== src/Core/Ebpf/Phases.antt =====
-- core/src/aggregator/ebpf_aggregator.rs, `record_ebpf_event` by its reads of a cache and its locks:
-- what a thread knows between two of them, and what it does at the next one.
use qubit.Base.{
  ℕ, zero, suc, Text, text_eq, codes, contains_text, head_of_split, set_insert, if◌then◌else◌,
  Option, none, some, ◌≡◌, refl, inl, inr, arith, ◌<◌, ◌≤◌, ◌⊎◌,
}
use qubit.Core.Ip.{ip_str}
use qubit.Core.Host.{parse_k8s_host}
use qubit.Core.Cache.{CacheLib}
use qubit.Core.State.{
  PodInfo, DomainOwner, Result, ok, err, ebpf_event_recording_failed, EbpfNetworkEventInput, State,
}
use qubit.Core.Ebpf.{
  Resolved, filter_some, edge_key, skipped, unresolved, already, resolve_source, record_flow,
}

pub data Progress : Type 0 where
  started : EbpfNetworkEventInput → Progress
  sourced : EbpfNetworkEventInput → Resolved → Progress
  -- Envoy's cache does not know the host.
  unrouted : EbpfNetworkEventInput → Resolved → Progress
  named : EbpfNetworkEventInput → Resolved → Text × Text → Progress
  resolved : EbpfNetworkEventInput → Resolved → Resolved → Progress
  -- The edge is new and not stored yet.
  claimed : EbpfNetworkEventInput → Resolved → Resolved → Progress
  finished : Result Text → Progress

module _ (lib : CacheLib) where
  abbrev pod_of : State lib → ℕ → Option PodInfo
  pod_of s ip = lib.get PodInfo s.pod_cache (ip_str ip)

  unfoldable pub advance : State lib → Progress → State lib × Progress
  advance s (started input) =
      if contains_text input.path (codes "/health")
      then (s, finished (ok skipped))
      else elim (resolve_source lib s input) [
        | none ↦ (s, finished (ok unresolved))
        | some src ↦ (s, sourced input src)
      ]
  advance s (sourced input src) =
      elim (lib.get DomainOwner s.envoy_cache (head_of_split 58 input.host)) [
        | some owner ↦ (s, named input src owner)
        | none ↦ (s, unrouted input src)
      ]
  advance s (unrouted input src) =
      elim (filter_some (λ p. p.application_name) (pod_of s input.dst_ip)) [
        | some info ↦ (s, named input src (info.application_name, info.namespace))
        | none ↦ (s, named input src (parse_k8s_host (head_of_split 58 input.host)))
      ]
  advance s (named input src name) = (
    s,
    resolved input src (record {
      application = name.0;
      namespace = name.1;
      service = elim (filter_some (λ p. p.service_name) (pod_of s input.dst_ip)) [
        | some p ↦ p.service_name
        | none ↦ name.0
      ];
    }),
  )
  advance s (resolved input src dst) =
      let (seen, is_new_edge) = set_insert s.seen_edges (edge_key src dst) in
      let s' : State lib = record s { seen_edges = seen } in
      if s.seen_poisoned
      then (s, finished (err (ebpf_event_recording_failed (codes "seen_edges lock poisoned"))))
      else if is_new_edge
      then (s', claimed input src dst)
      else (s', finished (ok already))
  advance s (claimed input src dst) =
      let (s', answer) = record_flow lib s input src dst in (s', finished answer)
  advance s (finished answer) = (s, finished answer)

  unfoldable pub run_alone : ℕ → State lib × Progress → State lib × Progress
  run_alone zero (s, p) = (s, p)
  run_alone (suc n) (s, p) = run_alone n (advance s p)

-- The steps that a thread has before it at most.
abbrev steps_left : Progress → ℕ
steps_left (started input) = 6
steps_left (sourced input src) = 5
steps_left (unrouted input src) = 4
steps_left (named input src name) = 3
steps_left (resolved input src dst) = 2
steps_left (claimed input src dst) = 1
steps_left (finished answer) = 0

module _ (lib : CacheLib) where
  steps_left-advance :
      (s : State lib) (p : Progress)
      → (steps_left (advance lib s p).1 < steps_left p) ⊎ ((r : Result Text) × (p ≡ finished r))
  unfolding advance
  steps_left-advance s (started input) = inl (ground arith)
  steps_left-advance s (sourced input src) = inl (ground arith)
  steps_left-advance s (unrouted input src) = inl (ground arith)
  steps_left-advance s (named input src name) = inl (omega arith)
  steps_left-advance s (resolved input src dst) = inl (ground arith)
  steps_left-advance s (claimed input src dst) = inl (omega arith)
  steps_left-advance s (finished answer) = inr (answer, refl)

  -- What a thread knows after n steps of its own, which meet the given states one after the other.
  unfoldable interrupted : (ℕ → State lib) → ℕ → Progress → Progress
  interrupted states zero p = p
  interrupted states (suc n) p = interrupted (λ k. states (suc k)) n (advance lib (states 0) p).1

  finishes :
      (n : ℕ) (states : ℕ → State lib) (p : Progress)
      → steps_left p ≤ n
      → (r : Result Text) × (interrupted states n p ≡ finished r)
  unfolding interrupted advance
  finishes zero states p h = elim (steps_left-advance (states 0) p) [
    | inl fewer ↦ absurd (omega arith)
    | inr done ↦ done
  ]
  finishes (suc n) states p h = elim (steps_left-advance (states 0) p) [
    | inl fewer ↦ finishes n (λ k. states (suc k)) (advance lib (states 0) p).1 (omega arith)
    | inr (r, e) ↦
        finishes n (λ k. states (suc k)) (advance lib (states 0) p).1 (rw e (omega arith))
  ]

  -- A thread that records an event has its answer after six steps of its own, whatever states of
  -- the caches and the locks the other threads leave it at each of them.
  interrupted-finishes :
      (states : ℕ → State lib) (input : EbpfNetworkEventInput)
      → (r : Result Text) × (interrupted states 6 (started input) ≡ finished r)
  interrupted-finishes states input = finishes 6 states (started input) (omega arith)
