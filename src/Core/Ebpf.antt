-- ===== src/Core/Ebpf.antt =====
-- core/src/aggregator/ebpf_aggregator.rs, `record_ebpf_event`: from an event of the loader to an
-- edge of the topology. The answers are the texts that the program returns.
pub mod Laws
pub mod Repeat
pub mod Stored
pub mod Phases
use qubit.Base.{
  ℕ, Text, text_dec, text_eq, codes, contains_text, head_of_split, set_insert, is_empty, ◌==◌,
  if◌then◌else◌, Bool, true, false, not, Option, none, some, List, [], ◌∷◌, ◌++◌,
}
use qubit.Core.Ip.{ip_str}
use qubit.Core.Host.{parse_k8s_host}
use qubit.Core.Topology.{NodeId, NodeData, Flow, Topology, add_node, add_flow}
use qubit.Core.Cache.{CacheLib}
use qubit.Core.State.{
  PodInfo, DomainOwner, Error, ebpf_event_recording_failed, Result, ok, err, EbpfNetworkEventInput,
  State,
}

-- `cache.get(&ip).filter(|p| !field.is_empty())`
unfoldable pub filter_some : (PodInfo → Text) → Option PodInfo → Option PodInfo
filter_some field none = none
filter_some field (some p) = if is_empty (field p) then none else some p

-- An endpoint whose data has been resolved.
pub record Resolved : Type 0 where
  pub application : Text
  pub namespace : Text
  pub service : Text

-- "{ns}/{svc} -> {ns}/{svc}"
unfoldable pub edge_key : Resolved → Resolved → Text
edge_key src dst =
    src.namespace
    ++ (codes "/"
        ++ (src.service ++ (codes " -> " ++ (dst.namespace ++ (codes "/" ++ dst.service)))))

abbrev pub node_of : Resolved → NodeId
node_of r = record { application_name = r.application; namespace = r.namespace }

unfoldable pub skipped : Text
skipped = codes "Skipping health check event!"

-- The source is not in the cache; the program's text has a dash that is no ASCII character.
unfoldable pub unresolved : Text
unresolved = codes "unresolved source " ++ (226 ∷ 128 ∷ 148 ∷ codes " waiting for pod event")

unfoldable pub already : Text
already = codes "node already exists!"

unfoldable pub saved : Text
saved = codes "saved event!"

abbrev new_data : Text → NodeData
new_data ip = record { ip = ip; k8s_events = [] }

-- what the block under the topology's lock does
unfoldable pub store : Topology → EbpfNetworkEventInput → Resolved → Resolved → Topology
store t input src dst =
    let with_source = add_node t (node_of src) (new_data (ip_str input.src_ip)) in
    let with_both = add_node with_source (node_of dst) (new_data (ip_str input.dst_ip)) in
    add_flow with_both (record {
      source_node = node_of src;
      destination_node = node_of dst;
      path = input.path;
      method = input.method;
    })

module _ (lib : CacheLib) where
  -- the service of the source, or of the destination with the application's name as a default
  unfoldable pub resolve_source : State lib → EbpfNetworkEventInput → Option Resolved
  resolve_source s input =
      elim (filter_some (λ p. p.application_name)
        (lib.get PodInfo s.pod_cache (ip_str input.src_ip))) [
          | none ↦ none
          | some p ↦ some (record {
            application = p.application_name;
            namespace = p.namespace;
            service = p.service_name;
          })
        ]

  -- Envoy's cache first, then the pod cache, then the name itself
  unfoldable pub resolve_name : State lib → EbpfNetworkEventInput → Text × Text
  resolve_name s input =
      let host = head_of_split 58 input.host in
      elim (lib.get DomainOwner s.envoy_cache host) [
        | some owner ↦ owner
        | none ↦
            elim (filter_some (λ p. p.application_name)
              (lib.get PodInfo s.pod_cache (ip_str input.dst_ip))) [
                | some info ↦ (info.application_name, info.namespace)
                | none ↦ parse_k8s_host host
              ]
      ]

  unfoldable pub resolve_destination : State lib → EbpfNetworkEventInput → Resolved
  resolve_destination s input =
      let name = resolve_name s input in
      record {
        application = name.0;
        namespace = name.1;
        service =
            elim (filter_some (λ p. p.service_name)
              (lib.get PodInfo s.pod_cache (ip_str input.dst_ip))) [
                | some p ↦ p.service_name
                | none ↦ name.0
              ];
      }

  -- under the lock of the topology
  unfoldable pub record_flow :
      State lib → EbpfNetworkEventInput → Resolved → Resolved → State lib × Result Text
  record_flow s input src dst =
      if s.topology_poisoned
      then (s, err (ebpf_event_recording_failed (codes "topology lock poisoned")))
      else (record s { topology = store s.topology input src dst }, ok saved)

  unfoldable pub record_edge :
      State lib → EbpfNetworkEventInput → Resolved → Resolved → State lib × Result Text
  record_edge s input src dst =
      let (seen, is_new_edge) = set_insert s.seen_edges (edge_key src dst) in
      if s.seen_poisoned
      then (s, err (ebpf_event_recording_failed (codes "seen_edges lock poisoned")))
      else if is_new_edge
      then record_flow (record s { seen_edges = seen }) input src dst
      else (record s { seen_edges = seen }, ok already)

  unfoldable pub record_ebpf_event : State lib → EbpfNetworkEventInput → State lib × Result Text
  record_ebpf_event s input =
      if contains_text input.path (codes "/health")
      then (s, ok skipped)
      else elim (resolve_source s input) [
        | none ↦ (s, ok unresolved)
        | some src ↦ record_edge s input src (resolve_destination s input)
      ]
