-- ===== src/Core/Tests/Events.antt =====
-- Tests of core/src/aggregator and core/src/server/grpc.rs.
use qubit.Base.{
  ℕ, codes, text_dec, text_eq, contains, contains_text, starts_with, cut, none, some, [], ◌∷◌, ◌++◌,
  head_of_split, false, ◌≡◌, ◌≢◌, ◌↔◌, ◌⊎◌, refl, ap,
}
use qubit.Base.Map
use qubit.Core.Ip.{ip_str, show, decimal, octets, from_be}
use qubit.Core.Topology.{NodeId, Flow, stale_id}
use qubit.Core.Topology.Invariant.{HasFlow}
use qubit.Core.Topology.Closed.{new-IsSound}
use qubit.Core.Cache.{map_cache}
use qubit.Core.State.{EbpfNetworkEventInput, ok, State, init}
use qubit.Core.Ebpf.{
  filter_some, resolve_destination, resolve_name, Resolved, node_of, saved, edge_key,
  resolve_source, record_ebpf_event,
}
use qubit.Core.Ebpf.Repeat.{same_services_dropped}
use qubit.Core.Ebpf.Laws.{IsNew, destination, flow_of, outcome, record_ebpf_event_lem}
use qubit.Core.K8s.{record_pod_applied}
use qubit.Core.K8s.Laws.{IsUnknown, heal}
use qubit.Core.Grpc.Directory.{entry_of, report_of, last_report, Reach-last_report}
use qubit.Core.Grpc.{
  EbpfNetworkEventRequest, PodEventRequest, send_pod_event, try_event_type, System, idle,
  send_ebpf_network_event,
}
use qubit.Core.Grpc.Interleaving.{Reach, here, next, ebpf, pod, task}
use qubit.Core.Tests.{prod, items}

-- 10.0.0.5 and 10.0.0.7, in the byte order of the packet
abbrev pub shop_ip : ℕ
shop_ip = 83886090

abbrev pub stock_ip : ℕ
stock_ip = 117440522

-- The pod of the shop is known.
abbrev pub known : State map_cache
known = record (init map_cache) {
  pod_cache =
      (
        (codes "10.0.0.5"),
        record {
          namespace = prod;
          application_name = codes "shop";
          service_name = codes "shop-svc";
          service_type = codes "ClusterIP";
        },
      )
      ∷ [];
}

abbrev pub event : EbpfNetworkEventInput
event = record {
  timestamp_ns = 1;
  src_ip = shop_ip;
  dst_ip = stock_ip;
  src_port = 40000;
  dst_port = 80;
  method = codes "GET";
  path = items;
  host = codes "10.0.0.7:80";
}

abbrev pub shop : Resolved
shop = record { application = codes "shop"; namespace = prod; service = codes "shop-svc" }

addresses : (ip_str shop_ip ≡ codes "10.0.0.5") × (ip_str stock_ip ≡ codes "10.0.0.7")
unfolding ip_str show decimal octets from_be
addresses = (refl, refl)

traffic : contains_text items (codes "/health") ≡ false
unfolding contains_text starts_with native.Mathlib.Decide.ℕ_discrete
traffic = refl

resolved : resolve_source map_cache known event ≡ some shop
unfolding resolve_source filter_some Map.get text_dec ip_str show decimal octets from_be
    native.Mathlib.Decide.ℕ_discrete
resolved = refl

pub event-IsNew : IsNew map_cache known event shop
unfolding contains
event-IsNew = record {
  traffic = traffic;
  resolved = resolved;
  unseen = refl;
  seen_usable = refl;
  topology_usable = refl;
}

pub event-IsUnknown : IsUnknown map_cache known event
unfolding head_of_split cut Map.get text_dec ip_str show decimal octets from_be
    native.Mathlib.Decide.ℕ_discrete
event-IsUnknown = record { by_address = refl; no_route = refl; no_pod = refl }

no_dots : codes "shop" ≢ codes "10.0.0.7"
no_dots e = cc

apart : node_of shop ≢ stale_id (ip_str stock_ip)
unfolding ip_str show decimal octets from_be
apart e = no_dots (ap (λ (n : NodeId). n.application_name) e)

heal_example :
    HasFlow
      (record_pod_applied map_cache
        (record_ebpf_event map_cache known event).0
        (ip_str stock_ip)
        prod
        (codes "stock")
        (codes "stock-svc")
        (codes "ClusterIP")).topology
      (record {
        source_node = node_of shop;
        destination_node = record { application_name = codes "stock"; namespace = prod };
        path = items;
        method = codes "GET";
      })
heal_example =
    heal map_cache known event new-IsSound shop event-IsNew event-IsUnknown prod (codes "stock")
      (codes "stock-svc") (codes "ClusterIP") (λ e. cc) apart

record_ebpf_event_lem_example :
    ((f : Flow)
      → HasFlow (outcome map_cache known event).0.topology f ↔ (
          HasFlow known.topology f
          ⊎ ((src : Resolved) × IsNew map_cache known event src
              × (f ≡ flow_of event src (destination map_cache known event)))))
    × (((outcome map_cache known event).1 ≡ ok saved)
        ↔ ((src : Resolved) × IsNew map_cache known event src))
record_ebpf_event_lem_example = record_ebpf_event_lem map_cache known event

-- A second event, to another path of the same service.
abbrev other : EbpfNetworkEventInput
other = record event { path = codes "/orders" }

other_resolved : resolve_source map_cache known other ≡ some shop
unfolding resolve_source
other_resolved = resolved

same_key :
    edge_key shop (destination map_cache known other)
    ≡ edge_key shop (destination map_cache known event)
unfolding resolve_destination resolve_name
same_key = refl

same_services_dropped_example :
    let t = (record_ebpf_event map_cache known event).0 in
    let f = flow_of other shop (destination map_cache known other) in
    HasFlow (record_ebpf_event map_cache t other).0.topology f
    ↔ (HasFlow known.topology f ⊎ (f ≡ flow_of event shop (destination map_cache known event)))
same_services_dropped_example =
    same_services_dropped map_cache known event other shop shop event-IsNew other_resolved same_key

abbrev request : EbpfNetworkEventRequest
request = record {
  timestamp_ns = 1;
  src_ip = shop_ip;
  dst_ip = stock_ip;
  src_port = 40000;
  dst_port = 80;
  method = codes "GET";
  path = items;
  host = codes "10.0.0.7:80";
}

-- A call, and then its task.
abbrev called : System map_cache
called = (send_ebpf_network_event map_cache (idle map_cache) request).0

one_task : called.tasks ≡ [] ++ event ∷ []
unfolding send_ebpf_network_event
one_task = refl

abbrev stock_pod : PodEventRequest
stock_pod = record {
  pod_ip = codes "10.0.0.7";
  namespace = prod;
  event_type = 0;
  application_name = codes "stock";
  service_name = codes "stock-svc";
  service_type = codes "ClusterIP";
}

-- A call of the loader, a report on a pod, and the call's task.
abbrev reported : System map_cache
reported = (send_pod_event map_cache called stock_pod).0

still_waiting : reported.tasks ≡ [] ++ event ∷ []
unfolding send_ebpf_network_event send_pod_event try_event_type
still_waiting = refl

abbrev run :
    Reach map_cache
      (idle map_cache)
      (record { core = (record_ebpf_event map_cache reported.core event).0; tasks = [] })
run =
    next (next (next here (ebpf (idle map_cache) request)) (pod called stock_pod))
      (task reported [] [] event still_waiting)

Reach-last_report_example :
    entry_of map_cache (record_ebpf_event map_cache reported.core event).0 (codes "10.0.0.7")
    ≡ last_report (report_of stock_pod) (codes "10.0.0.7") none
unfolding Map.get native.Mathlib.Decide.ℕ_discrete
Reach-last_report_example = Reach-last_report map_cache run (codes "10.0.0.7")
