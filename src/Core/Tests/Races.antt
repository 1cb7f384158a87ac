-- ===== src/Core/Tests/Races.antt =====
-- Tests of the interleavings of core/src/aggregator.
use qubit.Base.{text_eq, codes, some, [], ◌∷◌, ◌≡◌, ◌≢◌, refl, ap}
use qubit.Core.Ip.{ip_str, show, decimal, octets, from_be}
use qubit.Core.Topology.{NodeId, stale_id}
use qubit.Core.Topology.Closed.{HasNode, new-IsSound}
use qubit.Core.Cache.{map_cache}
use qubit.Core.State.{PodInfo}
use qubit.Core.Ebpf.Phases.{started}
use qubit.Core.Grpc.Threads.{Threads, Moves}
use qubit.Core.Grpc.Late.{report_first, store_first, late_flow-stale}
use qubit.Core.Tests.{prod}
use qubit.Core.Tests.Events.{known, event, shop, stock_ip, event-IsNew, event-IsUnknown}

-- The thread of the event has just begun.
abbrev begun : Threads map_cache
begun = record { core = known; running = started event ∷ []; calls = [] }

no_address : codes "10.0.0.7" ≢ codes "stock"
no_address e = cc

apart : stale_id (ip_str stock_ip) ≢ record { application_name = codes "stock"; namespace = prod }
unfolding ip_str show decimal octets from_be
apart e = no_address (ap (λ (n : NodeId). n.application_name) e)

late_flow-stale_example :
    let late = report_first map_cache begun [] [] event shop prod (codes "stock") [] [] in
    let early = store_first map_cache begun [] [] event shop prod (codes "stock") [] [] in
    let pod : PodInfo = record {
      namespace = prod;
      application_name = codes "stock";
      service_name = [];
      service_type = [];
    } in
    Moves map_cache begun late
    × Moves map_cache begun early
    × HasNode late.core.topology (stale_id (ip_str stock_ip))
    × (¬ HasNode early.core.topology (stale_id (ip_str stock_ip)))
    × (map_cache.get PodInfo late.core.pod_cache (ip_str stock_ip) ≡ some pod)
    × (map_cache.get PodInfo early.core.pod_cache (ip_str stock_ip) ≡ some pod)
late_flow-stale_example =
    late_flow-stale map_cache begun [] [] event shop prod (codes "stock") [] [] refl new-IsSound
      event-IsNew event-IsUnknown (λ e. cc) apart
