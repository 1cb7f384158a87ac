-- ===== src/Capture/Tests/Delivery.antt =====
-- Tests of the way from ebpf-loader/src/loader/ebpf_loader.rs to core.
use qubit.Base.{
  [], ◌∷◌, false, some, codes, contains, contains_text, starts_with, text_eq, text_dec, ◌++◌, ◌≡◌,
  refl, arith,
}
use qubit.Base.Map
use qubit.Core.Ip.{ip_str, show, decimal, octets, from_be}
use qubit.Core.Topology.Invariant.{HasFlow}
use qubit.Core.Cache.{map_cache}
use qubit.Core.State.{EbpfNetworkEventInput, ok}
use qubit.Core.Ebpf.{filter_some, resolve_source, saved, record_ebpf_event}
use qubit.Core.Ebpf.Laws.{IsNew, destination, flow_of}
use qubit.Core.Grpc.{System}
use qubit.Core.Tests.Events.{known, shop}
use qubit.Capture.Loader.{event_bytes}
use qubit.Capture.Delivery.{input_of, deliver, TaskRun, deliver-recorded}
use qubit.Capture.Tests.{line_end, event, event-IsEvent, clipped_holds}

abbrev input : EbpfNetworkEventInput
input = input_of event (codes "GET") (codes "/items")

abbrev core : System map_cache
core = record { core = known; tasks = [] }

traffic : contains_text input.path (codes "/health") ≡ false
unfolding contains_text starts_with native.Mathlib.Decide.ℕ_discrete
traffic = refl

resolved : resolve_source map_cache known input ≡ some shop
unfolding resolve_source filter_some Map.get text_dec ip_str show decimal octets from_be
    native.Mathlib.Decide.ℕ_discrete
resolved = refl

input-IsNew : IsNew map_cache known input shop
unfolding contains
input-IsNew = record {
  traffic = traffic;
  resolved = resolved;
  unseen = refl;
  seen_usable = refl;
  topology_usable = refl;
}

deliver-recorded_example :
    let u : System map_cache = record {
      core = (record_ebpf_event map_cache known input).0;
      tasks = [];
    } in
    (deliver map_cache core (event_bytes event) ≡ record core { tasks = input ∷ [] })
    × TaskRun map_cache (deliver map_cache core (event_bytes event)) u
    × ((record_ebpf_event map_cache known input).1 ≡ ok saved)
    × HasFlow u.core.topology (flow_of input shop (destination map_cache known input))
deliver-recorded_example =
    deliver-recorded map_cache core event (codes "GET") (codes "/items")
      (codes "HTTP/1.1" ++ (line_end ++ (codes "host: cart:80" ++ line_end))) event-IsEvent
      clipped_holds (λ e. cc) (omega arith) (omega arith) (omega arith) (omega arith) shop
      input-IsNew
