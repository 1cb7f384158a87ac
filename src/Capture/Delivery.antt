-- ===== src/Capture/Delivery.antt =====
-- ebpf-loader/src/loader/ebpf_loader.rs and ebpf-loader/src/service/qubit_aggregator.rs: the event
-- that a perf buffer holds, on its way to core. That a call reaches core is assumed.
use mathlib.Core.List.{foldl, append-nil, append_assoc}
use qubit.Base.{
  subst, take, flat_map, Option-cases, inl, List, sym, ◌∙◌, ℕ, ◌<◌, ◌%◌, ◌^◌, Text, or_empty, none,
  some, [], ◌∷◌, ◌++◌, ◌≡◌, ◌≢◌, refl, arith, Lacks, ap, inr,
}
use qubit.Core.Topology.Invariant.{HasFlow}
use qubit.Core.Cache.{CacheLib}
use qubit.Core.State.{EbpfNetworkEventInput, State, ok}
use qubit.Core.Ebpf.{Resolved, saved, record_ebpf_event}
use qubit.Core.Ebpf.Laws.{IsNew, destination, flow_of, stored_if_new, HasFlow-store}
use qubit.Core.Grpc.{EbpfNetworkEventRequest, System, idle, send_ebpf_network_event}
use qubit.Capture.Parse.{TcpPayloadEvent, payload_bytes, parse_host}
use qubit.Capture.Utf8.{IsAscii}
use qubit.Capture.Loader.{EbpfNetworkEvent, event_bytes, handle_tcp_event}
use qubit.Capture.Loader.Laws.{IsEvent, clipped, handle_tcp_event_lem}

unfoldable pub request_of : EbpfNetworkEvent → EbpfNetworkEventRequest
request_of event = record {
  timestamp_ns = event.timestamp_ns;
  src_ip = event.src_ip;
  dst_ip = event.dst_ip;
  src_port = event.src_port;
  dst_port = event.dst_port;
  method = event.method;
  path = event.path;
  host = event.host;
}

-- What core is given.
abbrev pub input_of : TcpPayloadEvent → Text → Text → EbpfNetworkEventInput
input_of event method path = record {
  timestamp_ns = event.timestamp_ns;
  src_ip = event.src_ip;
  dst_ip = event.dst_ip;
  src_port = event.src_port;
  dst_port = event.dst_port;
  method = method;
  path = path;
  host = or_empty (parse_host (clipped event));
}

-- What a read of a perf buffer yields: an error, or how many of the buffers it has filled.
pub data Read : Type 0 where
  failure : Read
  filled : ℕ → List Text → Read

fits : (x : ℕ) → x < 2 ^ 16 → x % 2 ^ 16 ≡ x
fits x h = omega arith

module _ (lib : CacheLib) where
  -- A buffer that the loader reads, and core after its message.
  unfoldable pub deliver : System lib → Text → System lib
  deliver s buf = elim (handle_tcp_event buf) [
    | none ↦ s
    | some event ↦ (send_ebpf_network_event lib s (request_of event)).0
  ]

  -- The loop over the reads of one processor's buffer, up to any point.
  unfoldable pub process_events : System lib → List Read → System lib
  process_events s [] = s
  process_events s (failure ∷ reads) = process_events s reads
  process_events s (filled n buffers ∷ reads) =
      process_events (foldl deliver s (take n buffers)) reads

  -- What core is given of one buffer.
  unfoldable pub inputs_in : Text → List EbpfNetworkEventInput
  inputs_in buf = elim (handle_tcp_event buf) [
    | none ↦ []
    | some event ↦ (send_ebpf_network_event lib (idle lib) (request_of event)).0.tasks
  ]

  abbrev pub read_inputs : Read → List EbpfNetworkEventInput
  read_inputs failure = []
  read_inputs (filled n buffers) = flat_map inputs_in (take n buffers)

  deliver-tasks :
      (s : System lib) (buf : Text) → deliver s buf ≡ record s { tasks = s.tasks ++ inputs_in buf }
  unfolding deliver inputs_in request_of send_ebpf_network_event idle
  deliver-tasks s buf = elim (Option-cases (handle_tcp_event buf)) [
    | inl nothing ↦
        rw (deliver, inputs_in, nothing)
          (ap (λ tasks. record s { tasks = tasks }) (sym (append-nil s.tasks)))
    | inr (event, e) ↦ rw (deliver, inputs_in, e) refl
  ]

  all-tasks :
      (s : System lib) (bufs : List Text)
      → foldl deliver s bufs ≡ record s { tasks = s.tasks ++ flat_map inputs_in bufs }
  unfolding flat_map
  all-tasks s [] = ap (λ tasks. record s { tasks = tasks }) (sym (append-nil s.tasks))
  all-tasks s (buf ∷ bufs) =
      ap (λ t. foldl deliver t bufs) (deliver-tasks s buf)
      ∙ (all-tasks (record s { tasks = s.tasks ++ inputs_in buf }) bufs
          ∙ ap (λ tasks. record s { tasks = tasks })
              (append_assoc s.tasks (inputs_in buf) (flat_map inputs_in bufs)))

  -- Core is given what the buffers hold, in order; a failed read loses nothing of the others.
  process_events-tasks :
      (s : System lib) (reads : List Read)
      → process_events s reads ≡ record s { tasks = s.tasks ++ flat_map read_inputs reads }
  unfolding process_events flat_map
  process_events-tasks s [] = ap (λ tasks. record s { tasks = tasks }) (sym (append-nil s.tasks))
  process_events-tasks s (failure ∷ reads) = process_events-tasks s reads
  process_events-tasks s (filled n buffers ∷ reads) =
      let bufs = take n buffers in
      ap (λ t. process_events t reads) (all-tasks s bufs)
      ∙ (process_events-tasks (record s { tasks = s.tasks ++ flat_map inputs_in bufs }) reads
          ∙ ap (λ tasks. record s { tasks = tasks })
              (append_assoc s.tasks (flat_map inputs_in bufs) (flat_map read_inputs reads)))

  deliver_lem :
      (s : System lib) (event : TcpPayloadEvent) (method path rest : Text)
      → IsEvent event
      → payload_bytes (clipped event) ≡ method ++ (32 ∷ (path ++ (32 ∷ rest)))
      → method ≢ []
      → Lacks 32 method
      → Lacks 32 path
      → IsAscii method
      → IsAscii path
      → deliver s (event_bytes event)
        ≡ record s { tasks = s.tasks ++ input_of event method path ∷ [] }
  unfolding deliver request_of send_ebpf_network_event
  deliver_lem s event method path rest h e named lm lp am ap' =
      rw (deliver, handle_tcp_event_lem event method path rest h e named lm lp am ap')
        (rw (fits event.src_port h.src_port_lt, fits event.dst_port h.dst_port_lt) refl)

  -- Tasks that wait are run, in any order, and nothing else happens.
  pub data TaskRun (s : System lib) : System lib → Type 0 where
    at_rest : TaskRun s s
    and_then :
        {t : System lib} (before after : List EbpfNetworkEventInput) (input : EbpfNetworkEventInput)
        → TaskRun s t
        → t.tasks ≡ before ++ input ∷ after
        → TaskRun s
            (record { core = (record_ebpf_event lib t.core input).0; tasks = before ++ after })

  -- Let the kernel program's memory of an event, whose fields fit their types, have a payload of
  -- at least 128 bytes that, cut to them, holds a method, a space, a path, a space and anything
  -- else, the method not empty, both ASCII without spaces, and let the event with this method and
  -- path and with the host that `parse_host` reads, or the empty text, be new for core with a
  -- resolved source. When the loader reads the memory and sends the event, core has a task for
  -- exactly this event behind the tasks that wait, and is otherwise as before. By runs of waiting
  -- tasks and nothing else core comes to the state in which this event is recorded and the tasks
  -- wait that waited before; the recording answers that the event is saved, and the graph has the
  -- flow from the source to the resolved destination, with the method and the path.
  pub deliver-recorded :
      (s : System lib) (event : TcpPayloadEvent) (method path rest : Text)
      → IsEvent event
      → payload_bytes (clipped event) ≡ method ++ (32 ∷ (path ++ (32 ∷ rest)))
      → method ≢ []
      → Lacks 32 method
      → Lacks 32 path
      → IsAscii method
      → IsAscii path
      → (src : Resolved) → IsNew lib s.core (input_of event method path) src
      → let input = input_of event method path in
        let u : System lib = record {
          core = (record_ebpf_event lib s.core input).0;
          tasks = s.tasks;
        } in
        (deliver s (event_bytes event) ≡ record s { tasks = s.tasks ++ input ∷ [] })
        × TaskRun (deliver s (event_bytes event)) u
        × ((record_ebpf_event lib s.core input).1 ≡ ok saved)
        × HasFlow u.core.topology (flow_of input src (destination lib s.core input))
  deliver-recorded s event method path rest h e named lm lp am ap' src fresh =
      let input = input_of event method path in
      let arrived = deliver_lem s event method path rest h e named lm lp am ap' in
      let dst = destination lib s.core input in
      let (answer, stored) = stored_if_new lib s.core input src fresh in
      let ran = and_then s.tasks [] input at_rest (ap (λ (x : System lib). x.tasks) arrived) in
      let core = ap (λ (x : System lib). (record_ebpf_event lib x.core input).0) arrived in
      (
        arrived,
        subst
            (λ (q : State lib × List EbpfNetworkEventInput).
              TaskRun (deliver s (event_bytes event)) (record { core = q.0; tasks = q.1 }))
            (ap (λ x. (x, s.tasks ++ [])) core
              ∙ ap (λ tasks. ((record_ebpf_event lib s.core input).0, tasks)) (append-nil s.tasks))
            ran,
        answer,
        rw stored
            ((HasFlow-store s.core.topology input src dst (flow_of input src dst)).1 (inr refl)),
      )
