-- ===== src/Capture/Loader/Laws.antt =====
-- ebpf-loader/src/loader/ebpf_loader.rs: the bytes of an event, read and written.
use qubit.Base.{
  false, Lacks, ℕ, zero, suc, ◌/◌, ◌^◌, ◌≤◌, ◌<◌, Text, ltb, length, take, drop, or_empty, some, [],
  ◌∷◌, ◌++◌, ◌≡◌, ◌≢◌, refl, arith,
}
use qubit.Capture.Utf8.{IsAscii}
use qubit.Capture.Parse.Laws.{parse_request_line}
use qubit.Capture.Parse.{TcpPayloadEvent, max_payload, payload_bytes, parse_host}
use qubit.Capture.Loader.{le_bytes, le_value, event_bytes, read_event, handle_tcp_event}

small : (n x : ℕ) → x < 256 ^ suc n → x / 256 < 256 ^ n
small n x h = omega arith

le_value-le_bytes : (n x : ℕ) → x < 256 ^ n → le_value (le_bytes n x) ≡ x
unfolding le_value le_bytes
le_value-le_bytes zero x h = omega arith
le_value-le_bytes (suc n) x h = omega (arith, le_value-le_bytes n (x / 256) (small n x h))

length-le_bytes : (n x : ℕ) → length (le_bytes n x) ≡ n
unfolding le_bytes
length-le_bytes zero x = refl
length-le_bytes (suc n) x = ground (arith, length-le_bytes n (x / 256))

take_exactly : (s t : Text) → take (length s) (s ++ t) ≡ s
take_exactly [] t = refl
take_exactly (c ∷ s) t = ground (arith, take_exactly s t)

drop_exactly : (s t : Text) → drop (length s) (s ++ t) ≡ t
drop_exactly [] t = refl
drop_exactly (c ∷ s) t = drop_exactly s t

-- The fields fit their types.
pub record IsEvent (event : TcpPayloadEvent) : Type 0 where
  pub timestamp_lt : event.timestamp_ns < 2 ^ 64
  pub src_lt : event.src_ip < 2 ^ 32
  pub dst_lt : event.dst_ip < 2 ^ 32
  pub src_port_lt : event.src_port < 2 ^ 16
  pub dst_port_lt : event.dst_port < 2 ^ 16
  pub payload_len_lt : event.payload_len < 2 ^ 16
  pub full : max_payload ≤ length event.payload

-- What the loader reads from the memory of the kernel program's event is that event with the
-- payload cut to 128 bytes, provided that the fields fit their types and the payload has at least
-- 128 bytes.
pub read_event-event_bytes :
    (event : TcpPayloadEvent)
    → IsEvent event
    → read_event (event_bytes event) ≡ record event { payload = take max_payload event.payload }
unfolding read_event event_bytes le_bytes le_value
read_event-event_bytes event h = cc (
  le_value-le_bytes 8 event.timestamp_ns h.timestamp_lt,
  le_value-le_bytes 4 event.src_ip h.src_lt,
  le_value-le_bytes 4 event.dst_ip h.dst_lt,
  le_value-le_bytes 2 event.src_port h.src_port_lt,
  le_value-le_bytes 2 event.dst_port h.dst_port_lt,
  le_value-le_bytes 2 event.payload_len h.payload_len_lt,
)

long_enough :
    (event : TcpPayloadEvent)
    → max_payload ≤ length event.payload
    → ltb (length (event_bytes event)) 152 ≡ false
unfolding event_bytes le_bytes
long_enough event h = ground arith

-- What the loader keeps of the payload.
abbrev pub clipped : TcpPayloadEvent → TcpPayloadEvent
clipped event = record event { payload = take max_payload event.payload }

-- From the memory of an event whose fields fit their types, whose payload has at least 128 bytes
-- and whose payload, cut to them, holds a method, a space, a path, a space and anything else, the
-- loader sends an event with the same time, addresses and ports, this method and path, and the
-- host that `parse_host` reads or the empty text. The method is not empty, and the method and the
-- path are ASCII without spaces.
pub handle_tcp_event_lem :
    (event : TcpPayloadEvent) (method path rest : Text)
    → IsEvent event
    → payload_bytes (clipped event) ≡ method ++ (32 ∷ (path ++ (32 ∷ rest)))
    → method ≢ []
    → Lacks 32 method
    → Lacks 32 path
    → IsAscii method
    → IsAscii path
    → handle_tcp_event (event_bytes event)
      ≡ some (record {
        timestamp_ns = event.timestamp_ns;
        src_ip = event.src_ip;
        dst_ip = event.dst_ip;
        src_port = event.src_port;
        dst_port = event.dst_port;
        method = method;
        path = path;
        host = or_empty (parse_host (clipped event));
      })
unfolding handle_tcp_event
handle_tcp_event_lem event [] path rest h e named lm lp am ap' = absurd (named refl)
handle_tcp_event_lem event (m ∷ ms) path rest h e named lm lp am ap' =
    let parsed = parse_request_line (clipped event) (m ∷ ms) path rest e lm lp am ap' in
    rw (long_enough event h.full, read_event-event_bytes event h) (rw (parsed.0, parsed.1) refl)
