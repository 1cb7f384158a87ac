-- ===== src/Capture/Tests.antt =====
-- Tests of ebpf-common/src/lib.rs and ebpf-loader/src/loader/ebpf_loader.rs.
pub mod Packet
pub mod Delivery
use qubit.Base.{
  Bool, true, not, ◌&&◌, text_dec, ℕ, zero, suc, Text, codes, take, or_empty, some, [], ◌∷◌, ◌++◌,
  ◌≡◌, refl, inl, inr, arith,
}
use qubit.Capture.Parse.{
  is_host_key, to_ascii_lowercase, TcpPayloadEvent, max_payload, payload_bytes, parse_method,
  parse_path, parse_host,
}
use qubit.Capture.Parse.Laws.{IsHostFree, IsHostKey, parse_request_line, parse_host_lem}
use qubit.Capture.Filter.{zeros}
use qubit.Capture.Loader.{event_bytes, read_event, handle_tcp_event}
use qubit.Capture.Loader.Laws.{IsEvent, clipped, read_event-event_bytes, handle_tcp_event_lem}

-- "GET /items HTTP/1.1", with a header and 1024 bytes of room.
abbrev line_end : Text
line_end = 13 ∷ 10 ∷ []

abbrev request : Text
request = codes "GET /items HTTP/1.1" ++ (line_end ++ (codes "host: cart:80" ++ line_end))

abbrev event : TcpPayloadEvent
event = record {
  timestamp_ns = 7;
  src_ip = 83886090;
  dst_ip = 117440522;
  src_port = 40000;
  dst_port = 80;
  payload_len = 36;
  payload = request ++ zeros 988;
}

event-IsEvent : IsEvent event
event-IsEvent = record {
  timestamp_lt = omega arith;
  src_lt = omega arith;
  dst_lt = omega arith;
  src_port_lt = omega arith;
  dst_port_lt = omega arith;
  payload_len_lt = omega arith;
  full = omega arith;
}

holds : payload_bytes event ≡ request
unfolding payload_bytes
holds = refl

clipped_holds : payload_bytes (clipped event) ≡ request
unfolding payload_bytes
clipped_holds = refl

read_event-event_bytes_example :
    read_event (event_bytes event) ≡ record event { payload = take max_payload event.payload }
read_event-event_bytes_example = read_event-event_bytes event event-IsEvent

-- A test for the absence of the header.
abbrev host_free : Text → Text → Bool
host_free [] t = true
host_free (c ∷ s) t = not (is_host_key (c ∷ (s ++ t))) && host_free s t

host_free-IsHostFree : (s t : Text) → host_free s t ≡ true → IsHostFree s t
host_free-IsHostFree [] t h = tt
host_free-IsHostFree (c ∷ s) t h = ground (arith, host_free-IsHostFree s t)

free :
    IsHostFree
      (codes "GET /items HTTP/1.1" ++ line_end)
      (codes "host:" ++ (codes " cart:80" ++ line_end))
unfolding is_host_key to_ascii_lowercase text_dec native.Mathlib.Decide.ℕ_discrete
free =
    host_free-IsHostFree (codes "GET /items HTTP/1.1" ++ line_end)
      (codes "host:" ++ (codes " cart:80" ++ line_end)) refl

host_key : IsHostKey (codes "host:")
unfolding to_ascii_lowercase
host_key = refl

parse_host_lem_example : parse_host event ≡ some (codes "cart")
parse_host_lem_example =
    parse_host_lem event (codes "GET /items HTTP/1.1" ++ line_end) (codes "host:")
      (codes " cart:80" ++ line_end) (codes " ") 99 (codes "art") (codes ":80") 13 (10 ∷ []) holds
      refl free host_key (inl refl, tt) (omega arith) (omega arith) (inr (codes "80", refl))
      (omega arith) (omega arith) (inl refl)
