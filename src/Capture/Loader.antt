-- ===== src/Capture/Loader.antt =====
-- ebpf-loader/src/loader/ebpf_loader.rs: from the bytes of a perf event to the message for core. The
-- kernel program and the loader run on one little-endian machine and lay the event out as C does.
pub mod Laws
use qubit.Base.{
  ℕ, zero, suc, ◌+◌, ◌*◌, ◌/◌, ◌%◌, Text, ltb, length, take, drop, is_empty, or_empty,
  if◌then◌else◌, Option, none, some, List, [], ◌∷◌, ◌++◌,
}
use qubit.Capture.Parse.{TcpPayloadEvent, max_payload, parse_method, parse_path, parse_host}

-- an integer of n bytes in memory
unfoldable pub le_bytes : ℕ → ℕ → Text
le_bytes zero x = []
le_bytes (suc n) x = x % 256 ∷ le_bytes n (x / 256)

unfoldable pub le_value : Text → ℕ
le_value [] = 0
le_value (c ∷ s) = c + 256 * le_value s

-- The memory of the event: the kernel program's has a longer payload.
unfoldable pub event_bytes : TcpPayloadEvent → Text
event_bytes event =
    le_bytes 8 event.timestamp_ns
    ++ (le_bytes 4 event.src_ip
        ++ (le_bytes 4 event.dst_ip
            ++ (le_bytes 2 event.src_port
                ++ (le_bytes 2 event.dst_port
                    ++ (le_bytes 2 event.payload_len ++ (le_bytes 2 0 ++ event.payload))))))

-- `size_of::<TcpPayloadEvent>()`
abbrev pub size_of_event : ℕ
size_of_event = 24 + max_payload

-- `read_unaligned`
unfoldable pub read_event : Text → TcpPayloadEvent
read_event buf = record {
  timestamp_ns = le_value (take 8 buf);
  src_ip = le_value (take 4 (drop 8 buf));
  dst_ip = le_value (take 4 (drop 12 buf));
  src_port = le_value (take 2 (drop 16 buf));
  dst_port = le_value (take 2 (drop 18 buf));
  payload_len = le_value (take 2 (drop 20 buf));
  payload = take max_payload (drop 24 buf);
}

pub record EbpfNetworkEvent : Type 0 where
  pub timestamp_ns : ℕ
  pub src_ip : ℕ
  pub dst_ip : ℕ
  pub src_port : ℕ
  pub dst_port : ℕ
  pub method : Text
  pub path : Text
  pub host : Text

-- the event that is sent to core, if any
unfoldable pub handle_tcp_event : Text → Option EbpfNetworkEvent
handle_tcp_event buf =
    let event = read_event buf in
    let method = or_empty (parse_method event) in
    if ltb (length buf) size_of_event
    then none
    else if is_empty method
    then none
    else some (record {
      timestamp_ns = event.timestamp_ns;
      src_ip = event.src_ip;
      dst_ip = event.dst_ip;
      src_port = event.src_port;
      dst_port = event.dst_port;
      method = method;
      path = or_empty (parse_path event);
      host = or_empty (parse_host event);
    })
