-- ===== src/Capture/Filter.antt =====
-- ebpf/src/main.rs, `http_filter`: which packets become events. The packet is the kernel's: its
-- length and the reading of bytes at an offset, which fails outside it, are a parameter. The filter
-- answers 0 in every case, so its outcome is the event that it hands over, if any.
pub mod Laws
use qubit.Base.{
  ℕ, zero, suc, ◌+◌, ◌-◌, ◌*◌, ◌/◌, ◌%◌, ◌^◌, ◌<◌, Text, nat_eq, ltb, leb, ◌==◌, ◌&&◌, ◌||◌, not,
  ◌>>=◌, length, if◌then◌else◌, Bool, true, false, Option, none, some, List, [], ◌∷◌, ◌++◌, ◌≡◌,
}
use qubit.Capture.Parse.{TcpPayloadEvent}
use qubit.Capture.Loader.{le_value}

abbrev pub AreBytes : Text → Type 0
AreBytes [] = Unit
AreBytes (c ∷ s) = (c < 256) × AreBytes s

-- `ctx.load` and `bpf_skb_load_bytes` give the number of bytes that is asked for.
pub record Skb : Type 0 where
  pub len : ℕ
  pub load : ℕ → ℕ → Option Text
  pub length-load : (offset n : ℕ) (s : Text) → load offset n ≡ some s → length s ≡ n
  pub load-AreBytes : (offset n : ℕ) (s : Text) → load offset n ≡ some s → AreBytes s

-- `MAX_PAYLOAD` of the kernel program
abbrev pub kernel_payload : ℕ
kernel_payload = 1024

-- `u16::from_be`
unfoldable pub from_be16 : ℕ → ℕ
from_be16 x = x % 256 * 256 + x / 256 % 256

-- an early `return Ok(0)` where the test fails
abbrev pub check : {A : Type 0} → Bool → Option A → Option A
check b rest = if b then rest else none

abbrev pub zeros : ℕ → Text
zeros zero = []
zeros (suc n) = 0 ∷ zeros n

unfoldable pub clamp : ℕ → ℕ
clamp avail = if ltb avail kernel_payload then avail else kernel_payload

module _ (skb : Skb) (now : ℕ) where
  -- an integer as the machine reads it
  unfoldable pub load_int : ℕ → ℕ → Option ℕ
  load_int offset n = do bytes ← skb.load offset n; some (le_value bytes)

  -- from the addresses on
  unfoldable pub emit : ℕ → ℕ → ℕ → ℕ → Option TcpPayloadEvent
  emit src_port dst_port payload_offset copy_len = do
    src_ip ← load_int 26 4
    dst_ip ← load_int 30 4
    bytes ← skb.load payload_offset copy_len
    some (record {
      timestamp_ns = now % 2 ^ 64;
      src_ip = src_ip;
      dst_ip = dst_ip;
      src_port = src_port;
      dst_port = dst_port;
      payload_len = copy_len % 2 ^ 16;
      payload = bytes ++ zeros (kernel_payload - copy_len);
    })

  -- from the payload on
  unfoldable pub capture : ℕ → ℕ → ℕ → Option TcpPayloadEvent
  capture src_port dst_port payload_offset =
      let copy_len = clamp (skb.len - payload_offset) in
      check (ltb payload_offset skb.len) (
        check (not (copy_len == 0 || ltb kernel_payload copy_len)) (do
          first_byte ← load_int payload_offset 1
          check (leb 65 first_byte && leb first_byte 90)
              (emit src_port dst_port payload_offset copy_len)))

  unfoldable pub try_http_filter : Option TcpPayloadEvent
  try_http_filter = do
    eth_proto ← load_int 12 2
    check (from_be16 eth_proto == 2048) (do
      ip_proto ← load_int 23 1
      check (ip_proto == 6) (do
        ip_ihl ← load_int 14 1
        let tcp_start = 14 + ip_ihl % 16 * 4
        raw_dst ← load_int (tcp_start + 2) 2
        check (from_be16 raw_dst == 80 || from_be16 raw_dst == 8080) (do
          raw_src ← load_int tcp_start 2
          tcp_data_off ← load_int (tcp_start + 12) 1
          capture (from_be16 raw_src) (from_be16 raw_dst) (tcp_start + tcp_data_off / 16 * 4))))
