-- ===== src/Capture/Filter/Laws.antt =====
-- ebpf/src/main.rs, `http_filter`: what holds of every event that it hands over.
use mathlib.Core.Option.{some-injective}
use native.Mathlib.Omega.{pow_step}
use qubit.Base.{
  subst, ℕ, zero, suc, ◌+◌, ◌-◌, ◌*◌, ◌/◌, ◌%◌, ◌^◌, ◌<◌, ◌≤◌, Text, nat_eq, ltb, leb, ◌==◌, ◌&&◌,
  ◌||◌, not, ◌>>=◌, length, length-append, Bool, true, false, Option, none, some, [], ◌∷◌, ◌++◌,
  ◌≡◌, ◌⊎◌, refl, arith,
}
use qubit.Capture.Parse.{TcpPayloadEvent}
use qubit.Capture.Loader.{le_value}
use qubit.Capture.Loader.Laws.{IsEvent}
use qubit.Capture.Filter.{
  AreBytes, Skb, kernel_payload, from_be16, check, zeros, clamp, load_int, emit, capture,
  try_http_filter,
}

some_of_bind :
    {A B : Type 0} (m : Option A) (f : A → Option B) (b : B)
    → (m >>= f) ≡ some b
    → (a : A) × (m ≡ some a) × (f a ≡ some b)
some_of_bind none f b h = cc
some_of_bind (some a) f b h = (a, refl, h)

some_of_check :
    {A : Type 0} (t : Bool) (m : Option A) (a : A) → check t m ≡ some a → (t ≡ true) × (m ≡ some a)
some_of_check true m a h = (refl, h)
some_of_check false m a h = cc

le_value_lt : (s : Text) → AreBytes s → le_value s < 256 ^ length s
unfolding le_value
le_value_lt [] h = omega arith
le_value_lt (c ∷ s) h = omega (arith, le_value_lt s h.1, pow_step 256 (length s))

length-zeros : (n : ℕ) → length (zeros n) ≡ n
length-zeros zero = refl
length-zeros (suc n) = omega (arith, length-zeros n)

-- What holds of an event that is handed over.
pub record IsCaptured (event : TcpPayloadEvent) : Type 0 where
  pub fits : IsEvent event
  pub to_http : (event.dst_port ≡ 80) ⊎ (event.dst_port ≡ 8080)
  pub room : length event.payload ≡ kernel_payload
  pub some_payload : 1 ≤ event.payload_len
  pub within : event.payload_len ≤ kernel_payload

module _ (skb : Skb) (now : ℕ) where
  load_int_lt : (offset n v : ℕ) → load_int skb now offset n ≡ some v → v < 256 ^ n
  unfolding load_int
  load_int_lt offset n v h =
      let (s, loaded, e) = some_of_bind (skb.load offset n) _ v h in
      subst (λ (x : ℕ). x < 256 ^ n) (some-injective _ _ e)
        (subst (λ (k : ℕ). le_value s < 256 ^ k) (skb.length-load offset n s loaded)
          (le_value_lt s (skb.load-AreBytes offset n s loaded)))

  abbrev built : ℕ → ℕ → ℕ → ℕ → ℕ → Text → TcpPayloadEvent
  built src dst src_port dst_port copy_len bytes = record {
    timestamp_ns = now % 2 ^ 64;
    src_ip = src;
    dst_ip = dst;
    src_port = src_port;
    dst_port = dst_port;
    payload_len = copy_len % 2 ^ 16;
    payload = bytes ++ zeros (kernel_payload - copy_len);
  }

  emit_lem :
      (src_port dst_port payload_offset copy_len : ℕ) (event : TcpPayloadEvent)
      → emit skb now src_port dst_port payload_offset copy_len ≡ some event
      → (src : ℕ) × (dst : ℕ) × (bytes : Text) × (src < 2 ^ 32)
        × (dst < 2 ^ 32)
        × (length bytes ≡ copy_len)
        × (built src dst src_port dst_port copy_len bytes ≡ event)
  unfolding emit
  emit_lem src_port dst_port payload_offset copy_len event h =
      let (src, at_src, h1) = some_of_bind (load_int skb now 26 4) _ event h in
      let (dst, at_dst, h2) = some_of_bind (load_int skb now 30 4) _ event h1 in
      let (bytes, at_payload, h3) = some_of_bind (skb.load payload_offset copy_len) _ event h2 in
      (
        src,
        dst,
        bytes,
        load_int_lt 26 4 src at_src,
        load_int_lt 30 4 dst at_dst,
        skb.length-load payload_offset copy_len bytes at_payload,
        some-injective _ _ h3,
      )

  built-IsCaptured :
      (src dst src_port dst_port copy_len : ℕ) (bytes : Text)
      → src < 2 ^ 32
      → dst < 2 ^ 32
      → src_port < 2 ^ 16
      → dst_port < 2 ^ 16
      → (dst_port ≡ 80) ⊎ (dst_port ≡ 8080)
      → 1 ≤ copy_len
      → copy_len ≤ kernel_payload
      → length bytes ≡ copy_len
      → IsCaptured (built src dst src_port dst_port copy_len bytes)
  built-IsCaptured src dst src_port dst_port copy_len bytes a b c d http low high size =
      let full : length (bytes ++ zeros (kernel_payload - copy_len)) ≡ kernel_payload = omega (
        arith,
        length-append bytes (zeros (kernel_payload - copy_len)),
        length-zeros (kernel_payload - copy_len),
      ) in
      record {
        fits = record {
          timestamp_lt = omega arith;
          src_lt = a;
          dst_lt = b;
          src_port_lt = c;
          dst_port_lt = d;
          payload_len_lt = omega arith;
          full = omega (arith, full);
        };
        to_http = http;
        room = full;
        some_payload = omega arith;
        within = omega arith;
      }

  capture-IsCaptured :
      (src_port dst_port payload_offset : ℕ) (event : TcpPayloadEvent)
      → src_port < 2 ^ 16
      → dst_port < 2 ^ 16
      → (dst_port ≡ 80) ⊎ (dst_port ≡ 8080)
      → capture skb now src_port dst_port payload_offset ≡ some event
      → IsCaptured event
  unfolding capture
  capture-IsCaptured src_port dst_port payload_offset event c d http h =
      let copy_len = clamp (skb.len - payload_offset) in
      let (inside, h1) = some_of_check (ltb payload_offset skb.len) _ event h in
      let (positive, h2) =
        some_of_check (not (copy_len == 0 || ltb kernel_payload copy_len)) _ event h1 in
      let (first, loaded, h3) = some_of_bind (load_int skb now payload_offset 1) _ event h2 in
      let (upper, h4) = some_of_check (leb 65 first && leb first 90) _ event h3 in
      let (src, dst, bytes, a, b, size, e) =
        emit_lem src_port dst_port payload_offset copy_len event h4 in
      subst IsCaptured e (
        built-IsCaptured src dst src_port dst_port copy_len bytes a b c d http
          (ground (arith, positive)) (ground (arith, positive)) size)

  from_be16_lt : (x : ℕ) → from_be16 x < 2 ^ 16
  unfolding from_be16
  from_be16_lt x = omega arith

  -- Every event that the filter hands over fits the types of its fields, goes to port 80 or 8080,
  -- and has 1024 bytes of payload of which between 1 and 1024 count. The kernel's reads give as
  -- many bytes as are asked for.
  pub try_http_filter-IsCaptured :
      (event : TcpPayloadEvent) → try_http_filter skb now ≡ some event → IsCaptured event
  unfolding try_http_filter
  try_http_filter-IsCaptured event h =
      let (proto, p1, h1) = some_of_bind (load_int skb now 12 2) _ event h in
      let (ipv4, h2) = some_of_check (from_be16 proto == 2048) _ event h1 in
      let (ip, p2, h3) = some_of_bind (load_int skb now 23 1) _ event h2 in
      let (tcp, h4) = some_of_check (ip == 6) _ event h3 in
      let (ihl, p3, h5) = some_of_bind (load_int skb now 14 1) _ event h4 in
      let (dst, p4, h6) = some_of_bind (load_int skb now (14 + ihl % 16 * 4 + 2) 2) _ event h5 in
      let (http, h7) = some_of_check (from_be16 dst == 80 || from_be16 dst == 8080) _ event h6 in
      let (src, p5, h8) = some_of_bind (load_int skb now (14 + ihl % 16 * 4) 2) _ event h7 in
      let (off, p6, h9) = some_of_bind (load_int skb now (14 + ihl % 16 * 4 + 12) 1) _ event h8 in
      capture-IsCaptured (from_be16 src) (from_be16 dst) (14 + ihl % 16 * 4 + off / 16 * 4) event
        (from_be16_lt src) (from_be16_lt dst) (ground (arith, http)) h9
