-- ===== src/Capture/Tests/Packet.antt =====
-- Tests of `http_filter` in ebpf/src/main.rs, on a packet that is a list of bytes.
use qubit.Base.{
  ℕ, zero, suc, ◌+◌, ◌≤◌, Text, nat_eq, ltb, take, drop, length, codes, if◌then◌else◌, Bool-cases,
  Option, none, some, [], ◌∷◌, ◌++◌, ◌≡◌, refl, inl, inr, arith, subst,
}
use qubit.Capture.Parse.{TcpPayloadEvent}
use qubit.Capture.Loader.{le_value}
use qubit.Capture.Filter.{
  AreBytes, Skb, zeros, clamp, from_be16, load_int, emit, capture, try_http_filter,
}
use qubit.Capture.Filter.Laws.{IsCaptured, try_http_filter-IsCaptured}

length-drop : (n m : ℕ) (s : Text) → n + m ≤ length s → m ≤ length (drop n s)
length-drop zero m s h = omega (arith, h)
length-drop (suc n) m [] h = absurd (omega (arith, h))
length-drop (suc n) m (c ∷ s) h = length-drop n m s (omega (arith, h))

length-take : (n : ℕ) (s : Text) → n ≤ length s → length (take n s) ≡ n
length-take zero s h = refl
length-take (suc n) [] h = absurd (omega (arith, h))
length-take (suc n) (c ∷ s) h = omega (arith, length-take n s (omega (arith, h)))

drop-AreBytes : (n : ℕ) (s : Text) → AreBytes s → AreBytes (drop n s)
drop-AreBytes zero s h = h
drop-AreBytes (suc n) [] h = tt
drop-AreBytes (suc n) (c ∷ s) h = drop-AreBytes n s h.1

take-AreBytes : (n : ℕ) (s : Text) → AreBytes s → AreBytes (take n s)
take-AreBytes zero s h = tt
take-AreBytes (suc n) [] h = tt
take-AreBytes (suc n) (c ∷ s) h = (h.0, take-AreBytes n s h.1)

module _ (packet : Text) where
  abbrev load_from : ℕ → ℕ → Option Text
  load_from offset n =
      if ltb (length packet) (offset + n) then none else some (take n (drop offset packet))

  inside :
      (offset n : ℕ) (s : Text)
      → load_from offset n ≡ some s
      → (offset + n ≤ length packet) × (take n (drop offset packet) ≡ s)
  inside offset n s h = elim (Bool-cases (ltb (length packet) (offset + n))) [
    | inl outside ↦ ground arith
    | inr within ↦ ground arith
  ]

  abbrev skb_of : AreBytes packet → Skb
  skb_of bytes = record {
    len = length packet;
    load = load_from;
    length-load = λ offset n s h.
        let (fits, e) = inside offset n s h in
        subst (λ (x : Text). length x ≡ n) e (length-take n _ (length-drop offset n packet fits));
    load-AreBytes = λ offset n s h.
        subst AreBytes (inside offset n s h).1
          (take-AreBytes n _ (drop-AreBytes offset packet bytes));
  }

-- Ethernet, IPv4 and TCP headers without options, and a request.
abbrev packet : Text
packet =
    zeros 12
    ++ (8 ∷ 0 ∷ 69 ∷ zeros 8
        ++ (6 ∷ 0 ∷ 0 ∷ 10 ∷ 0 ∷ 0 ∷ 5 ∷ 10 ∷ 0 ∷ 0 ∷ 7 ∷ 156 ∷ 64 ∷ 0 ∷ 80 ∷ zeros 8
            ++ (80 ∷ zeros 7 ++ codes "GET / HTTP/1.1")))

packet-AreBytes : AreBytes packet
packet-AreBytes = omega arith

abbrev captured : TcpPayloadEvent
captured = record {
  timestamp_ns = 9;
  src_ip = 83886090;
  dst_ip = 117440522;
  src_port = 40000;
  dst_port = 80;
  payload_len = 14;
  payload = codes "GET / HTTP/1.1" ++ zeros 1010;
}

runs : try_http_filter (skb_of packet packet-AreBytes) 9 ≡ some captured
unfolding try_http_filter capture emit load_int le_value from_be16 clamp
    native.Mathlib.Decide.ℕ_discrete
runs = refl

try_http_filter-IsCaptured_example : IsCaptured captured
try_http_filter-IsCaptured_example =
    try_http_filter-IsCaptured (skb_of packet packet-AreBytes) 9 captured runs
