-- ===== src/Capture/Parse/Line.antt =====
-- ebpf-common/src/lib.rs: the first line of a request.
use qubit.Base.{Text, Lacks, Lacks-append, cut_found, [], ◌∷◌, ◌++◌, ◌≡◌, ap, arith}
use qubit.Capture.Utf8.{IsAscii}
use qubit.Capture.Parse.{TcpPayloadEvent, payload_bytes, strip_return, payload_str}

strip_return-return : (line : Text) → strip_return (line ++ 13 ∷ []) ≡ line
unfolding strip_return
strip_return-return [] = ground arith
strip_return-return (c ∷ []) = ground arith
strip_return-return (c ∷ d ∷ line) = ap (λ s. c ∷ s) (strip_return-return (d ∷ line))

-- If the payload is in ASCII and the conversion leaves such text as it is, `payload_str` is what
-- stands before the first line feed, less the carriage return there.
payload_str_lem :
    (from_utf8_lossy : Text → Text) (event : TcpPayloadEvent) (line rest : Text)
    → ((s : Text) → IsAscii s → from_utf8_lossy s ≡ s)
    → payload_bytes event ≡ (line ++ 13 ∷ []) ++ 10 ∷ rest
    → IsAscii (payload_bytes event)
    → Lacks 10 line
    → payload_str from_utf8_lossy event ≡ line
unfolding payload_str
payload_str_lem from_utf8_lossy event line rest kept e ascii lacks =
    let found =
      cut_found 10 (line ++ 13 ∷ []) rest (Lacks-append 10 line (13 ∷ []) lacks (omega arith)) in
    rw (payload_str, kept (payload_bytes event) ascii, e, found) (strip_return-return line)
