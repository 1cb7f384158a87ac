-- ===== src/Capture/Parse.antt =====
-- ebpf-common/src/lib.rs: the event that the kernel program hands over, and the parsers of the
-- request that it holds.
pub mod Laws
pub mod Line
use qubit.Base.{
  ◌>>=◌, ℕ, min, Text, text_eq, nat_eq, ◌+◌, ◌==◌, leb, ◌&&◌, ◌||◌, not, cut, head_of_split, codes,
  length, take, drop, map, if◌then◌else◌, Bool, Option, none, some, List, [], ◌∷◌,
}
use qubit.Capture.Utf8.{from_utf8}

-- `MAX_PAYLOAD` of ebpf-common
abbrev pub max_payload : ℕ
max_payload = 128

pub record TcpPayloadEvent : Type 0 where
  pub timestamp_ns : ℕ
  pub src_ip : ℕ
  pub dst_ip : ℕ
  pub src_port : ℕ
  pub dst_port : ℕ
  pub payload_len : ℕ
  pub payload : Text

unfoldable pub payload_bytes : TcpPayloadEvent → Text
payload_bytes event =
    let len = min event.payload_len (length event.payload) in take len event.payload

-- what stands before the first space
unfoldable pub parse_method : TcpPayloadEvent → Option Text
parse_method event = elim (cut 32 (payload_bytes event)) [
  | none ↦ none
  | some (method, rest) ↦ from_utf8 method
]

-- between the first space and the second
unfoldable pub parse_path : TcpPayloadEvent → Option Text
parse_path event = elim (cut 32 (payload_bytes event)) [
  | none ↦ none
  | some (method, rest) ↦ from_utf8 (head_of_split 32 rest)
]

unfoldable pub to_ascii_lowercase : ℕ → ℕ
to_ascii_lowercase c = if leb 65 c && leb c 90 then c + 32 else c

-- the window of five bytes at the front, `eq_ignore_ascii_case(b"Host:")`
unfoldable pub is_host_key : Text → Bool
is_host_key s = map to_ascii_lowercase (take 5 s) == codes "host:"

-- the bytes after the first such window
unfoldable pub after_host : Text → Option Text
after_host [] = none
after_host (c ∷ s) =
    let later = after_host s in if is_host_key (c ∷ s) then some (drop 5 (c ∷ s)) else later

-- from the first byte that is no blank
unfoldable pub skip_blanks : Text → Option Text
skip_blanks [] = none
skip_blanks (c ∷ s) = let rest = skip_blanks s in if c == 32 || c == 9 then rest else some (c ∷ s)

-- up to the end of the line
unfoldable pub line_of : Text → Text
line_of [] = []
line_of (c ∷ s) = let rest = line_of s in if c == 13 || c == 10 then [] else c ∷ rest

unfoldable pub parse_host : TcpPayloadEvent → Option Text
parse_host event = do
  after ← after_host (payload_bytes event)
  value ← skip_blanks after
  host ← from_utf8 (line_of value)
  some (head_of_split 58 host)

-- A carriage return before the line feed belongs to the line's ending.
unfoldable pub strip_return : Text → Text
strip_return [] = []
strip_return (c ∷ []) = if c == 13 then [] else c ∷ []
strip_return (c ∷ d ∷ s) = c ∷ strip_return (d ∷ s)

-- `.lines().next().unwrap_or("")` of the text that the standard library makes of any bytes
unfoldable pub payload_str : (Text → Text) → TcpPayloadEvent → Text
payload_str from_utf8_lossy event =
    let text = from_utf8_lossy (payload_bytes event) in
    elim (cut 10 text) [ none ↦ text | some (line, rest) ↦ strip_return line ]
