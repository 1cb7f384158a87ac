-- ===== src/Capture/Parse/Laws.antt =====
-- ebpf-common/src/lib.rs: what the parsers read from a request.
use mathlib.Core.List.{append-nil}
use qubit.Base.{
  head_of_split_absent, head_of_split_found, ℕ, Text, nat_eq, text_eq, Lacks, cut_found,
  head_of_split, some, [], ◌∷◌, ◌++◌, false, codes, map, take, drop, ◌≡◌, ◌≢◌, ◌⊎◌, inl, inr, refl,
  arith,
}
use qubit.Capture.Utf8.{IsAscii, from_utf8-IsAscii}
use qubit.Capture.Parse.{
  TcpPayloadEvent, payload_bytes, parse_method, parse_path, parse_host, is_host_key, after_host,
  skip_blanks, line_of, to_ascii_lowercase,
}

-- request line
pub parse_request_line :
    (event : TcpPayloadEvent) (method path rest : Text)
    → payload_bytes event ≡ method ++ (32 ∷ (path ++ (32 ∷ rest)))
    → Lacks 32 method
    → Lacks 32 path
    → IsAscii method
    → IsAscii path
    → (parse_method event ≡ some method) × (parse_path event ≡ some path)
unfolding parse_method parse_path head_of_split
parse_request_line event method path rest e lm lp am ap' =
    let first = cut_found 32 method (path ++ (32 ∷ rest)) lm in
    let second = cut_found 32 path rest lp in
    (
      ground (arith, e, first, from_utf8-IsAscii method am),
      ground (arith, e, first, second, from_utf8-IsAscii path ap'),
    )

-- Nowhere in the text, as the continuation t follows it, does a host header begin.
abbrev pub IsHostFree : Text → Text → Type 0
IsHostFree [] t = Unit
IsHostFree (c ∷ s) t = (is_host_key (c ∷ (s ++ t)) ≡ false) × IsHostFree s t

-- `Host:` in any case
abbrev pub IsHostKey : Text → Type 0
IsHostKey key = map to_ascii_lowercase key ≡ codes "host:"

five_bytes :
    (key rest : Text)
    → IsHostKey key
    → (take 5 (key ++ rest) ≡ key) × (drop 5 (key ++ rest) ≡ rest) × (key ≢ [])
five_bytes [] rest h = cc
five_bytes (a ∷ []) rest h = cc
five_bytes (a ∷ b ∷ []) rest h = cc
five_bytes (a ∷ b ∷ c ∷ []) rest h = cc
five_bytes (a ∷ b ∷ c ∷ d ∷ []) rest h = cc
five_bytes (a ∷ b ∷ c ∷ d ∷ e ∷ []) rest h = (refl, refl, λ e. cc)
five_bytes (a ∷ b ∷ c ∷ d ∷ e ∷ f ∷ key) rest h = cc

after_host_here :
    (s rest key : Text)
    → take 5 s ≡ key
    → drop 5 s ≡ rest
    → IsHostKey key
    → s ≢ []
    → after_host s ≡ some rest
unfolding after_host is_host_key
after_host_here [] rest key t d h n = absurd (n refl)
after_host_here (c ∷ s) rest key t d h n = ground arith

append_nonempty : (s t : Text) → s ≢ [] → s ++ t ≢ []
append_nonempty [] t n e = n refl
append_nonempty (c ∷ s) t n e = cc

after_host_found :
    (before key rest : Text)
    → IsHostFree before (key ++ rest)
    → IsHostKey key
    → after_host (before ++ (key ++ rest)) ≡ some rest
unfolding after_host
after_host_found [] key rest free h =
    let (t, d, n) = five_bytes key rest h in
    after_host_here (key ++ rest) rest key t d h (append_nonempty key rest n)
after_host_found (c ∷ s) key rest free h = ground (arith, after_host_found s key rest free.1 h)

-- spaces and tabs
abbrev pub AreBlanks : Text → Type 0
AreBlanks [] = Unit
AreBlanks (c ∷ s) = ((c ≡ 32) ⊎ (c ≡ 9)) × AreBlanks s

skip_blanks_found :
    (blanks : Text) (c : ℕ) (s : Text)
    → AreBlanks blanks
    → c ≢ 32
    → c ≢ 9
    → skip_blanks (blanks ++ (c ∷ s)) ≡ some (c ∷ s)
unfolding skip_blanks
skip_blanks_found [] c s h a b = ground arith
skip_blanks_found (x ∷ blanks) c s h a b = ground (arith, skip_blanks_found blanks c s h.1 a b)

-- ends no line
abbrev pub InLine : Text → Type 0
InLine [] = Unit
InLine (c ∷ s) = ((c ≢ 13) × (c ≢ 10)) × InLine s

line_found :
    (s : Text) (eol : ℕ) (t : Text)
    → InLine s
    → (eol ≡ 13) ⊎ (eol ≡ 10)
    → line_of (s ++ (eol ∷ t)) ≡ s
unfolding line_of
line_found [] eol t h e = ground arith
line_found (c ∷ s) eol t h e = ground (arith, line_found s eol t h.1 e)

-- no port, or a colon and a port
abbrev pub IsPort : Text → Type 0
IsPort s = (s ≡ []) ⊎ ((p : Text) × (s ≡ 58 ∷ p))

name_found :
    (c : ℕ) (host port : Text)
    → Lacks 58 (c ∷ host)
    → IsPort port
    → head_of_split 58 (c ∷ (host ++ port)) ≡ c ∷ host
name_found c host port l (inl e) = rw (e, append-nil host) (head_of_split_absent 58 (c ∷ host) l)
name_found c host port l (inr (p, e)) = rw e (head_of_split_found 58 (c ∷ host) p l)

-- In a payload that has `Host:` in any case, and no such five bytes at an earlier place, followed
-- by blanks, a name that is not empty, a port or nothing, and the end of a line, `parse_host`
-- reads the name. The name begins with no blank and has no colon, the name and the port have no
-- end of line and are ASCII, and the port begins with a colon.
pub parse_host_lem :
    (event : TcpPayloadEvent) (before key value blanks : Text) (c : ℕ) (host port : Text) (eol : ℕ)
    (rest : Text)
    → payload_bytes event ≡ before ++ (key ++ value)
    → value ≡ blanks ++ (c ∷ ((host ++ port) ++ (eol ∷ rest)))
    → IsHostFree before (key ++ value)
    → IsHostKey key
    → AreBlanks blanks
    → (c ≢ 32) × (c ≢ 9)
    → Lacks 58 (c ∷ host)
    → IsPort port
    → InLine (c ∷ (host ++ port))
    → IsAscii (c ∷ (host ++ port))
    → (eol ≡ 13) ⊎ (eol ≡ 10)
    → parse_host event ≡ some (c ∷ host)
unfolding parse_host
parse_host_lem event before key value blanks c host port eol rest e e' free k b visible plain p line
      ascii end =
    ground (
      arith,
      e,
      e',
      after_host_found before key value free k,
      skip_blanks_found blanks c ((host ++ port) ++ (eol ∷ rest)) b visible.0 visible.1,
      line_found (c ∷ (host ++ port)) eol rest line end,
      from_utf8-IsAscii (c ∷ (host ++ port)) ascii,
      name_found c host port plain p,
    )
