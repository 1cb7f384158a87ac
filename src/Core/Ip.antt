-- ===== src/Core/Ip.antt =====
-- core/src/model/model.rs: addresses as the packet holds them, and as texts. The host is
-- little-endian, as the nodes that the program runs on; `Ipv4Addr` is the standard library's.
pub mod Laws
use qubit.Base.{
  ◌>>=◌, ℕ, zero, suc, ◌+◌, ◌-◌, ◌*◌, ◌/◌, ◌%◌, ◌^◌, ◌<◌, Text, text_dec, text_eq, nat_eq, ◌==◌,
  ltb, contains, split, split_found, split_absent, Lacks, if◌then◌else◌, Bool, true, false, ◌&&◌,
  not, Option, none, some, List, [], ◌∷◌, ◌++◌, ◌≡◌, refl, ◌≢◌, arith, ap, ◌⊎◌,
}

pub record Octets : Type 0 where
  pub a : ℕ
  pub b : ℕ
  pub c : ℕ
  pub d : ℕ

-- `u32::from_be` swaps the bytes
unfoldable pub from_be : ℕ → ℕ
from_be x = x % 256 * 16777216 + x / 256 % 256 * 65536 + x / 65536 % 256 * 256 + x / 16777216 % 256

-- `Ipv4Addr::from(u32)`: the most significant byte is the first octet
unfoldable pub octets : ℕ → Octets
octets x = record { a = x / 16777216 % 256; b = x / 65536 % 256; c = x / 256 % 256; d = x % 256 }

-- A byte in decimal.
unfoldable pub decimal : ℕ → Text
decimal n =
    if ltb n 10
    then (48 + n) ∷ []
    else if ltb n 100
    then (48 + n / 10) ∷ (48 + n % 10) ∷ []
    else (48 + n / 100) ∷ (48 + n / 10 % 10) ∷ (48 + n % 10) ∷ []

-- `Ipv4Addr::to_string`
unfoldable pub show : Octets → Text
show o = decimal o.a ++ (46 ∷ (decimal o.b ++ (46 ∷ (decimal o.c ++ (46 ∷ decimal o.d)))))

-- `src_ip_str` and `dst_ip_str`
unfoldable pub ip_str : ℕ → Text
ip_str ip = show (octets (from_be ip))

is_digit : ℕ → Bool
is_digit c = not (ltb c 48) && ltb c 58

-- A decimal byte of at most three digits with no leading zero.
unfoldable pub parse_octet : Text → Option ℕ
unfolding is_digit
parse_octet (x ∷ []) = if is_digit x then some (x - 48) else none
parse_octet (x ∷ y ∷ []) =
    if is_digit x && is_digit y && not (x == 48) then some ((x - 48) * 10 + (y - 48)) else none
parse_octet (x ∷ y ∷ z ∷ []) =
    let n = (x - 48) * 100 + (y - 48) * 10 + (z - 48) in
    if is_digit x && is_digit y && is_digit z && not (x == 48) && ltb n 256 then some n else none
parse_octet _ = none

unfoldable pub parse_parts : List Text → Option Octets
parse_parts (p ∷ q ∷ r ∷ s ∷ []) = do
  a ← parse_octet p
  b ← parse_octet q
  c ← parse_octet r
  d ← parse_octet s
  some (record { a = a; b = b; c = c; d = d })
parse_parts _ = none

-- `s.parse::<Ipv4Addr>()`
unfoldable pub parse_ipv4 : Text → Option Octets
parse_ipv4 s = parse_parts (split 46 s)

pub parse_octet-decimal : (n : ℕ) → n < 256 → parse_octet (decimal n) ≡ some n
unfolding parse_octet decimal
parse_octet-decimal n h = ground arith

-- A byte that is no digit.
abbrev pub IsOther : ℕ → Type 0
IsOther c = (c < 48) ⊎ (57 < c)

pub decimal-Lacks : (c n : ℕ) → n < 256 → IsOther c → Lacks c (decimal n)
unfolding decimal
decimal-Lacks c n h other = ground arith

pub Lacks-of_octet : (c : ℕ) (p : Text) → IsOther c → parse_octet p ≢ none → Lacks c p
unfolding parse_octet
Lacks-of_octet c [] other h = tt
Lacks-of_octet c (x ∷ []) other h = ground arith
Lacks-of_octet c (x ∷ y ∷ []) other h = ground arith
Lacks-of_octet c (x ∷ y ∷ z ∷ []) other h = ground arith
Lacks-of_octet c (x ∷ y ∷ z ∷ u ∷ s) other h = absurd (h refl)
