-- ===== src/Core/Ip/Laws.antt =====
-- core/src/model/model.rs: addresses and their texts, which are the keys of the pod cache.
use mathlib.Core.Option.{some-injective}
use qubit.Base.{
  ℕ, ◌/◌, ◌%◌, ◌^◌, ◌<◌, Text, text_eq, nat_eq, split, split_found, split_absent, Lacks,
  Lacks-append, AllLack, Lacks-of_split, inl, some, List, [], ◌∷◌, ◌≡◌, ◌≢◌, arith, ap, sym, ◌∙◌,
}
use qubit.Core.Ip.{
  Octets, from_be, octets, show, ip_str, decimal, parse_parts, parse_ipv4, parse_octet-decimal,
  decimal-Lacks, IsOther, Lacks-of_octet,
}

pub record IsOctets (o : Octets) : Type 0 where
  pub a_lt : o.a < 256
  pub b_lt : o.b < 256
  pub c_lt : o.c < 256
  pub d_lt : o.d < 256

octets-IsOctets : (x : ℕ) → IsOctets (octets x)
unfolding octets
octets-IsOctets x = omega arith

split-show :
    (o : Octets)
    → IsOctets o
    → split 46 (show o) ≡ decimal o.a ∷ decimal o.b ∷ decimal o.c ∷ decimal o.d ∷ []
unfolding show
split-show o h = rw (
  split_found 46 (decimal o.a) _ (decimal-Lacks 46 o.a h.a_lt (inl (omega arith))),
  split_found 46 (decimal o.b) _ (decimal-Lacks 46 o.b h.b_lt (inl (omega arith))),
  split_found 46 (decimal o.c) _ (decimal-Lacks 46 o.c h.c_lt (inl (omega arith))),
  split_absent 46 (decimal o.d) (decimal-Lacks 46 o.d h.d_lt (inl (omega arith))),
)

-- The text of an address is parsed back to the address.
parse-show : (o : Octets) → IsOctets o → parse_ipv4 (show o) ≡ some o
unfolding parse_ipv4 parse_parts
parse-show o h = rw (split-show o h) (
    rw (
      parse_octet-decimal o.a h.a_lt,
      parse_octet-decimal o.b h.b_lt,
      parse_octet-decimal o.c h.c_lt,
      parse_octet-decimal o.d h.d_lt,
      parse_parts,
    ))

-- The text that the program writes for an address is parsed as the four octets of the address in
-- host byte order.
pub parse-ip_str : (ip : ℕ) → parse_ipv4 (ip_str ip) ≡ some (octets (from_be ip))
unfolding ip_str
parse-ip_str ip = parse-show _ (octets-IsOctets (from_be ip))

-- Every byte of the packet's address is an octet, in the order of the packet.
octets-from_be :
    (x : ℕ)
    → octets (from_be x)
      ≡ record { a = x % 256; b = x / 256 % 256; c = x / 65536 % 256; d = x / 16777216 % 256 }
unfolding octets from_be
octets-from_be x = ground arith

-- Two 32-bit addresses with the same text are the same address.
ip_str_injective : (x y : ℕ) → x < 2 ^ 32 → y < 2 ^ 32 → ip_str x ≡ ip_str y → x ≡ y
ip_str_injective x y hx hy e =
    let same = some-injective _ _ (sym (parse-ip_str x) ∙ ap parse_ipv4 e ∙ parse-ip_str y) in
    let bytes = sym (octets-from_be x) ∙ same ∙ octets-from_be y in
    omega (
      arith,
      ap (λ (o : Octets). o.a) bytes,
      ap (λ (o : Octets). o.b) bytes,
      ap (λ (o : Octets). o.c) bytes,
      ap (λ (o : Octets). o.d) bytes,
    )

-- The text of an address consists of digits and dots.
pub ip_str-Lacks : (c x : ℕ) → IsOther c → c ≢ 46 → Lacks c (ip_str x)
unfolding ip_str show
ip_str-Lacks c x other h =
    let o = octets (from_be x) in
    let i = octets-IsOctets (from_be x) in
    let dot = λ (e : ◌≡◌ {A = ℕ} 46 c). h (sym e) in
    Lacks-append c _ _ (decimal-Lacks c o.a i.a_lt other) (
      dot,
      Lacks-append c _ _ (decimal-Lacks c o.b i.b_lt other) (
        dot,
        Lacks-append c _ _ (decimal-Lacks c o.c i.c_lt other)
            (dot, decimal-Lacks c o.d i.d_lt other),
      ),
    )

Lacks_of_parts :
    (c : ℕ) (ps : List Text) (o : Octets) → IsOther c → parse_parts ps ≡ some o → AllLack c ps
unfolding parse_parts
Lacks_of_parts c (p ∷ q ∷ r ∷ s ∷ []) o other h = ground (
  arith,
  Lacks-of_octet c p other,
  Lacks-of_octet c q other,
  Lacks-of_octet c r other,
  Lacks-of_octet c s other,
)
Lacks_of_parts c [] o other h = cc
Lacks_of_parts c (p ∷ []) o other h = cc
Lacks_of_parts c (p ∷ q ∷ []) o other h = cc
Lacks_of_parts c (p ∷ q ∷ r ∷ []) o other h = cc
Lacks_of_parts c (p ∷ q ∷ r ∷ s ∷ u ∷ ps) o other h = cc

-- So does every text that is read as an address.
pub Lacks-of_parse :
    (c : ℕ) (s : Text) (o : Octets) → IsOther c → c ≢ 46 → parse_ipv4 s ≡ some o → Lacks c s
unfolding parse_ipv4
Lacks-of_parse c s o other h e = Lacks-of_split c 46 s h (Lacks_of_parts c (split 46 s) o other e)
