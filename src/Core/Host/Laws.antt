-- ===== src/Core/Host/Laws.antt =====
-- core/src/aggregator/ebpf_aggregator.rs, `parse_k8s_host`: what each form of host is read as.
use mathlib.Core.List.{append_assoc}
use qubit.Base.{
  head_of_split_absent, head_of_split_found, ℕ, Text, text_eq, nat_eq, codes, cut_found, splitn,
  contains_text, starts_with, contains_text_found, contains_found, Lacks, Lacks-append, true, false,
  [], ◌∷◌, ◌++◌, ◌≡◌, refl, arith, Option-cases, inl, inr,
}
use qubit.Core.Ip.{ip_str, parse_ipv4}
use qubit.Core.Ip.Laws.{parse-ip_str, ip_str-Lacks, Lacks-of_parse}
use qubit.Core.Topology.{unknown}
use qubit.Core.Host.{dot_svc, is_ip, first_two, parse_k8s_host}

-- A port does not matter: for a host with no colon, the host followed by a colon and any text is
-- read as the host is.
parse_k8s_host-port :
    (host port : Text) → Lacks 58 host → parse_k8s_host (host ++ (58 ∷ port)) ≡ parse_k8s_host host
unfolding parse_k8s_host
parse_k8s_host-port host port h =
    rw (head_of_split_found 58 host port h, head_of_split_absent 58 host h)

-- The text that the program writes for an address is read by `parse_k8s_host` as the address
-- itself, in the namespace `unknown`.
pub parse_k8s_host-ip_str : (ip : ℕ) → parse_k8s_host (ip_str ip) ≡ (ip_str ip, unknown)
unfolding parse_k8s_host is_ip
parse_k8s_host-ip_str ip =
    rw
      (head_of_split_absent 58 (ip_str ip)
        (ip_str-Lacks 58 ip (inr (omega arith)) (λ e. absurd (omega arith))))
      (ground (arith, parse-ip_str ip))

-- `.svc` does not occur where the letter s does not.
no_dot_svc : (s : Text) → Lacks 115 s → contains_text s dot_svc ≡ false
unfolding contains_text starts_with dot_svc
no_dot_svc [] h = refl
no_dot_svc (x ∷ []) h = ground arith
no_dot_svc (x ∷ y ∷ s) h = ground (arith, no_dot_svc (y ∷ s) h.1)

not_ip : (s : Text) → contains_text s dot_svc ≡ true → is_ip s ≡ false
unfolding is_ip
not_ip s h = elim (Option-cases (parse_ipv4 s)) [
  | inl none_read ↦ ground arith
  | inr (o, e) ↦
      cc
        (h, no_dot_svc s (Lacks-of_parse 115 s o (inr (omega arith)) (λ p. absurd (omega arith)) e))
]

two_labels :
    (a b rest : Text)
    → Lacks 46 a
    → Lacks 46 b
    → splitn 3 46 (a ++ (46 ∷ (b ++ (46 ∷ rest)))) ≡ a ∷ b ∷ rest ∷ []
unfolding splitn
two_labels a b rest ha hb = ground (arith, cut_found 46 a (b ++ (46 ∷ rest)), cut_found 46 b rest)

-- A host in which `.svc` occurs is read as its first two labels, wherever the `.svc` stands.
parse_labels :
    (a b rest : Text)
    → Lacks 46 a
    → Lacks 46 b
    → (let host = a ++ (46 ∷ (b ++ (46 ∷ rest))) in
        Lacks 58 host → contains_text host dot_svc ≡ true → parse_k8s_host host ≡ (a, b))
unfolding parse_k8s_host first_two
parse_labels a b rest ha hb plain svc =
    let host = a ++ (46 ∷ (b ++ (46 ∷ rest))) in
    ground (
      arith,
      head_of_split_absent 58 host plain,
      not_ip host svc,
      contains_found 46 a (b ++ (46 ∷ rest)),
      two_labels a b rest ha hb,
    )

-- A host `service.namespace.svc` with any continuation is read as the service and its namespace,
-- where neither name has a dot or a colon and the continuation has no colon.
pub parse_k8s_host-service :
    (service namespace rest : Text)
    → Lacks 46 service
    → Lacks 46 namespace
    → Lacks 58 service
    → Lacks 58 namespace
    → Lacks 58 rest
    → parse_k8s_host (service ++ (46 ∷ (namespace ++ (dot_svc ++ rest)))) ≡ (service, namespace)
unfolding dot_svc
parse_k8s_host-service service namespace rest hs hn cs cn cr =
    parse_labels service namespace (115 ∷ 118 ∷ 99 ∷ rest) hs hn
      (Lacks-append 58 service _ cs (
        omega arith,
        Lacks-append 58 namespace _ cn
            (omega arith, (omega arith, (omega arith, (omega arith, cr)))),
      ))
      (rw (← append_assoc service (46 ∷ namespace) (dot_svc ++ rest))
        (contains_text_found (service ++ (46 ∷ namespace)) dot_svc rest))

-- A name of the form `name.svc` directly followed by more of a label, a dot and the rest, all
-- with no colon and with no dot in the name and the label, is read as a service in the cluster,
-- with the label that begins with `svc` as its namespace.
parse_k8s_host-public :
    (name label rest : Text)
    → Lacks 46 name
    → Lacks 46 label
    → Lacks 58 name
    → Lacks 58 label
    → Lacks 58 rest
    → parse_k8s_host (name ++ (dot_svc ++ (label ++ (46 ∷ rest)))) ≡ (name, codes "svc" ++ label)
unfolding dot_svc
parse_k8s_host-public name label rest hn hl cn cl cr =
    parse_labels name (codes "svc" ++ label) rest hn (omega arith, (omega arith, (omega arith, hl)))
      (Lacks-append 58 name _ cn (
        omega arith,
        (omega arith, (omega arith, (omega arith, Lacks-append 58 label _ cl (omega arith, cr)))),
      ))
      (contains_text_found name dot_svc (label ++ (46 ∷ rest)))
