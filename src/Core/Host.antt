-- ===== src/Core/Host.antt =====
-- core/src/aggregator/ebpf_aggregator.rs, `parse_k8s_host`: from a Host header to an application
-- and its namespace.
pub mod Laws
use qubit.Base.{
  ℕ, Text, codes, contains, nat_eq, head_of_split, splitn, contains_text, if◌then◌else◌, not, none,
  some, Bool, true, false, List, [], ◌∷◌,
}
use qubit.Core.Ip.{parse_ipv4}
use qubit.Core.Topology.{unknown}

unfoldable pub external : Text
external = codes "external"

unfoldable pub dot_svc : Text
dot_svc = codes ".svc"

unfoldable pub is_ip : Text → Bool
is_ip host = elim (parse_ipv4 host) [ none ↦ false | some o ↦ true ]

-- `if let [svc, ns, ..] = parts`, and what follows it
unfoldable pub first_two : Text → List Text → Text × Text
first_two host (svc ∷ ns ∷ _) = (svc, ns)
first_two host _ = (host, external)

unfoldable pub parse_k8s_host : Text → Text × Text
parse_k8s_host header =
    let host = head_of_split 58 header in
    if is_ip host
    then (host, unknown)
    else if not (contains host 46)
    then (host, unknown)
    else if contains_text host dot_svc
    then first_two host (splitn 3 46 host)
    else (host, external)
