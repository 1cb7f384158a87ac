-- ===== src/Core/Tests/Hosts.antt =====
-- Tests of `parse_k8s_host` in core/src/aggregator/ebpf_aggregator.rs and of the addresses in
-- core/src/model/model.rs.
use qubit.Base.{codes, ◌++◌, ◌∷◌, ◌≡◌, arith}
use qubit.Core.Host.{dot_svc, parse_k8s_host}
use qubit.Core.Host.Laws.{parse_k8s_host-service}

parse_k8s_host-service_example :
    parse_k8s_host (codes "cart" ++ (46 ∷ (codes "prod" ++ (dot_svc ++ codes ".cluster.local"))))
    ≡ (codes "cart", codes "prod")
parse_k8s_host-service_example =
    parse_k8s_host-service (codes "cart") (codes "prod") (codes ".cluster.local") (omega arith)
      (omega arith) (omega arith) (omega arith) (omega arith)
