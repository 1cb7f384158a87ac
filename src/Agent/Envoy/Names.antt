-- ===== src/Agent/Envoy/Names.antt =====
-- cluster-agent/src/kubernetes/envoy_parser.rs and core/src/aggregator/ebpf_aggregator.rs: both read a
-- service and a namespace off a host name.
use qubit.Base.{Text, codes, Lacks, some, ◌∷◌, ◌++◌, ◌≡◌, ◌≢◌, ◌∙◌, sym, ap, arith}
use qubit.Core.Host.{dot_svc, parse_k8s_host}
use qubit.Core.Host.Laws.{parse_k8s_host-service}
use qubit.Agent.Envoy.{svc_namespace_from_fqdn}
use qubit.Agent.Envoy.Clusters.{svc_namespace-first}

-- Of a host `service.namespace.svc.rest`, the agent's parser of upstreams and core's parser of
-- hosts tell the same service and namespace, where no part has a colon, the first two have no dot
-- and neither is `svc`.
svc_namespace-parse_k8s_host :
    (service namespace rest : Text)
    → Lacks 46 service
    → Lacks 46 namespace
    → Lacks 58 service
    → Lacks 58 namespace
    → Lacks 58 rest
    → service ≢ codes "svc"
    → namespace ≢ codes "svc"
    → let host = service ++ 46 ∷ (namespace ++ 46 ∷ (codes "svc" ++ 46 ∷ rest)) in
      svc_namespace_from_fqdn host ≡ some (parse_k8s_host host)
unfolding dot_svc
svc_namespace-parse_k8s_host service namespace rest hs hn cs cn cr ns nn =
    svc_namespace-first service namespace rest hs hn ns nn
    ∙ ap some
        (sym (parse_k8s_host-service service namespace (46 ∷ rest) hs hn cs cn (omega arith, cr)))
