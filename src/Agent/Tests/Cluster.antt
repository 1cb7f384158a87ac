-- ===== src/Agent/Tests/Cluster.antt =====
-- Tests of the informers of cluster-agent/src/kubernetes, and of the agent next to core.
use mathlib.Core.List.Memᴰ
use qubit.Base.{
  Text, codes, text_eq, text_dec, false, none, some, List, [], ◌∷◌, ◌++◌, map, Memᴰ, ◌≡◌, refl, sym,
  subst, inl, inr, arith,
}
use qubit.Base.Map
use qubit.Base.Map.{Map}
use qubit.Agent.Objects.{Service}
use qubit.Agent.Registry.{empty_registry, registry_key}
use qubit.Agent.Handlers.{
  Message, send_pod_applied, pod_on_apply, pod_on_delete, pod_ip_and_namespace, label_of,
  send_initial_pod_service_map, deliver,
}
use qubit.Agent.Handlers.Laws.{info_of}
use qubit.Agent.Handlers.Resync.{IsOrdinary, resync-heals}
use qubit.Agent.Informer.{
  WatchEvent, apply, delete, init, init_apply, init_done, Item, event, error, ended, failed, handle,
  start,
}
use qubit.Agent.Informer.Handlers.{pod_handler, service_handler}
use qubit.Agent.Informer.Laws.{before_error, last_told, start-last_told, start-error}
use qubit.Agent.Cluster.{Cluster, call_for, react, arrive, access, pods, services, Run, here, next}
use qubit.Agent.Cluster.Runs.{Run-IsSound}
use qubit.Agent.Cluster.Told.{IsTold, said_by, Run-IsTold}
use qubit.Agent.Cluster.Late.{ComesTo, late_report-stays}
use qubit.Agent.Tests.{selector, pod, svc, spec, no_json, known}
use qubit.Agent.Envoy.{YamlLib}
use qubit.Core.Topology.{stale_id, unknown}
use qubit.Core.Topology.Closed.{IsSound, HasNode, new-IsSound}
use qubit.Core.Cache.{map_cache}
use qubit.Core.State.{init as init_state}
use qubit.Core.Grpc.{idle, try_event_type}
use qubit.Core.Grpc.Calls.{Action, put_pod, heal, pod_applied_actions, actions_of, act}
use qubit.Core.Grpc.Races.{IsClaimedOnce}

-- The service is listed, its watch breaks off and begins anew without it.
abbrev watched : List (Item Service)
watched = event init ∷ event (init_apply svc) ∷ event init_done ∷ event init ∷ event init_done ∷ []

start-last_told_example :
    Map.get
      (start service_handler (codes "Service") empty_registry watched).0.services
      (registry_key (codes "prod") (codes "cart-svc"))
    ≡ last_told (before_error watched) (registry_key (codes "prod") (codes "cart-svc")) none
unfolding Map.get
start-last_told_example =
    start-last_told (codes "Service") empty_registry watched
      (registry_key (codes "prod") (codes "cart-svc")) refl

abbrev changes : List (WatchEvent Service)
changes = apply svc ∷ []

start-error_example :
    let whole =
      start service_handler
        (codes "Service")
        empty_registry
        (map event changes ++ error (codes "gone") ∷ event (delete svc) ∷ []) in
    let until = start service_handler (codes "Service") empty_registry (map event changes) in
    (whole.0 ≡ until.0)
    × (whole.1 ≡ until.1)
    × (until.2 ≡ ended)
    × (whole.2 ≡ failed (codes "Service" ++ (codes " watcher error: " ++ codes "gone")))
start-error_example =
    start-error service_handler (codes "Service") empty_registry changes (codes "gone")
      (event (delete svc) ∷ [])

-- No text is YAML here.
abbrev no_yaml : YamlLib
no_yaml = record {
  Value = Text;
  from_str = λ text. none;
  index = λ v key. v;
  index_at = λ v i. v;
  as_str = λ v. some v;
  as_sequence = λ v. none;
  is_mapping = λ v. false;
}

abbrev begun : Cluster map_cache no_yaml no_json
begun = record {
  registry = empty_registry;
  sent = [];
  core = record { core = init_state map_cache; running = []; calls = [] };
}

abbrev listed : Cluster map_cache no_yaml no_json
listed = react map_cache no_yaml no_json begun (handle service_handler begun.registry (apply svc))

abbrev reported : Cluster map_cache no_yaml no_json
reported = react map_cache no_yaml no_json listed (handle pod_handler listed.registry (apply pod))

-- The report on the pod arrives before the one on the service.
abbrev report : Message
report =
    let i = info_of listed.registry pod in
    send_pod_applied (codes "10.0.0.7") i.namespace i.application_name i.service_name i.service_type

abbrev accesses : List Action
accesses = actions_of map_cache no_json (call_for 3 report)

abbrev later : List Action
later =
    let i = info_of listed.registry pod in
    heal (codes "10.0.0.7") i.application_name i.namespace ∷ []

abbrev arrived : Cluster map_cache no_yaml no_json
arrived = record reported {
  sent = listed.sent ++ [];
  core = record reported.core { calls = accesses ∷ [] };
}

-- The call's access to the pod cache is done, and its healing of the topology waits.
abbrev cached : Cluster map_cache no_yaml no_json
cached = record arrived {
  core = record arrived.core {
    core =
        act map_cache arrived.core.core (put_pod (codes "10.0.0.7") (info_of listed.registry pod));
    calls = later ∷ [];
  };
}

waits : reported.sent ≡ listed.sent ++ report ∷ []
unfolding handle pod_on_apply pod_ip_and_namespace
waits = refl

accessed :
    arrived.core.calls ≡ (put_pod (codes "10.0.0.7") (info_of listed.registry pod) ∷ later) ∷ []
unfolding actions_of call_for handle pod_on_apply pod_ip_and_namespace pod_applied_actions
    try_event_type send_pod_applied qubit.Agent.Handlers.resolve_application_name
    qubit.Agent.Handlers.service_or_default qubit.Agent.Registry.find_service_for_pod
    qubit.Agent.Handlers.service_on_apply qubit.Agent.Registry.register
    qubit.Agent.Registry.insert_service qubit.Agent.Registry.first_match Map.insert
    qubit.Agent.Registry.selects qubit.Agent.Registry.has_label Map.get text_dec
    native.Mathlib.Decide.ℕ_discrete
accessed = refl

runs : Run map_cache no_yaml no_json begun cached
runs =
    next
      (next (next (next here (services begun (apply svc))) (pods listed (apply pod)))
        (arrive reported 3 listed.sent [] report waits))
      (access arrived [] [] (put_pod (codes "10.0.0.7") (info_of listed.registry pod)) later
        accessed)

unclaimed : IsClaimedOnce map_cache begun.core
unclaimed k = omega arith

Run-IsSound_example : IsSound cached.core.core.topology × IsClaimedOnce map_cache cached.core
Run-IsSound_example = Run-IsSound map_cache no_yaml no_json new-IsSound unclaimed runs

nothing_known : IsTold map_cache no_yaml no_json begun []
unfolding Map.get
nothing_known = record {
  known = λ key info h. cc;
  waits = λ m at_m. absurd (Memᴰ.not-nil at_m);
  doing = λ xs at_xs. absurd (Memᴰ.not-nil at_xs);
}

Run-IsTold_example :
    IsTold map_cache no_yaml no_json cached (said_by map_cache no_yaml no_json runs)
Run-IsTold_example = Run-IsTold map_cache no_yaml no_json runs [] nothing_known

late_report-stays_example :
    ComesTo map_cache no_yaml no_json begun pod
      (pod_on_apply empty_registry pod ++ pod_on_delete pod)
      (codes "10.0.0.7")
      none
    × ComesTo map_cache no_yaml no_json begun pod
        (pod_on_delete pod ++ pod_on_apply empty_registry pod)
        (codes "10.0.0.7")
        (some (info_of empty_registry pod))
late_report-stays_example =
    late_report-stays map_cache no_yaml no_json begun pod (codes "10.0.0.7") known

ordinary : (v : Service) → Memᴰ v (svc ∷ []) → IsOrdinary v
unfolding unknown
ordinary v m = elim (Memᴰ.cases_cons m) [
  | inl same ↦ subst IsOrdinary (sym same) (λ e. cc, λ e. cc)
  | inr m' ↦ absurd (Memᴰ.not-nil m')
]

labelled : (k v : Text) → Memᴰ (k, v) selector → label_of pod k ≡ some v
unfolding label_of Map.get text_dec native.Mathlib.Decide.ℕ_discrete
labelled k v m = elim (Memᴰ.cases_cons m) [
  | inl p ↦ subst (λ (q : Text × Text). label_of pod q.0 ≡ some q.1) (sym p) refl
  | inr m' ↦ absurd (Memᴰ.not-nil m')
]

resync-heals_example :
    ¬ HasNode
      (deliver map_cache no_json 0
        (idle map_cache)
        (send_initial_pod_service_map (svc ∷ []) (pod ∷ []))).core.topology
      (stale_id (codes "10.0.0.7"))
resync-heals_example =
    resync-heals map_cache no_json 0 (idle map_cache) (svc ∷ []) (pod ∷ []) svc (codes "cart-svc")
      spec pod (codes "10.0.0.7") refl ordinary (Memᴰ.head refl) refl refl refl (Memᴰ.head refl)
      known labelled
