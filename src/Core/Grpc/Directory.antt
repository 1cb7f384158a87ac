-- ===== src/Core/Grpc/Directory.antt =====
-- core/src/server/grpc.rs and core/src/aggregator/k8s_aggregator.rs: the pod cache against what a
-- reader expects of it, a directory in which the last report on an address counts.
use mathlib.Core.List.{foldl}
use qubit.Base.{
  Text, text_eq, nat_eq, ◌==◌, if◌then◌else◌, Option, none, some, List, [], ◌∷◌, ◌++◌, map, ◌≡◌,
  refl, sym, ap, ◌∙◌, arith,
}
use qubit.Core.Cache.{CacheLib}
use qubit.Core.State.{PodInfo, State}
use qubit.Core.Ebpf.Laws.{caches_kept}
use qubit.Core.K8s.{
  with_topology, record_pod_applied, record_service_applied, record_service_deleted,
  record_k8s_resource_event,
}
use qubit.Core.K8s.Laws.{pod_cache_lem}
use qubit.Core.Grpc.{
  PodEventRequest, ServicePodEntry, EnvoyRouteEntry, System, try_event_type, apply_pods,
  apply_entries, add_route, send_ebpf_network_event, send_pod_event, send_service_event,
  send_config_map_event, send_service_pod_map, send_k8s_resource_event, send_envoy_routes,
}
use qubit.Core.Grpc.Interleaving.{
  Step, ebpf, pod, service, config_map, pod_map, resource, routes, task, panic_topology, panic_seen,
  Reach, here, next,
}

pub data PodReport : Type 0 where
  running : Text → PodInfo → PodReport
  gone : Text → PodReport

-- A reader looks an address up.
abbrev pub update : PodReport → Text → Option PodInfo → Option PodInfo
update (running ip info) key known = if ip == key then some info else known
update (gone ip) key known = if ip == key then none else known

abbrev pub last_report : List PodReport → Text → Option PodInfo → Option PodInfo
last_report [] key known = known
last_report (r ∷ rs) key known = last_report rs key (update r key known)

last_report-append :
    (rs qs : List PodReport) (key : Text) (known : Option PodInfo)
    → last_report (rs ++ qs) key known ≡ last_report qs key (last_report rs key known)
last_report-append [] qs key known = refl
last_report-append (r ∷ rs) qs key known = last_report-append rs qs key (update r key known)

-- What a request says: 0 is applied and 1 is deleted.
abbrev pub report_of : PodEventRequest → List PodReport
report_of req =
    if req.event_type == 0
    then running req.pod_ip (record {
      namespace = req.namespace;
      application_name = req.application_name;
      service_name = req.service_name;
      service_type = req.service_type;
    })
      ∷ []
    else if req.event_type == 1
    then gone req.pod_ip ∷ []
    else []

abbrev pub entry_report : ServicePodEntry → Text → PodReport
entry_report entry ip = running ip (record {
  namespace = entry.namespace;
  application_name = entry.application_name;
  service_name = entry.service_name;
  service_type = entry.service_type;
})

abbrev pub entries_reports : List ServicePodEntry → List PodReport
entries_reports [] = []
entries_reports (e ∷ es) = map (entry_report e) e.pod_ips ++ entries_reports es

module _ (lib : CacheLib) where
  abbrev pub reports_in : {s u : System lib} → Step lib s u → List PodReport
  reports_in (pod s req) = report_of req
  reports_in (pod_map s entries) = entries_reports entries
  reports_in _ = []

  abbrev pub reports : {s u : System lib} → Reach lib s u → List PodReport
  reports here = []
  reports (next r st) = reports r ++ reports_in st

  abbrev pub entry_of : State lib → Text → Option PodInfo
  entry_of s key = lib.get PodInfo s.pod_cache key

  apply_pods_lem :
      (entry : ServicePodEntry) (s : State lib) (ips : List Text) (key : Text)
      → entry_of (apply_pods lib entry s ips) key
        ≡ last_report (map (entry_report entry) ips) key (entry_of s key)
  unfolding apply_pods
  apply_pods_lem entry s [] key = refl
  apply_pods_lem entry s (ip ∷ ips) key =
      let s' =
        record_pod_applied lib s ip entry.namespace entry.application_name entry.service_name
          entry.service_type in
      let first =
        pod_cache_lem lib s ip entry.namespace entry.application_name entry.service_name
          entry.service_type key in
      apply_pods_lem entry s' ips key ∙ ap (last_report (map (entry_report entry) ips) key) first.0

  apply_entries_lem :
      (s : State lib) (entries : List ServicePodEntry) (key : Text)
      → entry_of (apply_entries lib s entries) key
        ≡ last_report (entries_reports entries) key (entry_of s key)
  unfolding apply_entries
  apply_entries_lem s [] key = refl
  apply_entries_lem s (e ∷ es) key =
      apply_entries_lem (apply_pods lib e s e.pod_ips) es key
      ∙ (ap (last_report (entries_reports es) key) (apply_pods_lem e s e.pod_ips key)
          ∙ sym (
              last_report-append (map (entry_report e) e.pod_ips) (entries_reports es) key
                (entry_of s key)))

  add_routes-pods :
      (s : State lib) (entries : List EnvoyRouteEntry)
      → (foldl (add_route lib) s entries).pod_cache ≡ s.pod_cache
  unfolding add_route
  add_routes-pods s [] = refl
  add_routes-pods s (e ∷ es) = add_routes-pods (add_route lib s e) es

  send_pod_event_lem :
      (s : System lib) (req : PodEventRequest) (key : Text)
      → entry_of (send_pod_event lib s req).0.core key
        ≡ last_report (report_of req) key (entry_of s.core key)
  unfolding send_pod_event try_event_type
  send_pod_event_lem s req key =
      let kept =
        pod_cache_lem lib s.core req.pod_ip req.namespace req.application_name req.service_name
          req.service_type key in
      ground (arith)

  Step-last_report :
      {s u : System lib} (st : Step lib s u) (key : Text)
      → entry_of u.core key ≡ last_report (reports_in st) key (entry_of s.core key)
  unfolding send_ebpf_network_event send_config_map_event send_service_pod_map send_envoy_routes
      send_pod_event send_service_event send_k8s_resource_event try_event_type
  Step-last_report (ebpf s req) key = refl
  Step-last_report (pod s req) key = send_pod_event_lem s req key
  Step-last_report (service s req) key =
      unfold record_service_applied record_service_deleted in ground arith
  Step-last_report (config_map s req) key = ground arith
  Step-last_report (pod_map s entries) key = apply_entries_lem s.core entries key
  Step-last_report (resource to_json now s req) key =
      unfold record_k8s_resource_event with_topology in ground arith
  Step-last_report (routes s entries) key =
      ap (λ c. lib.get PodInfo c key) (add_routes-pods s.core entries)
  Step-last_report (task s before after input e) key =
      ap (λ c. lib.get PodInfo c key) (caches_kept lib s.core input).0
  Step-last_report (panic_topology s) key = refl
  Step-last_report (panic_seen s) key = refl

  -- After any run of calls, tasks and panics, the pod cache knows of an address what the last
  -- report on it in the run said, a pod event or an entry of a pod map, and what it knew before
  -- if there was none: a reader can take it for a directory that only reports change.
  pub Reach-last_report :
      {s u : System lib} (run : Reach lib s u) (key : Text)
      → entry_of u.core key ≡ last_report (reports run) key (entry_of s.core key)
  Reach-last_report here key = refl
  Reach-last_report {s} (next r st) key =
      Step-last_report st key
      ∙ (ap (last_report (reports_in st) key) (Reach-last_report r key)
          ∙ sym (last_report-append (reports r) (reports_in st) key (entry_of s.core key)))
