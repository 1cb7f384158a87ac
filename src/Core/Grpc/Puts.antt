-- ===== src/Core/Grpc/Puts.antt =====
-- core/src/aggregator/k8s_aggregator.rs: what the accesses of a call report of addresses.
use qubit.Base.{
  Text, text_eq, ◌==◌, ==_iff, flat_map, Option, some, List, [], ◌∷◌, ◌++◌, map, Memᴰ, ◌≡◌, ◌⊎◌,
  inl, inr, refl, sym, ap, ◌∙◌, arith, Bool-cases,
}
use qubit.Base.Map.{Map}
use qubit.Core.Cache.{CacheLib}
use qubit.Core.State.{PodInfo, State}
use qubit.Core.K8s.{with_topology}
use qubit.Core.Grpc.{ServicePodEntry, try_event_type, add_route}
use qubit.Core.Grpc.Calls.{
  Action, put_pod, drop_pod, heal, put_service, drop_service, queue_row, attach, put_route, Call,
  pod_call, service_call, config_map_call, pod_map_call, resource_call, routes_call,
  pod_applied_actions, entry_actions, actions_of, act,
}
use qubit.Core.Grpc.Directory.{
  PodReport, running, gone, update, last_report, report_of, entry_report, entries_reports, entry_of,
}
use qubit.Core.Grpc.{EnvoyRouteEntry}

-- The reports in some accesses.
abbrev pub puts : List Action → List PodReport
puts [] = []
puts (put_pod ip info ∷ xs) = running ip info ∷ puts xs
puts (drop_pod ip ∷ xs) = gone ip ∷ puts xs
puts (_ ∷ xs) = puts xs

-- What a call says of addresses.
abbrev pub call_reports : Call → List PodReport
call_reports (pod_call req) = report_of req
call_reports (pod_map_call entries) = entries_reports entries
call_reports _ = []

pub puts-append : (xs ys : List Action) → puts (xs ++ ys) ≡ puts xs ++ puts ys
puts-append [] ys = refl
puts-append (put_pod ip info ∷ xs) ys = ap (λ rs. running ip info ∷ rs) (puts-append xs ys)
puts-append (drop_pod ip ∷ xs) ys = ap (λ rs. gone ip ∷ rs) (puts-append xs ys)
puts-append (heal ip app ns ∷ xs) ys = puts-append xs ys
puts-append (put_service key info ∷ xs) ys = puts-append xs ys
puts-append (drop_service key ∷ xs) ys = puts-append xs ys
puts-append (queue_row row ∷ xs) ys = puts-append xs ys
puts-append (attach node event ∷ xs) ys = puts-append xs ys
puts-append (put_route entry ∷ xs) ys = puts-append xs ys

puts-routes : (entries : List EnvoyRouteEntry) → puts (map put_route entries) ≡ []
puts-routes [] = refl
puts-routes (e ∷ es) = puts-routes es

puts-pod_applied :
    (ip ns app svc type : Text) (xs : List Action)
    → puts (pod_applied_actions ip ns app svc type ++ xs)
      ≡ running ip (record {
        namespace = ns;
        application_name = app;
        service_name = svc;
        service_type = type;
      })
        ∷ puts xs
unfolding pod_applied_actions
puts-pod_applied ip ns [] svc type xs = refl
puts-pod_applied ip ns (c ∷ app) svc type xs = refl

puts-pods :
    (e : ServicePodEntry) (ips : List Text)
    → puts (
        flat_map
          (λ ip.
            pod_applied_actions ip e.namespace e.application_name e.service_name e.service_type)
          ips)
      ≡ map (entry_report e) ips
unfolding flat_map
puts-pods e [] = refl
puts-pods e (ip ∷ ips) =
    puts-pod_applied ip e.namespace e.application_name e.service_name e.service_type _
    ∙ ap (λ rs. entry_report e ip ∷ rs) (puts-pods e ips)

puts-entries :
    (entries : List ServicePodEntry)
    → puts (flat_map entry_actions entries) ≡ entries_reports entries
unfolding flat_map entry_actions
puts-entries [] = refl
puts-entries (e ∷ es) =
    puts-append (entry_actions e) (flat_map entry_actions es)
    ∙ (ap (λ rs. rs ++ puts (flat_map entry_actions es)) (puts-pods e e.pod_ips)
        ∙ ap (λ rs. map (entry_report e) e.pod_ips ++ rs) (puts-entries es))

last_report-said :
    (rs : List PodReport) (key : Text) (known : Option PodInfo) (info : PodInfo)
    → last_report rs key known ≡ some info
    → Memᴰ (running key info) rs ⊎ (known ≡ some info)
last_report-said [] key known info h = inr h
last_report-said (running ip i ∷ rs) key known info h =
    elim (last_report-said rs key (update (running ip i) key known) info h) [
      | inl later ↦ inl (Memᴰ.tail later)
      | inr now ↦ elim (Bool-cases (ip == key)) [
        | inl same ↦ inl (Memᴰ.head (ground (arith, ==_iff ip key)))
        | inr other ↦ inr (ground arith)
      ]
    ]
last_report-said (gone ip ∷ rs) key known info h =
    elim (last_report-said rs key (update (gone ip) key known) info h) [
      | inl later ↦ inl (Memᴰ.tail later)
      | inr now ↦ elim (Bool-cases (ip == key)) [
        | inl same ↦ absurd (ground arith)
        | inr other ↦ inr (ground arith)
      ]
    ]

module _ (lib : CacheLib) where
  -- The accesses of a call report what the call says.
  pub puts-actions_of :
      (to_json : Map Text Text → Text) (c : Call) → puts (actions_of lib to_json c) ≡ call_reports c
  unfolding actions_of try_event_type pod_applied_actions
  puts-actions_of to_json (pod_call req) = ground arith
  puts-actions_of to_json (service_call req) = ground arith
  puts-actions_of to_json (config_map_call req) = refl
  puts-actions_of to_json (pod_map_call entries) = puts-entries entries
  puts-actions_of to_json (resource_call now req) = ground arith
  puts-actions_of to_json (routes_call entries) = puts-routes entries

  -- An access changes the entry of an address as the report in it says.
  act-last_report :
      (s : State lib) (a : Action) (key : Text)
      → entry_of lib (act lib s a) key ≡ last_report (puts (a ∷ [])) key (entry_of lib s key)
  unfolding act with_topology add_route
  act-last_report s (put_pod ip info) key = lib.get-insert PodInfo s.pod_cache ip info key
  act-last_report s (drop_pod ip) key = lib.get-remove PodInfo s.pod_cache ip key
  act-last_report s (heal ip app ns) key = ground arith
  act-last_report s (put_service k info) key = refl
  act-last_report s (drop_service k) key = refl
  act-last_report s (queue_row row) key = refl
  act-last_report s (attach node event) key = ground arith
  act-last_report s (put_route entry) key = refl

  -- What core knows of an address after an access was in the access or is known before.
  pub act-said :
      (s : State lib) (a : Action) (key : Text) (info : PodInfo)
      → entry_of lib (act lib s a) key ≡ some info
      → Memᴰ (running key info) (puts (a ∷ [])) ⊎ (entry_of lib s key ≡ some info)
  act-said s a key info h =
      last_report-said (puts (a ∷ [])) key (entry_of lib s key) info
        (sym (act-last_report s a key) ∙ h)
