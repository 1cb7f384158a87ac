-- ===== src/Agent/Handlers/Resync.antt =====
-- cluster-agent/src/server/mod.rs, `send_initial_pod_service_map`, which the agent sends again every 30
-- seconds: what it does to the graph of core.
use mathlib.Core.List.Memᴰ
use qubit.Base.{
  ℕ, Text, text_eq, is_empty, or_empty, if◌then◌else◌, false, some, List, [], ◌∷◌, Memᴰ, ◌≡◌, ◌≢◌,
  inl, inr, refl, sym, ap, subst, ◌∙◌, Bool-cases, List-cases, Option-cases,
}
use qubit.Base.Map.{Map}
use qubit.Agent.Objects.{Pod, Service, ServiceSpec}
use qubit.Agent.Registry.{type_or_default}
use qubit.Agent.Handlers.{
  pod_ip, label_of, pod_ips_of, service_entry, service_entries, send_initial_pod_service_map,
  deliver,
}
use qubit.Agent.Handlers.Laws.{pod_ips_of_lem}
use qubit.Core.Topology.{stale_id, unknown}
use qubit.Core.Topology.Closed.{HasNode}
use qubit.Core.Cache.{CacheLib}
use qubit.Core.Grpc.{ServicePodEntry, System}
use qubit.Core.Grpc.Resync.{IsNamed, send_service_pod_map-heals}

-- No service is in a namespace called unknown or has the empty name.
abbrev pub IsOrdinary : Service → Type 0
IsOrdinary svc = (or_empty svc.metadata.namespace ≢ unknown) × (svc.metadata.name ≢ some [])

-- The entry of a service, if it has one.
abbrev entry : List Pod → Service → Text → ServiceSpec → ServicePodEntry
entry pods svc name spec = record {
  service_name = name;
  namespace = or_empty svc.metadata.namespace;
  service_type = type_or_default spec.type_name;
  pod_ips = pod_ips_of (or_empty spec.selector) pods;
  application_name = name;
}

service_entry_lem :
    (pods : List Pod) (svc : Service) (name : Text) (spec : ServiceSpec)
    → svc.metadata.name ≡ some name
    → svc.spec ≡ some spec
    → let selector = or_empty spec.selector in
      service_entry pods svc ≡ (
        if is_empty selector
        then []
        else if is_empty (pod_ips_of selector pods)
        then []
        else entry pods svc name spec ∷ [])
unfolding service_entry
service_entry_lem pods svc name spec named specified = rw (named, specified, service_entry) refl

only_entry :
    (pods : List Pod) (svc : Service) (name : Text) (spec : ServiceSpec) (e : ServicePodEntry)
    → svc.metadata.name ≡ some name
    → svc.spec ≡ some spec
    → Memᴰ e (service_entry pods svc)
    → e ≡ entry pods svc name spec
only_entry pods svc name spec e named specified m =
    let selector = or_empty spec.selector in
    let known = subst (Memᴰ e) (service_entry_lem pods svc name spec named specified) m in
    elim (Bool-cases (is_empty selector)) [
      | inl nothing ↦ absurd (Memᴰ.not-nil (rw nothing at known))
      | inr selecting ↦ elim (Bool-cases (is_empty (pod_ips_of selector pods))) [
        | inl nobody ↦ absurd (Memᴰ.not-nil (rw (selecting, nobody) at known))
        | inr someone ↦ elim (Memᴰ.cases_cons (rw (selecting, someone) at known)) [
          | inl same ↦ same
          | inr m' ↦ absurd (Memᴰ.not-nil m')
        ]
      ]
    ]

entry-IsNamed :
    (pods : List Pod) (svc : Service) (e : ServicePodEntry)
    → IsOrdinary svc
    → Memᴰ e (service_entry pods svc)
    → IsNamed e
unfolding service_entry
entry-IsNamed pods svc e ordinary m = elim (Option-cases svc.metadata.name) [
  | inl unnamed ↦ absurd (Memᴰ.not-nil (rw (unnamed, service_entry) at m))
  | inr (name, named) ↦ elim (Option-cases svc.spec) [
    | inl unspecified ↦ absurd (Memᴰ.not-nil (rw (named, unspecified, service_entry) at m))
    | inr (spec, specified) ↦
        let only = only_entry pods svc name spec e named specified m in
        (
          λ same. ordinary.0 (sym (ap (λ (x : ServicePodEntry). x.namespace) only) ∙ same),
          λ same. ordinary.1 (
              named ∙ ap some (sym (ap (λ (x : ServicePodEntry). x.application_name) only) ∙ same)),
        )
  ]
]

entries-IsNamed :
    (svcs : List Service) (pods : List Pod)
    → ((svc : Service) → Memᴰ svc svcs → IsOrdinary svc)
    → (e : ServicePodEntry) → Memᴰ e (service_entries svcs pods)
    → IsNamed e
unfolding service_entries
entries-IsNamed [] pods ordinary e m = absurd (Memᴰ.not-nil m)
entries-IsNamed (svc ∷ svcs) pods ordinary e m =
    elim (Memᴰ.append_cases (service_entry pods svc) m) [
      | inl first ↦ entry-IsNamed pods svc e (ordinary svc (Memᴰ.head refl)) first
      | inr later ↦ entries-IsNamed svcs pods (λ v at_v. ordinary v (Memᴰ.tail at_v)) e later
    ]

-- The entry of a service that selects the pod.
selecting_entry :
    (pods : List Pod) (svc : Service) (name : Text) (spec : ServiceSpec) (ip : Text)
    → svc.metadata.name ≡ some name
    → svc.spec ≡ some spec
    → is_empty (or_empty spec.selector) ≡ false
    → Memᴰ ip (pod_ips_of (or_empty spec.selector) pods)
    → (e : ServicePodEntry) × Memᴰ e (service_entry pods svc) × Memᴰ ip e.pod_ips
selecting_entry pods svc name spec ip named specified selecting listed =
    let ips = pod_ips_of (or_empty spec.selector) pods in
    elim (List-cases ips) [
      | inl nobody ↦ absurd (Memᴰ.not-nil (subst (Memᴰ ip) nobody listed))
      | inr (x, xs, someone) ↦
          let some_ips = ap is_empty someone in
          (
            entry pods svc name spec,
            subst (Memᴰ (entry pods svc name spec))
                (sym (service_entry_lem pods svc name spec named specified))
                (rw (selecting, some_ips) (Memᴰ.head refl)),
            listed,
          )
    ]

in_entries :
    (svcs : List Service) (pods : List Pod) (svc : Service) (e : ServicePodEntry)
    → Memᴰ svc svcs
    → Memᴰ e (service_entry pods svc)
    → Memᴰ e (service_entries svcs pods)
unfolding service_entries
in_entries [] pods svc e m at_e = absurd (Memᴰ.not-nil m)
in_entries (v ∷ svcs) pods svc e m at_e = elim (Memᴰ.cases_cons m) [
  | inl same ↦
      Memᴰ.append_left (service_entries svcs pods)
        (subst (λ x. Memᴰ e (service_entry pods x)) same at_e)
  | inr later ↦ Memᴰ.append_right (service_entry pods v) (in_entries svcs pods svc e later at_e)
]

-- Let core's topology lock not be poisoned, and let no listed service be in a namespace called
-- `unknown` or have the empty name. After the initial map of the listed services and pods has
-- arrived at core, the stale node of the address of a listed pod is no node of the graph, if a
-- listed service with a name, a specification and a selector that is not empty selects the pod.
pub resync-heals :
    (lib : CacheLib) (to_json : Map Text Text → Text) (now : ℕ) (s : System lib)
    (svcs : List Service) (pods : List Pod) (svc : Service) (name : Text) (spec : ServiceSpec)
    (pod : Pod) (ip : Text)
    → s.core.topology_poisoned ≡ false
    → ((v : Service) → Memᴰ v svcs → IsOrdinary v)
    → Memᴰ svc svcs
    → svc.metadata.name ≡ some name
    → svc.spec ≡ some spec
    → is_empty (or_empty spec.selector) ≡ false
    → Memᴰ pod pods
    → pod_ip pod ≡ some ip
    → ((k v : Text) → Memᴰ (k, v) (or_empty spec.selector) → label_of pod k ≡ some v)
    → ¬ HasNode
        (deliver lib to_json now s (send_initial_pod_service_map svcs pods)).core.topology
        (stale_id ip)
unfolding deliver send_initial_pod_service_map
resync-heals lib to_json now s svcs pods svc name spec pod ip usable ordinary at_svc named specified
      selecting at_pod address labelled =
    let listed =
      (pod_ips_of_lem (or_empty spec.selector) pods ip).1 (pod, at_pod, address, labelled) in
    let (e, in_entry, at_ip) =
      selecting_entry pods svc name spec ip named specified selecting listed in
    send_service_pod_map-heals lib s (service_entries svcs pods) e ip
      (entries-IsNamed svcs pods ordinary) usable (in_entries svcs pods svc e at_svc in_entry) at_ip
