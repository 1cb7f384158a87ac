-- ===== src/Agent/Handlers/Laws.antt =====
-- cluster-agent/src/kubernetes/pod_handler.rs and cluster-agent/src/server/mod.rs: what core knows of
-- a pod once the agent's message has arrived.
use mathlib.Core.List.{foldl}
use mathlib.Core.List.Memᴰ
use qubit.Base.{
  ℕ, Text, text_eq, ◌==◌, or_empty, if◌then◌else◌, true, none, some, List, [], ◌∷◌, Memᴰ, Memᴰ-cons,
  ◌≡◌, ◌↔◌, ◌⊎◌, inl, inr, refl, arith, Option-cases, subst, sym,
}
use qubit.Base.Map.{Map}
use qubit.Agent.Objects.{Pod}
use qubit.Agent.Registry.{ServiceRegistry, find_service_for_pod}
use qubit.Agent.Handlers.{
  Message, pod_ip, pod_ip_and_namespace, label_of, resolve_application_name, service_or_default,
  send_pod_applied, send_pod_deleted, pod_on_apply, pod_on_delete, selected, pod_ips_of, deliver,
}
use qubit.Core.Cache.{CacheLib}
use qubit.Core.State.{PodInfo}
use qubit.Core.K8s.{record_pod_applied, record_pod_deleted}
use qubit.Core.K8s.Laws.{pod_cache_lem}
use qubit.Core.Grpc.{System, try_event_type, send_pod_event}

-- What the handler says of the pod.
abbrev pub info_of : ServiceRegistry → Pod → PodInfo
info_of registry pod =
    let found = service_or_default (find_service_for_pod registry pod) in
    record {
      namespace = or_empty pod.metadata.namespace;
      application_name = resolve_application_name pod found.0;
      service_name = found.0;
      service_type = found.1;
    }

module _ (lib : CacheLib) (to_json : Map Text Text → Text) (now : ℕ) (s : System lib)
    (registry : ServiceRegistry) (pod : Pod) where
  abbrev pub told : List Message → System lib
  told messages = foldl (deliver lib to_json now) s messages

  abbrev applied : Text → Message
  applied ip =
      let i = info_of registry pod in
      send_pod_applied ip i.namespace i.application_name i.service_name i.service_type

  pub applied_message :
      (ip : Text) → pod_ip pod ≡ some ip → pod_on_apply registry pod ≡ applied ip ∷ []
  unfolding pod_on_apply pod_ip pod_ip_and_namespace
  applied_message ip known = ground arith

  pub deleted_message :
      (ip : Text) → pod_ip pod ≡ some ip → pod_on_delete pod ≡ send_pod_deleted ip ∷ []
  unfolding pod_on_delete
  deleted_message ip known = ground arith

  pub delivered :
      (ip : Text)
      → (let i = info_of registry pod in
          (told (applied ip ∷ [])).core
          ≡ record_pod_applied lib s.core ip i.namespace i.application_name i.service_name
              i.service_type)
        × ((told (send_pod_deleted ip ∷ [])).core ≡ record_pod_deleted lib s.core ip)
  unfolding deliver send_pod_applied send_pod_deleted send_pod_event try_event_type
  delivered ip = (refl, refl)

  -- Once the messages of the pod handler for a pod with an address have arrived at core, core's
  -- pod cache has under that address what the handler found out when the pod was applied, and
  -- nothing when it was deleted; the entries of all other addresses are as before.
  pub pod_handler_lem :
      (ip : Text)
      → pod_ip pod ≡ some ip
      → (key : Text)
      → (lib.get PodInfo (told (pod_on_apply registry pod)).core.pod_cache key ≡ (
          if ip == key then some (info_of registry pod) else lib.get PodInfo s.core.pod_cache key))
        × (lib.get PodInfo (told (pod_on_delete pod)).core.pod_cache key
            ≡ (if ip == key then none else lib.get PodInfo s.core.pod_cache key))
  pod_handler_lem ip known key =
      let i = info_of registry pod in
      let cache =
        pod_cache_lem lib s.core ip i.namespace i.application_name i.service_name i.service_type
          key in
      (
        rw (applied_message ip known) (rw (delivered ip).0 cache.0),
        rw (deleted_message ip known) (rw (delivered ip).1 cache.1),
      )

  -- A pod that has no address yet is not reported.
  no_address_no_message :
      pod_ip pod ≡ none → (pod_on_apply registry pod ≡ []) × (pod_on_delete pod ≡ [])
  unfolding pod_on_apply pod_on_delete pod_ip pod_ip_and_namespace
  no_address_no_message unknown = (ground arith, ground arith)

selected_iff :
    (selector : Map Text Text) (pod : Pod)
    → (selected selector pod ≡ true)
      ↔ ((k v : Text) → Memᴰ (k, v) selector → label_of pod k ≡ some v)
unfolding selected
selected_iff [] pod = (λ _ k v m. absurd (Memᴰ.not-nil m), λ _. refl)
selected_iff ((k, v) ∷ selector) pod =
    let rest = selected_iff selector pod in
    (
      λ h k' v' m. elim (Memᴰ.cases_cons m) [
        | inl p ↦ subst (λ (q : Text × Text). label_of pod q.0 ≡ some q.1) (sym p) (ground arith)
        | inr m' ↦ rest.0 (ground arith) k' v' m'
      ],
      λ s. ground (arith, s k v (Memᴰ.head refl), rest.1 (λ k' v' m. s k' v' (Memᴰ.tail m))),
    )

pod_ips_step :
    (selector : Map Text Text) (pod : Pod) (pods : List Pod) (ip : Text)
    → Memᴰ ip (pod_ips_of selector (pod ∷ pods)) ↔ (
        Memᴰ ip (pod_ips_of selector pods)
        ⊎ ((selected selector pod ≡ true) × (pod_ip pod ≡ some ip)))
unfolding pod_ips_of
pod_ips_step selector pod pods ip = elim (Option-cases (pod_ip pod)) [
  | inl absent ↦ ground arith
  | inr (j, known) ↦ ground (arith, Memᴰ-cons ip j (pod_ips_of selector pods))
]

-- The initial map lists an address for a selector exactly if a pod of the list has that address
-- and every label that the selector names.
pub pod_ips_of_lem :
    (selector : Map Text Text) (pods : List Pod) (ip : Text)
    → Memᴰ ip (pod_ips_of selector pods) ↔ (
        (pod : Pod) × Memᴰ pod pods
        × (pod_ip pod ≡ some ip)
        × ((k v : Text) → Memᴰ (k, v) selector → label_of pod k ≡ some v))
unfolding pod_ips_of
pod_ips_of_lem selector [] ip =
    (λ m. absurd (Memᴰ.not-nil m), λ (pod, m, _, _). absurd (Memᴰ.not-nil m))
pod_ips_of_lem selector (pod ∷ pods) ip =
    let rest = pod_ips_of_lem selector pods ip in
    let step = pod_ips_step selector pod pods ip in
    (
      λ m. elim (step.0 m) [
        | inl later ↦ let (p, mem, address, all) = rest.0 later in (p, Memᴰ.tail mem, address, all)
        | inr (chosen, address) ↦
            (pod, Memᴰ.head refl, address, (selected_iff selector pod).0 chosen)
      ],
      λ (p, mem, address, all). elim (Memᴰ.cases_cons mem) [
        | inl same ↦ step.1 (
            inr (
              (selected_iff selector pod).1 (
                  subst (λ (q : Pod). (k v : Text) → Memᴰ (k, v) selector → label_of q k ≡ some v)
                    same all),
              subst (λ (q : Pod). pod_ip q ≡ some ip) same address,
            ))
        | inr later ↦ step.1 (inl (rest.1 (p, later, address, all)))
      ],
    )
