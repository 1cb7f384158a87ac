-- ===== src/Agent/Registry/Laws.antt =====
-- cluster-agent/src/kubernetes/service_registry.rs: which service a pod is told to belong to.
use mathlib.Core.List.Memᴰ
use qubit.Base.{
  Option, ◌∙◌, subst, sym, ap, Text, text_eq, ◌==◌, is_empty, or_empty, if◌then◌else◌, true, false,
  none, some, [], ◌∷◌, Memᴰ, ◌≡◌, ◌≢◌, ◌↔◌, inl, inr, refl, arith, Bool-cases,
}
use qubit.Base.Map
use qubit.Base.Map.{Map, get-insert, get-remove}
use qubit.Agent.Objects.{Pod, Service, ServiceSpec}
use qubit.Agent.Registry.{
  RegisteredService, ServiceRegistry, registry_key, insert_service, register, deregister, has_label,
  selects, first_match, find_service_for_pod, type_or_default,
}

-- Every label that the selector names is a label of the pod.
abbrev pub IsSubset : Map Text Text → Map Text Text → Type 0
IsSubset selector labels = (k v : Text) → Memᴰ (k, v) selector → Map.get labels k ≡ some v

has_label_iff :
    (labels : Map Text Text) (k v : Text)
    → (has_label labels (k, v) ≡ true) ↔ (Map.get labels k ≡ some v)
unfolding has_label
has_label_iff labels k v = ground arith

selects_iff :
    (selector labels : Map Text Text) → (selects selector labels ≡ true) ↔ IsSubset selector labels
unfolding selects
selects_iff [] labels = (λ _ k v m. absurd (Memᴰ.not-nil m), λ _. refl)
selects_iff ((k, v) ∷ selector) labels =
    let (here, there) = has_label_iff labels k v in
    let rest = selects_iff selector labels in
    (
      λ h k' v' m. elim (Memᴰ.cases_cons m) [
        | inl p ↦
            subst (λ (q : Text × Text). Map.get labels q.0 ≡ some q.1) (sym p) (here (ground arith))
        | inr m' ↦ rest.0 (ground arith) k' v' m'
      ],
      λ s.
          ground (arith, there (s k v (Memᴰ.head refl)), rest.1 (λ k' v' m. s k' v' (Memᴰ.tail m))),
    )

-- A registered service whose selector is a subset of the labels.
abbrev pub Serves : Map Text RegisteredService → Map Text Text → Text → Text → Type 0
Serves services labels name type =
    (key : Text) × (r : RegisteredService) × Memᴰ (key, r) services
    × IsSubset r.selector labels
    × (r.name ≡ name)
    × (r.service_type ≡ type)

first_match-some :
    (services : Map Text RegisteredService) (labels : Map Text Text) (name type : Text)
    → first_match services labels ≡ some (name, type)
    → Serves services labels name type
unfolding first_match
first_match-some [] labels name type h = cc
first_match-some ((key, r) ∷ services) labels name type h =
    elim (Bool-cases (selects r.selector labels)) [
      | inl fits ↦ (
        key,
        r,
        Memᴰ.head refl,
        (selects_iff r.selector labels).0 fits,
        ground arith,
        ground arith,
      )
      | inr misfit ↦
          let (key', r', m, subset, n, t) =
            first_match-some services labels name type (ground arith) in
          (key', r', Memᴰ.tail m, subset, n, t)
    ]

first_match-none :
    (services : Map Text RegisteredService) (labels : Map Text Text)
    → first_match services labels ≡ none
    → (key : Text) (r : RegisteredService) → Memᴰ (key, r) services
    → ¬ IsSubset r.selector labels
unfolding first_match
first_match-none [] labels h key r m s = Memᴰ.not-nil m
first_match-none ((k, q) ∷ services) labels h key r m s =
    elim (Bool-cases (selects q.selector labels)) [
      | inl fits ↦ ground arith
      | inr misfit ↦ elim (Memᴰ.cases_cons m) [
        | inl p ↦
            let same = ap (λ (e : Text × RegisteredService). e.1) p in
            let chosen =
              (selects_iff q.selector labels).1
                (subst (λ (x : RegisteredService). IsSubset x.selector labels) same s) in
            cc
        | inr m' ↦ first_match-none services labels (ground arith) key r m' s
      ]
    ]

module _ (r : ServiceRegistry) (pod : Pod) (labels : Map Text Text) where
  find_lem :
      pod.metadata.labels ≡ some labels
      → r.poisoned ≡ false
      → find_service_for_pod r pod ≡ first_match r.services labels
  unfolding find_service_for_pod
  find_lem known usable = ground arith

  -- What the search has to answer.
  abbrev pub IsAnswer : Option (Text × Text) → Type 0
  IsAnswer none = (name type : Text) → ¬ Serves r.services labels name type
  IsAnswer (some (name, type)) = Serves r.services labels name type

  first_match-IsAnswer :
      (found : Option (Text × Text)) → first_match r.services labels ≡ found → IsAnswer found
  first_match-IsAnswer none h =
      λ name type (key, s, m, subset, _, _). first_match-none r.services labels h key s m subset
  first_match-IsAnswer (some (name, type)) h = first_match-some r.services labels name type h

  -- For a pod with labels and a usable lock, `find_service_for_pod` answers rightly: a service
  -- that is found is a registered one whose selector is a subset of the labels, and if none is
  -- found there is no such service.
  pub find_service_for_pod-IsAnswer :
      pod.metadata.labels ≡ some labels → r.poisoned ≡ false → IsAnswer (find_service_for_pod r pod)
  find_service_for_pod-IsAnswer known usable =
      rw (find_lem known usable) (first_match-IsAnswer (first_match r.services labels) refl)

  find_none :
      pod.metadata.labels ≡ some labels
      → r.poisoned ≡ false
      → find_service_for_pod r pod ≡ none
      → (name type : Text) → ¬ Serves r.services labels name type
  find_none known usable missed = subst IsAnswer missed (find_service_for_pod-IsAnswer known usable)

-- Registering a service that has a name, a specification and a selector that is not empty, under
-- a usable lock, puts its name, its type or the default one, and its selector under the key of
-- its namespace and name, and leaves every other key as it was.
pub register_lem :
    (r : ServiceRegistry) (svc : Service) (name : Text) (spec : ServiceSpec) (key : Text)
    → svc.metadata.name ≡ some name
    → svc.spec ≡ some spec
    → is_empty (or_empty spec.selector) ≡ false
    → r.poisoned ≡ false
    → Map.get (register r svc).0.services key ≡ (
        if registry_key (or_empty svc.metadata.namespace) name == key
        then some (record {
          name = name;
          service_type = type_or_default spec.type_name;
          selector = or_empty spec.selector;
        })
        else Map.get r.services key)
unfolding register insert_service
register_lem r svc name spec key named specified selecting usable =
    let place = registry_key (or_empty svc.metadata.namespace) name in
    let registered : RegisteredService = record {
      name = name;
      service_type = type_or_default spec.type_name;
      selector = or_empty spec.selector;
    } in
    ground (arith, get-insert r.services place registered key)

mem_of_get :
    (services : Map Text RegisteredService) (key : Text) (s : RegisteredService)
    → Map.get services key ≡ some s
    → Memᴰ (key, s) services
unfolding Map.get
mem_of_get [] key s h = cc
mem_of_get ((k, q) ∷ services) key s h = elim (Bool-cases (k == key)) [
  | inl same ↦ Memᴰ.head (ground arith)
  | inr other ↦ Memᴰ.tail (mem_of_get services key s (ground arith))
]

register_keeps_lock :
    (r : ServiceRegistry) (svc : Service) → (register r svc).0.poisoned ≡ r.poisoned
unfolding register insert_service
register_keeps_lock r svc = ground arith

-- After a service with a name and a selector that is not empty is registered under a usable lock,
-- every pod whose labels contain the selector is told that it belongs to a service, in whatever
-- namespace the pod is.
pub registered_is_found :
    (r : ServiceRegistry) (svc : Service) (name : Text) (spec : ServiceSpec) (pod : Pod)
    (labels : Map Text Text)
    → svc.metadata.name ≡ some name
    → svc.spec ≡ some spec
    → is_empty (or_empty spec.selector) ≡ false
    → r.poisoned ≡ false
    → pod.metadata.labels ≡ some labels
    → IsSubset (or_empty spec.selector) labels
    → find_service_for_pod (register r svc).0 pod ≢ none
registered_is_found r svc name spec pod labels named specified selecting usable labelled subset
      missed =
    let key = registry_key (or_empty svc.metadata.namespace) name in
    let r' = (register r svc).0 in
    let stored =
      mem_of_get r'.services key
        (record {
          name = name;
          service_type = type_or_default spec.type_name;
          selector = or_empty spec.selector;
        })
        (ground (arith, register_lem r svc name spec key named specified selecting usable)) in
    find_none r' pod labels labelled (register_keeps_lock r svc ∙ usable) missed name
      (type_or_default spec.type_name) (key, _, stored, subset, refl, refl)

pub deregister_lem :
    (r : ServiceRegistry) (name namespace key : Text)
    → r.poisoned ≡ false
    → Map.get (deregister r name namespace).0.services key
      ≡ (if registry_key namespace name == key then none else Map.get r.services key)
unfolding deregister
deregister_lem r name namespace key usable =
    ground (arith, get-remove r.services (registry_key namespace name) key)
