-- ===== src/Agent/Informer/Laws.antt =====
-- cluster-agent/src/kubernetes/informer.rs: what a watched stream does to the services' registry, and
-- where an error ends it.
use qubit.Base.{
  Text, text_eq, codes, ◌==◌, is_empty, or_empty, if◌then◌else◌, false, Option, none, some, List,
  [], ◌∷◌, ◌++◌, map, ◌≡◌, refl, ap, ◌∙◌, arith, Option-cases, Bool-cases, inl, inr,
}
use qubit.Base.Map
use qubit.Agent.Objects.{Service}
use qubit.Agent.Registry.{
  RegisteredService, ServiceRegistry, registry_key, type_or_default, insert_service, register,
  deregister,
}
use qubit.Agent.Registry.Laws.{register_lem, deregister_lem}
use qubit.Agent.Handlers.{service_on_apply, service_on_delete}
use qubit.Agent.Informer.{
  WatchEvent, apply, delete, init, init_apply, init_done, Item, event, error, EventHandler, ended,
  failed, handle, start,
}
use qubit.Agent.Informer.Handlers.{service_handler}

-- The events before the first error.
abbrev pub before_error : {K : Type 0} → List (Item K) → List (WatchEvent K)
before_error [] = []
before_error (event ev ∷ items) = ev ∷ before_error items
before_error (error e ∷ items) = []

-- What becomes of a key when a service is applied: only a service with a name and a selector counts.
abbrev pub applied : Service → Text → Option RegisteredService → Option RegisteredService
applied svc key known = elim svc.metadata.name [
  | none ↦ known
  | some name ↦ elim svc.spec [
    | none ↦ known
    | some spec ↦
        if is_empty (or_empty spec.selector)
        then known
        else if registry_key (or_empty svc.metadata.namespace) name == key
        then some (record {
          name = name;
          service_type = type_or_default spec.type_name;
          selector = or_empty spec.selector;
        })
        else known
  ]
]

abbrev pub update : WatchEvent Service → Text → Option RegisteredService → Option RegisteredService
update (apply svc) key known = applied svc key known
update (delete svc) key known =
    if registry_key (or_empty svc.metadata.namespace) (or_empty svc.metadata.name) == key
    then none
    else known
update init key known = known
update (init_apply svc) key known = applied svc key known
update init_done key known = known

abbrev pub last_told :
    List (WatchEvent Service) → Text → Option RegisteredService → Option RegisteredService
last_told [] key known = known
last_told (ev ∷ evs) key known = last_told evs key (update ev key known)

register-applied :
    (r : ServiceRegistry) (svc : Service) (key : Text)
    → r.poisoned ≡ false
    → Map.get (register r svc).0.services key ≡ applied svc key (Map.get r.services key)
unfolding register
register-applied r svc key usable = elim (Option-cases svc.metadata.name) [
  | inl unnamed ↦ ground arith
  | inr (name, named) ↦ elim (Option-cases svc.spec) [
    | inl unspecified ↦ ground arith
    | inr (spec, specified) ↦ elim (Bool-cases (is_empty (or_empty spec.selector))) [
      | inl none_selected ↦ ground arith
      | inr selecting ↦
          ground (arith, register_lem r svc name spec key named specified selecting usable)
    ]
  ]
]

register-poisoned : (r : ServiceRegistry) (svc : Service) → (register r svc).0.poisoned ≡ r.poisoned
unfolding register insert_service
register-poisoned r svc = ground arith

deregister-poisoned :
    (r : ServiceRegistry) (name namespace : Text)
    → (deregister r name namespace).0.poisoned ≡ r.poisoned
unfolding deregister
deregister-poisoned r name namespace = ground arith

handle-update :
    (r : ServiceRegistry) (ev : WatchEvent Service) (key : Text)
    → r.poisoned ≡ false
    → (Map.get (handle service_handler r ev).0.services key
        ≡ update ev key (Map.get r.services key))
      × ((handle service_handler r ev).0.poisoned ≡ false)
unfolding handle service_on_apply service_on_delete
handle-update r (apply svc) key usable =
    (register-applied r svc key usable, register-poisoned r svc ∙ usable)
handle-update r (delete svc) key usable = (
  deregister_lem r (or_empty svc.metadata.name) (or_empty svc.metadata.namespace) key usable,
  deregister-poisoned r (or_empty svc.metadata.name) (or_empty svc.metadata.namespace) ∙ usable,
)
handle-update r init key usable = (refl, usable)
handle-update r (init_apply svc) key usable =
    (register-applied r svc key usable, register-poisoned r svc ∙ usable)
handle-update r init_done key usable = (refl, usable)

-- Under a usable lock, the service informer leaves the registry with what the stream's last word
-- on each key is, up to the first error: a service that is applied or listed with a name, a
-- specification and a selector that is not empty sets its key, a deletion clears its key, and
-- nothing else counts, in particular not the beginning and the end of a list.
pub start-last_told :
    (type_name : Text) (r : ServiceRegistry) (items : List (Item Service)) (key : Text)
    → r.poisoned ≡ false
    → Map.get (start service_handler type_name r items).0.services key
      ≡ last_told (before_error items) key (Map.get r.services key)
unfolding start
start-last_told type_name r [] key usable = refl
start-last_told type_name r (error e ∷ items) key usable = refl
start-last_told type_name r (event ev ∷ items) key usable =
    let (step, kept) = handle-update r ev key usable in
    start-last_told type_name (handle service_handler r ev).0 items key kept
    ∙ ap (last_told (before_error items) key) step

-- An informer whose stream yields an error after some events has the shared state and the
-- messages of these events, handles nothing of what comes later, and fails with an answer that
-- names its type and the error; without the error it would have ended well.
pub start-error :
    {S K : Type 0} (handler : EventHandler S K) (type_name : Text) (s : S)
    (evs : List (WatchEvent K)) (e : Text) (later : List (Item K))
    → let whole = start handler type_name s (map event evs ++ error e ∷ later) in
      let until = start handler type_name s (map event evs) in
      (whole.0 ≡ until.0)
      × (whole.1 ≡ until.1)
      × (until.2 ≡ ended)
      × (whole.2 ≡ failed (type_name ++ (codes " watcher error: " ++ e)))
unfolding start
start-error handler type_name s [] e later = (refl, refl, refl, refl)
start-error handler type_name s (ev ∷ evs) e later =
    let (s', sent) = handle handler s ev in
    let (same, more, finished, fails) = start-error handler type_name s' evs e later in
    (same, ap (λ m. sent ++ m) more, finished, fails)
