-- ===== src/Agent/Registry.antt =====
-- cluster-agent/src/kubernetes/service_registry.rs: the selectors of the services, and the search
-- for the service of a pod. The lock is its map and whether it is poisoned; the order of the map's
-- entries stands for the order in which the program meets them.
pub mod Laws
use qubit.Base.{
  Text, codes, text_eq, text_dec, ◌==◌, ◌&&◌, ◌++◌, ◌>>=◌, is_empty, or_empty, if◌then◌else◌, Bool,
  true, false, Option, none, some, List, [], ◌∷◌,
}
use qubit.Base.Map
use qubit.Base.Map.{Map}
use qubit.Agent.Objects.{Pod, Service, ServiceSpec}

pub record RegisteredService : Type 0 where
  pub name : Text
  pub service_type : Text
  pub selector : Map Text Text

pub record ServiceRegistry : Type 0 where
  pub services : Map Text RegisteredService
  pub poisoned : Bool

abbrev pub empty_registry : ServiceRegistry
empty_registry = record { services = []; poisoned = false }

-- `Result<String, anyhow::Error>`
pub data Answer : Type 0 where
  ok : Text → Answer
  err : Text → Answer

unfoldable pub registry_key : Text → Text → Text
registry_key namespace name = namespace ++ (codes "/" ++ name)

-- `unwrap_or_else(|| "ClusterIP".to_string())`
unfoldable pub type_or_default : Option Text → Text
type_or_default none = codes "ClusterIP"
type_or_default (some type) = type

-- the insertion under the lock
unfoldable pub insert_service :
    ServiceRegistry → Text → Text → ServiceSpec → ServiceRegistry × Answer
insert_service r name namespace spec = if r.poisoned then (r, err (codes "lock poisoned")) else (
  record r {
    services = Map.insert r.services (registry_key namespace name) (record {
      name = name;
      service_type = type_or_default spec.type_name;
      selector = or_empty spec.selector;
    });
  },
  ok (codes "regisetered services"),
)

unfoldable pub register : ServiceRegistry → Service → ServiceRegistry × Answer
register r svc = elim svc.metadata.name [
  | none ↦ (r, ok (codes "no service found!"))
  | some name ↦ elim svc.spec [
    | none ↦ (r, ok (codes "No spec found!"))
    | some spec ↦
        if is_empty (or_empty spec.selector)
        then (r, ok (codes "No selector found on service"))
        else insert_service r name (or_empty svc.metadata.namespace) spec
  ]
]

unfoldable pub deregister : ServiceRegistry → Text → Text → ServiceRegistry × Answer
deregister r name namespace = if r.poisoned then (r, err (codes "lock poisoned")) else (
  record r { services = Map.remove r.services (registry_key namespace name) },
  ok (codes "deregisterd service"),
)

-- `pod_labels.get(k) == Some(v)`
unfoldable pub has_label : Map Text Text → Text × Text → Bool
has_label labels (k, v) = elim (Map.get labels k) [ none ↦ false | some w ↦ w == v ]

unfoldable pub selects : Map Text Text → Map Text Text → Bool
selects [] labels = true
selects (entry ∷ selector) labels = has_label labels entry && selects selector labels

unfoldable pub first_match : Map Text RegisteredService → Map Text Text → Option (Text × Text)
first_match [] labels = none
first_match ((key, registered) ∷ services) labels =
    let rest = first_match services labels in
    if selects registered.selector labels
    then some (registered.name, registered.service_type)
    else rest

unfoldable pub find_service_for_pod : ServiceRegistry → Pod → Option (Text × Text)
find_service_for_pod r pod = do
  pod_labels ← pod.metadata.labels
  if r.poisoned then none else first_match r.services pod_labels
