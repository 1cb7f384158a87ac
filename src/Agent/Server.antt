-- ===== src/Agent/Server.antt =====
-- cluster-agent/src/kubernetes/informer_factory.rs, controller.rs and model.rs: the informers with their
-- handlers, and cluster-agent/src/server/mod.rs, `run`: what ends the agent.
pub mod Laws
use qubit.Base.{Text, codes, Bool, true, false, if◌then◌else◌, Option, none, some, List, [], ◌∷◌}
use qubit.Agent.Objects.{ObjectMeta, Pod, Service, ConfigMap, Event}
use qubit.Agent.Registry.{ServiceRegistry}
use qubit.Agent.Envoy.{YamlLib}
use qubit.Agent.Handlers.{Message}
use qubit.Agent.Informer.{Item, Outcome, start, start_node}
use qubit.Agent.Informer.Handlers.{
  pod_handler, service_handler, configmap_handler, event_handler, generic_handler,
}

pub data InformerType : Type 0 where
  service : InformerType
  config_map : InformerType
  pod : InformerType
  deployment : InformerType
  replica_set : InformerType
  ingress : InformerType
  event : InformerType
  hpa : InformerType
  node : InformerType
  rollout : InformerType
  external_secret : InformerType
  http_proxy : InformerType
  virtual_service : InformerType

-- `{:?}`
unfoldable pub debug_name : InformerType → Text
debug_name service = codes "Service"
debug_name config_map = codes "ConfigMap"
debug_name pod = codes "Pod"
debug_name deployment = codes "Deployment"
debug_name replica_set = codes "ReplicaSet"
debug_name ingress = codes "Ingress"
debug_name event = codes "Event"
debug_name hpa = codes "Hpa"
debug_name node = codes "Node"
debug_name rollout = codes "Rollout"
debug_name external_secret = codes "ExternalSecret"
debug_name http_proxy = codes "HttpProxy"
debug_name virtual_service = codes "VirtualService"

-- What the generic handlers of the factory are given.
unfoldable pub resource_type : InformerType → Text
resource_type hpa = codes "HPA"
resource_type http_proxy = codes "HTTPProxy"
resource_type type = debug_name type

-- The streams of the watchers.
pub record Streams : Type 0 where
  pub services : List (Item Service)
  pub config_maps : List (Item ConfigMap)
  pub pods : List (Item Pod)
  pub events : List (Item Event)
  pub resources : InformerType → List (Item ObjectMeta)

-- An informer of the factory, once it is started.
unfoldable pub informer :
    YamlLib → Streams → ServiceRegistry → InformerType → ServiceRegistry × List Message × Outcome
informer y streams r service = start service_handler (debug_name service) r streams.services
informer y streams r config_map =
    start (configmap_handler y) (debug_name config_map) r streams.config_maps
informer y streams r pod = start pod_handler (debug_name pod) r streams.pods
informer y streams r event = start event_handler (debug_name event) r streams.events
informer y streams r node =
    start_node (generic_handler (resource_type node)) r (streams.resources node)
informer y streams r type =
    start (generic_handler (resource_type type)) (debug_name type) r (streams.resources type)

unfoldable pub create_informers : List InformerType
create_informers =
    config_map ∷ service ∷ pod ∷ deployment ∷ replica_set ∷ ingress ∷ event ∷ hpa ∷ node ∷ rollout
    ∷ external_secret ∷ http_proxy ∷ virtual_service ∷ []

-- The tasks whose handle is kept for `select!`; the others are detached.
unfoldable pub is_awaited : InformerType → Bool
is_awaited rollout = false
is_awaited external_secret = false
is_awaited http_proxy = false
is_awaited virtual_service = false
is_awaited type = true

pub data Signal : Type 0 where
  ctrl_c : Signal
  task_ended : InformerType → Signal

unfoldable pub is_end : Signal → Bool
is_end ctrl_c = true
is_end (task_ended type) = is_awaited type

-- The signal at which `run` returns, if it does.
unfoldable pub run : List Signal → Option Signal
run [] = none
run (x ∷ signals) = let later = run signals in if is_end x then some x else later
