-- ===== src/Agent/Server/Laws.antt =====
-- cluster-agent/src/kubernetes/informer_factory.rs: what the messages of an informer are about.
use qubit.Base.{Text, text_eq, codes, List, [], ◌∷◌, ◌++◌, ◌≡◌, refl, arith}
use qubit.Agent.Objects.{ObjectMeta, Pod, Service, ConfigMap, Event}
use qubit.Agent.Registry.{ServiceRegistry}
use qubit.Agent.Envoy.{YamlLib}
use qubit.Agent.Handlers.{
  Message, pod_event, service_event, resource_event, config_map_event, envoy_routes, pod_on_apply,
  pod_on_delete, pod_ip, pod_ip_and_namespace, send_pod_applied, send_pod_deleted, service_on_apply,
  service_on_delete, send_service, extract_fields, generic_event,
}
use qubit.Agent.ConfigMaps.{
  configmap_on_apply, configmap_on_delete, send_configmap, send_envoy_routes,
}
use qubit.Agent.Events.{event_on_apply, event_on_delete}
use qubit.Agent.Informer.{
  WatchEvent, apply, delete, init, init_apply, init_done, Item, event as item, error, EventHandler,
  handle, start, start_node,
}
use qubit.Agent.Informer.Handlers.{
  pod_handler, service_handler, configmap_handler, event_handler, generic_handler,
}
use qubit.Agent.Server.{
  InformerType, service, config_map, pod, event, debug_name, resource_type, Streams, informer,
}

abbrev AllMessages : (Message → Type 0) → List Message → Type 0
AllMessages P [] = Unit
AllMessages P (m ∷ ms) = P m × AllMessages P ms

AllMessages-append :
    (P : Message → Type 0) (ms ns : List Message)
    → AllMessages P ms
    → AllMessages P ns
    → AllMessages P (ms ++ ns)
AllMessages-append P [] ns h k = k
AllMessages-append P (m ∷ ms) ns h k = (h.0, AllMessages-append P ms ns h.1 k)

module _ {S K : Type 0} (handler : EventHandler S K) (P : Message → Type 0)
    (each : (s : S) (ev : WatchEvent K) → AllMessages P (handle handler s ev).1) where
  start-All :
      (type_name : Text) (s : S) (items : List (Item K))
      → AllMessages P (start handler type_name s items).1
  unfolding start
  start-All type_name s [] = tt
  start-All type_name s (error e ∷ items) = tt
  start-All type_name s (item ev ∷ items) =
      AllMessages-append P (handle handler s ev).1 _ (each s ev)
        (start-All type_name (handle handler s ev).0 items)

abbrev pub IsPodEvent : Message → Type 0
IsPodEvent (pod_event req) = Unit
IsPodEvent _ = ⊥

abbrev pub IsServiceEvent : Message → Type 0
IsServiceEvent (service_event req) = Unit
IsServiceEvent _ = ⊥

abbrev pub IsConfigMapEvent : Message → Type 0
IsConfigMapEvent (config_map_event req) = Unit
IsConfigMapEvent (envoy_routes entries) = Unit
IsConfigMapEvent _ = ⊥

abbrev pub IsResourceEvent : Text → Message → Type 0
IsResourceEvent type_name (resource_event req) = req.resource_type ≡ type_name
IsResourceEvent type_name _ = ⊥

-- The kind of message that an informer is for. A resource event tells the type of the resource.
abbrev pub IsAbout : InformerType → Message → Type 0
IsAbout pod = IsPodEvent
IsAbout service = IsServiceEvent
IsAbout config_map = IsConfigMapEvent
IsAbout type = IsResourceEvent (resource_type type)

pod_messages :
    (r : ServiceRegistry) (ev : WatchEvent Pod) → AllMessages IsPodEvent (handle pod_handler r ev).1
unfolding handle pod_on_apply pod_on_delete pod_ip pod_ip_and_namespace send_pod_applied
    send_pod_deleted
pod_messages r (apply p) = ground arith
pod_messages r (delete p) = ground arith
pod_messages r init = tt
pod_messages r (init_apply p) = tt
pod_messages r init_done = tt

service_messages :
    (r : ServiceRegistry) (ev : WatchEvent Service)
    → AllMessages IsServiceEvent (handle service_handler r ev).1
unfolding handle service_on_apply service_on_delete extract_fields send_service
service_messages r (apply svc) = ground arith
service_messages r (delete svc) = ground arith
service_messages r init = tt
service_messages r (init_apply svc) = ground arith
service_messages r init_done = tt

module _ {S : Type 0} where
  config_map_messages :
      (y : YamlLib) (s : S) (ev : WatchEvent ConfigMap)
      → AllMessages IsConfigMapEvent (handle (configmap_handler y) s ev).1
  unfolding handle configmap_on_apply configmap_on_delete send_configmap send_envoy_routes
  config_map_messages y s (apply cm) = ground arith
  config_map_messages y s (delete cm) = ground arith
  config_map_messages y s init = tt
  config_map_messages y s (init_apply cm) = ground arith
  config_map_messages y s init_done = tt

  event_messages :
      (s : S) (ev : WatchEvent Event)
      → AllMessages (IsResourceEvent (codes "Event")) (handle event_handler s ev).1
  unfolding handle event_on_apply event_on_delete
  event_messages s (apply e) = (refl, tt)
  event_messages s (delete e) = tt
  event_messages s init = tt
  event_messages s (init_apply e) = (refl, tt)
  event_messages s init_done = tt

  generic_messages :
      (type_name : Text) (s : S) (ev : WatchEvent ObjectMeta)
      → AllMessages (IsResourceEvent type_name) (handle (generic_handler type_name) s ev).1
  unfolding handle generic_event
  generic_messages type_name s (apply meta) = (refl, tt)
  generic_messages type_name s (delete meta) = (refl, tt)
  generic_messages type_name s init = tt
  generic_messages type_name s (init_apply meta) = (refl, tt)
  generic_messages type_name s init_done = tt

resources_start :
    (r : ServiceRegistry) (type_name log_name : Text) (items : List (Item ObjectMeta))
    → AllMessages (IsResourceEvent type_name) (start (generic_handler type_name) log_name r items).1
resources_start r type_name log_name items =
    start-All (generic_handler type_name) (IsResourceEvent type_name) (generic_messages type_name)
      log_name r items

-- Every message of an informer is of its kind, whatever the stream.
informer-IsAbout :
    (y : YamlLib) (streams : Streams) (r : ServiceRegistry) (type : InformerType)
    → AllMessages (IsAbout type) (informer y streams r type).1
unfolding informer start_node resource_type debug_name
informer-IsAbout y streams r service =
    start-All service_handler IsServiceEvent service_messages _ r streams.services
informer-IsAbout y streams r config_map =
    start-All (configmap_handler y) IsConfigMapEvent (config_map_messages y) _ r streams.config_maps
informer-IsAbout y streams r pod = start-All pod_handler IsPodEvent pod_messages _ r streams.pods
informer-IsAbout y streams r event =
    start-All event_handler (IsResourceEvent (codes "Event")) event_messages _ r streams.events
informer-IsAbout y streams r type =
    resources_start r (resource_type type) _ (streams.resources type)
