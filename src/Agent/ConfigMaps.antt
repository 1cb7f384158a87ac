-- ===== src/Agent/ConfigMaps.antt =====
-- cluster-agent/src/kubernetes/configmap_handler.rs, `send_envoy_routes_from_configmaps` of
-- cluster-agent/src/server/mod.rs and their requests of
-- cluster-agent/src/service/cluster_aggregator.rs.
pub mod Laws
use qubit.Base.{
  ℕ, Text, codes, text_eq, is_empty, or_empty, flat_map, ◌>>=◌, if◌then◌else◌, Option, none, some,
  List, [], ◌∷◌, ◌++◌, map,
}
use qubit.Base.Map
use qubit.Agent.Objects.{ConfigMap}
use qubit.Agent.Envoy.{EnvoyRoute, YamlLib, parse_envoy_routes}
use qubit.Agent.Handlers.{Message, config_map_event, envoy_routes}
use qubit.Core.Grpc.{EnvoyRouteEntry}

-- `send_configmap_applied` and `send_configmap_deleted`
unfoldable pub send_configmap : ℕ → Text → Text → Message
send_configmap event_type name namespace =
    config_map_event (record { name = name; namespace = namespace; event_type = event_type })

unfoldable pub to_entry : EnvoyRoute → EnvoyRouteEntry
to_entry r = record { domain = r.domain; service_name = r.service_name; namespace = r.namespace }

unfoldable pub send_envoy_routes : List EnvoyRoute → Message
send_envoy_routes routes = envoy_routes (map to_entry routes)

-- The text of Envoy's configuration, if there is one.
unfoldable pub envoy_yaml : ConfigMap → Option Text
envoy_yaml cm = do entries ← cm.entries; Map.get entries (codes "envoy.yaml")

module _ (y : YamlLib) where
  unfoldable pub routes_of : ConfigMap → List EnvoyRoute
  routes_of cm = elim (envoy_yaml cm) [ none ↦ [] | some text ↦ parse_envoy_routes y text ]

  unfoldable pub configmap_on_apply : ConfigMap → List Message
  configmap_on_apply cm =
      let routes = routes_of cm in
      let applied = send_configmap 0 (or_empty cm.metadata.name) (or_empty cm.metadata.namespace) in
      if is_empty routes then applied ∷ [] else send_envoy_routes routes ∷ applied ∷ []

  unfoldable pub configmap_on_delete : ConfigMap → List Message
  configmap_on_delete cm =
      send_configmap 1 (or_empty cm.metadata.name) (or_empty cm.metadata.namespace) ∷ []

  unfoldable pub send_envoy_routes_from_configmaps : List ConfigMap → List Message
  send_envoy_routes_from_configmaps cms =
      let all_routes = flat_map routes_of cms in
      if is_empty all_routes then [] else send_envoy_routes all_routes ∷ []
