-- ===== src/Agent/Envoy.antt =====
-- cluster-agent/src/kubernetes/envoy_parser.rs. The YAML library is a parameter: indexing a value by
-- a key or a position that it does not have gives a null, which is no text, sequence or mapping.
pub mod Clusters
pub mod Hosts
pub mod Routes
pub mod Names
use qubit.Base.{
  ℕ, zero, suc, ◌-◌, Text, text_dec, text_eq, codes, split, starts_with, ◌==◌, ◌||◌, ltb, ◌>>=◌,
  if◌then◌else◌, is_empty, or_empty, get_elem?, flat_map, Bool, true, false, Option, none, some,
  List, [], ◌∷◌, ◌++◌,
}
use mathlib.Core.List.{foldl}
use mathlib.Core.Option
use qubit.Base.Map
use qubit.Base.Map.{Map}

pub record EnvoyRoute : Type 0 where
  pub domain : Text
  pub service_name : Text
  pub namespace : Text

-- `serde_yaml`
pub record YamlLib : Type 1 where
  pub Value : Type 0
  pub from_str : Text → Option Value
  pub index : Value → Text → Value
  pub index_at : Value → ℕ → Value
  pub as_str : Value → Option Text
  pub as_sequence : Value → Option (List Value)
  pub is_mapping : Value → Bool

-- `parts.iter().position(|&p| p == "svc")`
unfoldable pub position : Text → List Text → Option ℕ
position word [] = none
position word (p ∷ ps) =
    let rest = position word ps in if p == word then some 0 else Option.map suc rest

unfoldable pub svc_namespace_from_fqdn : Text → Option (Text × Text)
svc_namespace_from_fqdn host =
    let parts = split 46 host in
    elim (position (codes "svc") parts) [
      | none ↦ none
      | some svc_pos ↦ if ltb svc_pos 2 then none else (do
        service ← get_elem? parts (svc_pos - 2)
        namespace ← get_elem? parts (svc_pos - 1)
        some (service, namespace))
    ]

-- "*" and "*.…"
unfoldable pub is_wildcard : Text → Bool
is_wildcard d = d == codes "*" || starts_with d (codes "*.")

unfoldable pub unwrap_str : Option Text → Text
unwrap_str none = []
unwrap_str (some s) = s

module _ (y : YamlLib) where
  open y use {Value, index, index_at, as_str, as_sequence, is_mapping}

  -- a chain of `[key]`
  unfoldable pub path : Value → List Text → Value
  path v [] = v
  path v (k ∷ ks) = path (index v k) ks

  -- the elements of a sequence, and none of anything else
  unfoldable pub elements : Value → List Value
  elements v = or_empty (as_sequence v)

  -- the address of the first endpoint
  unfoldable pub address : Value → Text
  address cluster =
      let endpoints = path cluster (codes "load_assignment" ∷ codes "endpoints" ∷ []) in
      let lb_endpoints = index (index_at endpoints 0) (codes "lb_endpoints") in
      unwrap_str (
        as_str (
          path (index_at lb_endpoints 0)
            (codes "endpoint" ∷ codes "address" ∷ codes "socket_address" ∷ codes "address" ∷ [])))

  -- A cluster with a name and an address in the cluster.
  unfoldable pub upstream : Value → Option (Text × Text × Text × Text)
  upstream cluster = elim (as_str (index cluster (codes "name"))) [
    | none ↦ none
    | some name ↦ if is_empty name then none else (do
      owner ← svc_namespace_from_fqdn (address cluster)
      some (name, address cluster, owner.0, owner.1))
  ]

  -- pass 1: the routes so far and the map from names of clusters
  abbrev pub ClusterMap : Type 0
  ClusterMap = Map Text (Text × Text)

  unfoldable pub add_cluster : List EnvoyRoute × ClusterMap → Value → List EnvoyRoute × ClusterMap
  add_cluster (routes, clusters) cluster = elim (upstream cluster) [
    | none ↦ (routes, clusters)
    | some (name, domain, svc, ns) ↦ (
      routes ++ record { domain = domain; service_name = svc; namespace = ns } ∷ [],
      Map.insert clusters name (svc, ns),
    )
  ]

  unfoldable pub first_pass : Value → List EnvoyRoute × ClusterMap
  first_pass value =
      foldl add_cluster ([], [])
        (elements (path value (codes "static_resources" ∷ codes "clusters" ∷ [])))

  -- The route configuration may stand under `typed_config`.
  unfoldable pub route_config : Value → Option Value
  route_config filter =
      let typed = path filter (codes "typed_config" ∷ codes "route_config" ∷ []) in
      let direct = index filter (codes "route_config") in
      if is_mapping typed then some typed else if is_mapping direct then some direct else none

  unfoldable pub domain_routes : Text × Text → Value → List EnvoyRoute
  domain_routes owner domain = elim (as_str domain) [
    | none ↦ []
    | some d ↦
        if is_wildcard d
        then []
        else record { domain = d; service_name = owner.0; namespace = owner.1 } ∷ []
  ]

  -- the cluster of the first route
  unfoldable pub cluster_name : Value → Text
  cluster_name vh = unwrap_str (
      as_str (path (index_at (index vh (codes "routes")) 0) (codes "route" ∷ codes "cluster" ∷ [])))

  unfoldable pub host_routes : ClusterMap → Value → List EnvoyRoute
  host_routes clusters vh = elim (Map.get clusters (cluster_name vh)) [
    | none ↦ []
    | some owner ↦ flat_map (domain_routes owner) (elements (index vh (codes "domains")))
  ]

  unfoldable pub filter_routes : ClusterMap → Value → List EnvoyRoute
  filter_routes clusters filter = elim (route_config filter) [
    | none ↦ []
    | some cfg ↦ flat_map (host_routes clusters) (elements (index cfg (codes "virtual_hosts")))
  ]

  unfoldable pub listener_routes : ClusterMap → Value → List EnvoyRoute
  listener_routes clusters listener =
      flat_map (λ fc. flat_map (filter_routes clusters) (elements (index fc (codes "filters"))))
        (elements (index listener (codes "filter_chains")))

  unfoldable pub parse_envoy_routes : Text → List EnvoyRoute
  parse_envoy_routes yaml_str = elim (y.from_str yaml_str) [
    | none ↦ []
    | some value ↦
        let (routes, clusters) = first_pass value in
        routes
        ++ flat_map (listener_routes clusters)
            (elements (path value (codes "static_resources" ∷ codes "listeners" ∷ [])))
  ]
