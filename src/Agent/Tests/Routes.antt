-- ===== src/Agent/Tests/Routes.antt =====
-- Tests of cluster-agent/src/kubernetes/envoy_parser.rs, configmap_handler.rs and event_handler.rs, on
-- trees as YAML values.
use mathlib.Core.Option
use mathlib.Core.List.Memᴰ
use qubit.Base.{
  ℕ, zero, suc, Text, text_dec, text_eq, codes, split, starts_with, head_of_split, cut, ◌==◌,
  if◌then◌else◌, flat_map, Bool, true, false, Option, none, some, List, [], ◌∷◌, Memᴰ, ◌≡◌, ◌↔◌,
  inl, inr, refl, sym, ap, subst,
}
use qubit.Base.Map
use qubit.Base.Map.{Map}
use qubit.Core.Cache.{map_cache}
use qubit.Core.Ebpf.{resolve_name}
use qubit.Core.Grpc.{idle}
use qubit.Core.State.{EbpfNetworkEventInput}
use qubit.Agent.Objects.{ConfigMap, Event}
use qubit.Agent.Envoy.{
  EnvoyRoute, YamlLib, position, svc_namespace_from_fqdn, is_wildcard, unwrap_str, path, elements,
  address, upstream, add_cluster, first_pass, route_config, domain_routes, cluster_name,
  host_routes, filter_routes, listener_routes, parse_envoy_routes,
}
use qubit.Agent.Envoy.Routes.{IsRoute, parse_envoy_routes_lem}
use qubit.Agent.ConfigMaps.{configmap_on_apply, envoy_yaml}
use qubit.Agent.ConfigMaps.Laws.{IsOwner, told, config_map_names}
use qubit.Core.Tests.Events.{event}
use qubit.Agent.Events.{or_text, build_event_data}
use qubit.Agent.Events.Reader.{read_event_data, data_of, read_event_data-build_event_data}

-- A sequence or a mapping is a chain that ends in `end`.
data Yaml : Type 0 where
  null : Yaml
  str : Text → Yaml
  item : Yaml → Yaml → Yaml
  field : Text → Yaml → Yaml → Yaml
  end : Yaml

index_yaml : Yaml → Text → Yaml
index_yaml (field k v rest) key = let other = index_yaml rest key in if k == key then v else other
index_yaml null key = null
index_yaml (str s) key = null
index_yaml (item x xs) key = null
index_yaml end key = null

index_at_yaml : Yaml → ℕ → Yaml
index_at_yaml (item x xs) zero = x
index_at_yaml (item x xs) (suc n) = index_at_yaml xs n
index_at_yaml null n = null
index_at_yaml (str s) n = null
index_at_yaml (field k v rest) n = null
index_at_yaml end n = null

text_of : Yaml → Option Text
text_of (str s) = some s
text_of v = none

sequence_of : Yaml → Option (List Yaml)
sequence_of end = some []
sequence_of (item x xs) = Option.map (λ ys. x ∷ ys) (sequence_of xs)
sequence_of null = none
sequence_of (str s) = none
sequence_of (field k v rest) = none

is_fields : Yaml → Bool
is_fields (field k v rest) = true
is_fields v = false

abbrev one : Text → Yaml → Yaml
one k v = field k v end

abbrev only : Yaml → Yaml
only v = item v end

abbrev fqdn : Text
fqdn = codes "cart.prod.svc.cluster.local"

abbrev shop_domain : Text
shop_domain = codes "cart.shop"

abbrev cluster : Yaml
cluster = field (codes "name") (str (codes "c1")) (
    one (codes "load_assignment") (
      one (codes "endpoints") (
        only (
          one (codes "lb_endpoints") (
            only (
              one (codes "endpoint") (
                one (codes "address")
                  (one (codes "socket_address") (one (codes "address") (str fqdn))))))))))

abbrev host : Yaml
host =
    field (codes "domains") (item (str shop_domain) (only (str (codes "*"))))
      (one (codes "routes") (only (one (codes "route") (one (codes "cluster") (str (codes "c1"))))))

abbrev listener : Yaml
listener = one (codes "filter_chains") (
    only (
      one (codes "filters")
        (only (one (codes "route_config") (one (codes "virtual_hosts") (only host))))))

abbrev config : Yaml
config =
    one (codes "static_resources")
      (field (codes "clusters") (only cluster) (one (codes "listeners") (only listener)))

abbrev tree_lib : YamlLib
tree_lib = record {
  Value = Yaml;
  from_str = λ text. if text == codes "y" then some config else none;
  index = index_yaml;
  index_at = index_at_yaml;
  as_str = text_of;
  as_sequence = sequence_of;
  is_mapping = is_fields;
}

abbrev by_address : EnvoyRoute
by_address = record { domain = fqdn; service_name = codes "cart"; namespace = codes "prod" }

abbrev by_domain : EnvoyRoute
by_domain = record by_address { domain = shop_domain }

parsed : parse_envoy_routes tree_lib (codes "y") ≡ by_address ∷ by_domain ∷ []
unfolding parse_envoy_routes text_dec native.Mathlib.Decide.ℕ_discrete first_pass elements
    sequence_of path index_yaml add_cluster upstream text_of svc_namespace_from_fqdn position split
    address unwrap_str index_at_yaml flat_map cluster_name domain_routes filter_routes host_routes
    is_wildcard listener_routes route_config Map.get Map.insert starts_with is_fields
parsed = refl

parse_envoy_routes_lem_example : Memᴰ by_domain (parse_envoy_routes tree_lib (codes "y")) ↔ (
    (value : Yaml) × (tree_lib.from_str (codes "y") ≡ some value)
    × IsRoute tree_lib value by_domain)
parse_envoy_routes_lem_example = parse_envoy_routes_lem tree_lib (codes "y") by_domain

abbrev no_json : Map Text Text → Text
no_json m = []

abbrev config_map : ConfigMap
config_map = record {
  metadata = record { name = some (codes "envoy"); namespace = none; labels = none };
  entries = some ((codes "envoy.yaml", codes "y") ∷ []);
}

has_config : envoy_yaml config_map ≡ some (codes "y")
unfolding envoy_yaml Map.get text_dec native.Mathlib.Decide.ℕ_discrete
has_config = refl

listed : Memᴰ by_domain (parse_envoy_routes tree_lib (codes "y"))
listed = subst (Memᴰ by_domain) (sym parsed) (Memᴰ.tail (Memᴰ.head refl))

owned : IsOwner (parse_envoy_routes tree_lib (codes "y")) shop_domain (codes "cart", codes "prod")
owned q m e = elim (Memᴰ.cases_cons (subst (Memᴰ q) parsed m)) [
  | inl first ↦ ap (λ (r : EnvoyRoute). (r.service_name, r.namespace)) first
  | inr rest ↦ ap (λ (r : EnvoyRoute). (r.service_name, r.namespace)) (Memᴰ.eq_of_singleton rest)
]

abbrev input : EbpfNetworkEventInput
input = record event { host = codes "cart.shop:80" }

asks : head_of_split 58 input.host ≡ shop_domain
unfolding head_of_split cut native.Mathlib.Decide.ℕ_discrete
asks = refl

config_map_names_example :
    resolve_name map_cache
      (told map_cache no_json 0 tree_lib
        (idle map_cache)
        (configmap_on_apply tree_lib config_map)).core
      input
    ≡ (codes "cart", codes "prod")
config_map_names_example =
    config_map_names map_cache no_json 0 tree_lib (idle map_cache) config_map (codes "y") by_domain
      has_config listed owned input asks

abbrev crash : Event
crash = record {
  metadata = record {
    name = some (codes "cart.1");
    namespace = some (codes "prod");
    labels = none;
  };
  reason = some (codes "BackOff");
  message = some (34 ∷ 10 ∷ codes "again");
  type_name = none;
  count = some 3;
  involved_object = record {
    kind = some (codes "Pod");
    name = some (codes "cart");
    namespace = none;
  };
}

read_event_data-build_event_data_example :
    read_event_data (build_event_data crash) ≡ some (data_of crash)
unfolding or_text native.Mathlib.Decide.ℕ_discrete
read_event_data-build_event_data_example =
    read_event_data-build_event_data crash (refl, refl, refl, refl, refl, refl)
