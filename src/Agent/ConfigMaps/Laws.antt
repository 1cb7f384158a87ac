-- ===== src/Agent/ConfigMaps/Laws.antt =====
-- cluster-agent/src/kubernetes/configmap_handler.rs and core/src/aggregator/ebpf_aggregator.rs: from
-- Envoy's configuration to the name of a destination.
use mathlib.Core.List.{foldl}
use mathlib.Core.List.Memᴰ
use qubit.Base.{
  ℕ, Text, text_eq, head_of_split, ◌==◌, ==_iff, if◌then◌else◌, Bool-cases, List-cases, Option,
  some, List, [], ◌∷◌, map, Memᴰ, inl, inr, ◌≡◌, ◌∙◌, refl, sym, ap, subst, arith,
}
use qubit.Base.Map.{Map}
use qubit.Core.Cache.{CacheLib}
use qubit.Core.State.{DomainOwner, State, EbpfNetworkEventInput}
use qubit.Core.Ebpf.{resolve_name}
use qubit.Core.Grpc.{System, add_route, try_event_type, send_config_map_event}
use qubit.Core.Grpc as Grpc
use qubit.Agent.Objects.{ConfigMap}
use qubit.Agent.Envoy.{EnvoyRoute, YamlLib, parse_envoy_routes}
use qubit.Agent.Handlers.{Message, deliver}
use qubit.Agent.ConfigMaps.{
  send_configmap, to_entry, send_envoy_routes, envoy_yaml, routes_of, configmap_on_apply,
}

-- The owner of a domain: that of the last route of the domain.
abbrev pub last_owner : List EnvoyRoute → Text → Option DomainOwner → Option DomainOwner
last_owner [] d known = known
last_owner (r ∷ rs) d known =
    last_owner rs d (if r.domain == d then some (r.service_name, r.namespace) else known)

-- All routes of a domain have one owner.
abbrev pub IsOwner : List EnvoyRoute → Text → DomainOwner → Type 0
IsOwner routes d owner =
    (q : EnvoyRoute) → Memᴰ q routes → q.domain ≡ d → (q.service_name, q.namespace) ≡ owner

last_owner_kept :
    (routes : List EnvoyRoute) (d : Text) (owner : DomainOwner)
    → IsOwner routes d owner
    → last_owner routes d (some owner) ≡ some owner
last_owner_kept [] d owner all = refl
last_owner_kept (r ∷ rs) d owner all =
    let rest = last_owner_kept rs d owner (λ q m. all q (Memᴰ.tail m)) in
    elim (Bool-cases (r.domain == d)) [
      | inl here ↦
          let same = all r (Memᴰ.head refl) ((==_iff r.domain d).0 here) in
          rw here (subst (λ o. last_owner rs d (some o) ≡ some owner) (sym same) rest)
      | inr other ↦ rw other rest
    ]

last_owner_found :
    (routes : List EnvoyRoute) (r : EnvoyRoute) (owner : DomainOwner) (known : Option DomainOwner)
    → Memᴰ r routes
    → IsOwner routes r.domain owner
    → last_owner routes r.domain known ≡ some owner
last_owner_found [] r owner known m all = absurd (Memᴰ.not-nil m)
last_owner_found (q ∷ rs) r owner known m all = elim (Memᴰ.cases_cons m) [
  | inl here ↦
      let e : q.domain ≡ r.domain = ap (λ (x : EnvoyRoute). x.domain) (sym here) in
      rw ((==_iff q.domain r.domain).1 e) (
        subst (λ o. last_owner rs r.domain (some o) ≡ some owner) (sym (all q (Memᴰ.head refl) e))
          (last_owner_kept rs r.domain owner (λ p m'. all p (Memᴰ.tail m'))))
  | inr later ↦ last_owner_found rs r owner _ later (λ p m'. all p (Memᴰ.tail m'))
]

module _ (lib : CacheLib) (to_json : Map Text Text → Text) (now : ℕ) (y : YamlLib) where
  abbrev pub told : System lib → List Message → System lib
  told = foldl (deliver lib to_json now)

  add_routes-owner :
      (routes : List EnvoyRoute) (s : State lib) (d : Text)
      → lib.get DomainOwner (foldl (add_route lib) s (map to_entry routes)).envoy_cache d
        ≡ last_owner routes d (lib.get DomainOwner s.envoy_cache d)
  unfolding to_entry add_route
  add_routes-owner [] s d = refl
  add_routes-owner (r ∷ rs) s d =
      add_routes-owner rs (add_route lib s (to_entry r)) d
      ∙ ap (last_owner rs d)
          (lib.get-insert DomainOwner s.envoy_cache r.domain (r.service_name, r.namespace) d)

  -- The messages of the handler set the owners of the routes' domains and no others.
  routes_arrive :
      (s : System lib) (cm : ConfigMap) (d : Text)
      → lib.get DomainOwner (told s (configmap_on_apply y cm)).core.envoy_cache d
        ≡ last_owner (routes_of y cm) d (lib.get DomainOwner s.core.envoy_cache d)
  unfolding configmap_on_apply send_configmap send_envoy_routes deliver send_config_map_event
      try_event_type Grpc.send_envoy_routes
  routes_arrive s cm d = elim (List-cases (routes_of y cm)) [
    | inl nothing ↦ rw nothing refl
    | inr (r, rest, some_routes) ↦ rw some_routes (add_routes-owner (r ∷ rest) s.core d)
  ]

  -- Let a ConfigMap have an Envoy configuration, and let all routes that are parsed from it for a
  -- domain name the owner that one of its routes names. Once the handler's messages have arrived
  -- at core, an event whose host, up to a colon, is that domain is resolved to that owner, a
  -- service and a namespace.
  pub config_map_names :
      (s : System lib) (cm : ConfigMap) (text : Text) (r : EnvoyRoute)
      → envoy_yaml cm ≡ some text
      → Memᴰ r (parse_envoy_routes y text)
      → IsOwner (parse_envoy_routes y text) r.domain (r.service_name, r.namespace)
      → (input : EbpfNetworkEventInput) → head_of_split 58 input.host ≡ r.domain
      → resolve_name lib (told s (configmap_on_apply y cm)).core input
        ≡ (r.service_name, r.namespace)
  unfolding routes_of resolve_name
  config_map_names s cm text r has listed owned input host = ground (
    arith,
    routes_arrive s cm r.domain,
    last_owner_found (parse_envoy_routes y text) r (r.service_name, r.namespace)
        (lib.get DomainOwner s.core.envoy_cache r.domain) listed owned,
  )
