-- ===== src/Agent/Envoy/Routes.antt =====
-- cluster-agent/src/kubernetes/envoy_parser.rs: which routes are found.
use mathlib.Core.List.Memᴰ
use mathlib.Core.Option.{some-injective}
use qubit.Base.{
  Text, text_eq, codes, flat_map, mem-flat_map, false, some, List, [], ◌∷◌, ◌++◌, Memᴰ,
  Option-cases, inl, inr, ◌≡◌, ◌↔◌, ◌⊎◌, refl, sym, subst, arith,
}
use qubit.Base.Map
use qubit.Base.Map.{get-insert}
use qubit.Agent.Envoy.{
  EnvoyRoute, YamlLib, is_wildcard, path, elements, first_pass, cluster_name, host_routes,
  listener_routes, parse_envoy_routes,
}
use qubit.Agent.Envoy.Clusters.{FromCluster, get-first_pass, mem-clusters}
use qubit.Agent.Envoy.Hosts.{FromHost, IsHostOf, mem-host_routes, mem-listener_routes}

module _ (y : YamlLib) where
  open y use {Value, index, index_at, as_str, as_sequence, is_mapping}

  abbrev pub clusters_of : Value → List Value
  clusters_of value = elements y (path y value (codes "static_resources" ∷ codes "clusters" ∷ []))

  abbrev pub listeners_of : Value → List Value
  listeners_of value = elements y (path y value (codes "static_resources" ∷ codes "listeners" ∷ []))

  abbrev pub IsRoute : Value → EnvoyRoute → Type 0
  IsRoute value r =
      ((c : Value) × Memᴰ c (clusters_of value) × FromCluster y c r)
      ⊎ ((l : Value) × Memᴰ l (listeners_of value)
          × ((vh : Value) × IsHostOf y l vh × FromHost y (clusters_of value) vh r))

  -- what the two passes find
  found : Value → List EnvoyRoute
  found value =
      (first_pass y value).0
      ++ flat_map (listener_routes y (first_pass y value).1) (listeners_of value)

  mem-hosts :
      (value vh : Value) (r : EnvoyRoute)
      → Memᴰ r (host_routes y (first_pass y value).1 vh) ↔ FromHost y (clusters_of value) vh r
  unfolding first_pass Map.get
  mem-hosts value vh r =
      subst
        (λ o. Memᴰ r (host_routes y (first_pass y value).1 vh) ↔ (
          (o ≡ some (r.service_name, r.namespace))
          × ((d : Value) × Memᴰ d (elements y (index vh (codes "domains")))
              × (as_str d ≡ some r.domain)
              × (is_wildcard r.domain ≡ false))))
        (get-first_pass y (clusters_of value) ([], []) (cluster_name y vh))
        (mem-host_routes y (first_pass y value).1 vh r)

  mem-found : (value : Value) (r : EnvoyRoute) → Memᴰ r (found value) ↔ IsRoute value r
  unfolding found first_pass
  mem-found value r =
      let first = mem-clusters y (clusters_of value) ([], []) r in
      let m = (first_pass y value).1 in
      let second = mem-flat_map (listener_routes y m) (listeners_of value) r in
      (
        λ m'. elim (Memᴰ.append_cases (first_pass y value).0 m') [
          | inl by_cluster ↦ elim (first.0 by_cluster) [
            | inl nothing ↦ absurd (Memᴰ.not-nil nothing)
            | inr from ↦ inl from
          ]
          | inr by_host ↦
              let (l, at_l, one) = second.0 by_host in
              let (vh, host, mem) = (mem-listener_routes y m l r).0 one in
              inr (l, at_l, (vh, host, (mem-hosts value vh r).0 mem))
        ],
        λ q. elim q [
          | inl from ↦ Memᴰ.append_left _ (first.1 (inr from))
          | inr (l, at_l, (vh, host, from)) ↦ Memᴰ.append_right (first_pass y value).0 (
              second.1 (
                l,
                at_l,
                (mem-listener_routes y m l r).1 (vh, host, (mem-hosts value vh r).1 from),
              ))
        ],
      )

  -- `parse_envoy_routes` finds a route in a text exactly if the text is YAML and the route either
  -- leads from the address of a cluster that has a name, where the address tells a service and a
  -- namespace, or from a domain, no wildcard, of a virtual host of a filter of a listener, to the
  -- owner of the cluster of the virtual host's first route; the owner of a name is told by the
  -- last cluster of that name that has one.
  pub parse_envoy_routes_lem :
      (text : Text) (r : EnvoyRoute)
      → Memᴰ r (parse_envoy_routes y text)
        ↔ ((value : Value) × (y.from_str text ≡ some value) × IsRoute value r)
  unfolding parse_envoy_routes found
  parse_envoy_routes_lem text r = elim (Option-cases (y.from_str text)) [
    | inl broken ↦
        rw (broken, parse_envoy_routes) (λ m. absurd (Memᴰ.not-nil m), λ q. absurd (ground arith))
    | inr (value, read) ↦
        let listed = mem-found value r in
        rw (read, parse_envoy_routes)
          (
            λ m. (value, refl, listed.0 m),
            λ (other, same, from).
                listed.1 (subst (λ v. IsRoute v r) (sym (some-injective _ _ same)) from),
          )
  ]
