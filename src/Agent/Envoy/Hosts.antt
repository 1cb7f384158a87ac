-- ===== src/Agent/Envoy/Hosts.antt =====
-- cluster-agent/src/kubernetes/envoy_parser.rs: the virtual hosts.
use mathlib.Core.List.Memᴰ
use mathlib.Core.Option.{some-injective}
use qubit.Base.{
  Text, text_eq, codes, flat_map, mem-flat_map, false, none, some, List, [], Memᴰ, Memᴰ-cons,
  Option-cases, Bool-cases, inl, inr, ◌≡◌, ◌↔◌, refl, sym, ap, subst, arith,
}
use qubit.Base.Map
use qubit.Base.Map.{get-insert}
use qubit.Agent.Envoy.{
  EnvoyRoute, YamlLib, is_wildcard, elements, ClusterMap, route_config, domain_routes, cluster_name,
  host_routes, filter_routes, listener_routes,
}
use qubit.Agent.Envoy.Clusters.{owner_of}

module _ (y : YamlLib) where
  open y use {Value, index, index_at, as_str, as_sequence, is_mapping}

  mem-domain_routes :
      (owner : Text × Text) (d : Value) (r : EnvoyRoute)
      → Memᴰ r (domain_routes y owner d) ↔ (
          (as_str d ≡ some r.domain)
          × (is_wildcard r.domain ≡ false)
          × (owner ≡ (r.service_name, r.namespace)))
  unfolding domain_routes
  mem-domain_routes owner d r = elim (Option-cases (as_str d)) [
    | inl no_text ↦ ground (arith, Memᴰ.not-nil {a = r})
    | inr (text, known) ↦ elim (Bool-cases (is_wildcard text)) [
      | inl wild ↦ ground (arith, Memᴰ.not-nil {a = r}, ap is_wildcard {x = text} {y = r.domain})
      | inr plain ↦ ground (
        arith,
        Memᴰ.not-nil {a = r},
        Memᴰ-cons r (record { domain = text; service_name = owner.0; namespace = owner.1 }) [],
        ap is_wildcard {x = text} {y = r.domain},
      )
    ]
  ]

  -- The domains of a virtual host belong to the owner of its first cluster.
  abbrev pub FromHost : List Value → Value → EnvoyRoute → Type 0
  FromHost clusters vh r =
      (owner_of y clusters (cluster_name y vh) none ≡ some (r.service_name, r.namespace))
      × ((d : Value) × Memᴰ d (elements y (index vh (codes "domains")))
          × (as_str d ≡ some r.domain)
          × (is_wildcard r.domain ≡ false))

  pub mem-host_routes :
      (m : ClusterMap y) (vh : Value) (r : EnvoyRoute)
      → Memᴰ r (host_routes y m vh) ↔ (
          (Map.get m (cluster_name y vh) ≡ some (r.service_name, r.namespace))
          × ((d : Value) × Memᴰ d (elements y (index vh (codes "domains")))
              × (as_str d ≡ some r.domain)
              × (is_wildcard r.domain ≡ false)))
  unfolding host_routes
  mem-host_routes m vh r = elim (Option-cases (Map.get m (cluster_name y vh))) [
    | inl unknown ↦ ground (arith, Memᴰ.not-nil {a = r})
    | inr (owner, known) ↦
        let listed =
          mem-flat_map (domain_routes y owner) (elements y (index vh (codes "domains"))) r in
        rw (known, host_routes)
          (
            λ m'.
                let (d, at_d, one) = listed.0 m' in
                let (text, plain, same) = (mem-domain_routes owner d r).0 one in
                (ap some same, (d, at_d, text, plain)),
            λ (same, (d, at_d, text, plain)).
                listed.1
                  (d, at_d, (mem-domain_routes owner d r).1 (text, plain, some-injective _ _ same)),
          )
  ]

  -- A virtual host of a filter, with the configuration of the route that counts.
  abbrev pub HostOf : Value → Value → Type 0
  HostOf filter vh =
      (cfg : Value) × (route_config y filter ≡ some cfg)
      × Memᴰ vh (elements y (index cfg (codes "virtual_hosts")))

  mem-filter_routes :
      (m : ClusterMap y) (filter : Value) (r : EnvoyRoute)
      → Memᴰ r (filter_routes y m filter)
        ↔ ((vh : Value) × HostOf filter vh × Memᴰ r (host_routes y m vh))
  unfolding filter_routes
  mem-filter_routes m filter r = elim (Option-cases (route_config y filter)) [
    | inl absent ↦
        rw (absent, filter_routes) (λ m'. absurd (Memᴰ.not-nil m'), λ q. absurd (ground arith))
    | inr (cfg, present) ↦
        let listed =
          mem-flat_map (host_routes y m) (elements y (index cfg (codes "virtual_hosts"))) r in
        rw (present, filter_routes)
          (
            λ m'. let (vh, at_vh, one) = listed.0 m' in (vh, (cfg, refl, at_vh), one),
            λ (vh, (other, same, at_vh), one). listed.1 (
              vh,
              subst (λ v. Memᴰ vh (elements y (index v (codes "virtual_hosts"))))
                  (sym (some-injective _ _ same)) at_vh,
              one,
            ),
          )
  ]

  -- The virtual hosts of a listener.
  abbrev pub IsHostOf : Value → Value → Type 0
  IsHostOf listener vh =
      (fc : Value) × Memᴰ fc (elements y (index listener (codes "filter_chains")))
      × ((filter : Value) × Memᴰ filter (elements y (index fc (codes "filters")))
          × HostOf filter vh)

  pub mem-listener_routes :
      (m : ClusterMap y) (listener : Value) (r : EnvoyRoute)
      → Memᴰ r (listener_routes y m listener)
        ↔ ((vh : Value) × IsHostOf listener vh × Memᴰ r (host_routes y m vh))
  unfolding listener_routes
  mem-listener_routes m listener r =
      let outer =
        mem-flat_map (λ fc. flat_map (filter_routes y m) (elements y (index fc (codes "filters"))))
          (elements y (index listener (codes "filter_chains"))) r in
      let inner = λ (fc : Value).
        mem-flat_map (filter_routes y m) (elements y (index fc (codes "filters"))) r in
      (
        λ m'.
            let (fc, at_fc, some_of) = outer.0 m' in
            let (filter, at_filter, one) = (inner fc).0 some_of in
            let (vh, host, mem) = (mem-filter_routes m filter r).0 one in
            (vh, (fc, at_fc, (filter, at_filter, host)), mem),
        λ (vh, (fc, at_fc, (filter, at_filter, host)), mem). outer.1 (
          fc,
          at_fc,
          (inner fc).1 (filter, at_filter, (mem-filter_routes m filter r).1 (vh, host, mem)),
        ),
      )
