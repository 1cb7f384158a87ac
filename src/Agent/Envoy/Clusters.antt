-- ===== src/Agent/Envoy/Clusters.antt =====
-- cluster-agent/src/kubernetes/envoy_parser.rs: the clusters.
use mathlib.Core.List.{foldl}
use mathlib.Core.List.Memᴰ
use qubit.Base.{
  Text, text_eq, codes, split_found, Lacks, ◌==◌, if◌then◌else◌, Option, none, some, List, [], ◌∷◌,
  ◌++◌, Memᴰ, Option-cases, inl, inr, ◌≡◌, ◌≢◌, ◌↔◌, ◌⊎◌, refl, sym, ap, subst, ◌∙◌, arith,
}
use qubit.Base.Map
use qubit.Base.Map.{get-insert}
use qubit.Agent.Envoy.{
  EnvoyRoute, YamlLib, position, svc_namespace_from_fqdn, address, upstream, ClusterMap,
  add_cluster,
}

-- The service and the namespace of an upstream stand before the first label `svc`, whatever
-- follows it.
pub svc_namespace-first :
    (service namespace rest : Text)
    → Lacks 46 service
    → Lacks 46 namespace
    → service ≢ codes "svc"
    → namespace ≢ codes "svc"
    → svc_namespace_from_fqdn (service ++ 46 ∷ (namespace ++ 46 ∷ (codes "svc" ++ 46 ∷ rest)))
      ≡ some (service, namespace)
unfolding svc_namespace_from_fqdn position
svc_namespace-first service namespace rest hs hn ns nn =
    let parts =
      split_found 46 service (namespace ++ 46 ∷ (codes "svc" ++ 46 ∷ rest)) hs
      ∙ ap (λ ps. service ∷ ps)
          (split_found 46 namespace (codes "svc" ++ 46 ∷ rest) hn
            ∙ ap (λ ps. namespace ∷ ps) (split_found 46 (codes "svc") rest (omega arith))) in
    rw (parts, svc_namespace_from_fqdn) (ground arith)

module _ (y : YamlLib) where
  open y use {Value, index, index_at, as_str, as_sequence, is_mapping}

  -- The owner of a cluster's name: the last cluster of that name that has one.
  abbrev pub owner_of : List Value → Text → Option (Text × Text) → Option (Text × Text)
  owner_of [] k known = known
  owner_of (c ∷ cs) k known = owner_of cs k (elim (upstream y c) [
    | none ↦ known
    | some (name, domain, svc, ns) ↦ if name == k then some (svc, ns) else known
  ])

  get-add_cluster :
      (b : List EnvoyRoute × ClusterMap y) (c : Value) (k : Text)
      → Map.get (add_cluster y b c).1 k ≡ owner_of (c ∷ []) k (Map.get b.1 k)
  unfolding add_cluster
  get-add_cluster b c k = elim (Option-cases (upstream y c)) [
    | inl not_one ↦ rw (not_one, add_cluster, owner_of) refl
    | inr ((name, domain, svc, ns), one) ↦
        rw (one, add_cluster, owner_of) (get-insert b.1 name (svc, ns) k)
  ]

  pub get-first_pass :
      (cs : List Value) (b : List EnvoyRoute × ClusterMap y) (k : Text)
      → Map.get (foldl (add_cluster y) b cs).1 k ≡ owner_of cs k (Map.get b.1 k)
  get-first_pass [] b k = refl
  get-first_pass (c ∷ cs) b k =
      get-first_pass cs (add_cluster y b c) k ∙ ap (owner_of cs k) (get-add_cluster b c k)

  -- A cluster with an address in the cluster gives a route from that address.
  abbrev pub FromCluster : Value → EnvoyRoute → Type 0
  FromCluster c r =
      (name : Text) × (as_str (index c (codes "name")) ≡ some name)
      × (name ≢ [])
      × (address y c ≡ r.domain)
      × (svc_namespace_from_fqdn r.domain ≡ some (r.service_name, r.namespace))

  upstream_iff :
      (c : Value) (name : Text) (r : EnvoyRoute)
      → (upstream y c ≡ some (name, r.domain, r.service_name, r.namespace)) ↔ (
          (as_str (index c (codes "name")) ≡ some name)
          × (name ≢ [])
          × (address y c ≡ r.domain)
          × (svc_namespace_from_fqdn r.domain ≡ some (r.service_name, r.namespace)))
  unfolding upstream
  upstream_iff c name r = elim (Option-cases (as_str (index c (codes "name")))) [
    | inl nameless ↦ ground (arith)
    | inr ([], empty) ↦ ground (arith)
    | inr (b ∷ bs, known) ↦ elim (Option-cases (svc_namespace_from_fqdn (address y c))) [
      | inl outside ↦ ground (arith, ap svc_namespace_from_fqdn {x = address y c} {y = r.domain})
      | inr (owner, inside) ↦
          ground (arith, ap svc_namespace_from_fqdn {x = address y c} {y = r.domain})
    ]
  ]

  mem-add_cluster :
      (b : List EnvoyRoute × ClusterMap y) (c : Value) (r : EnvoyRoute)
      → Memᴰ r (add_cluster y b c).0 ↔ (Memᴰ r b.0 ⊎ FromCluster c r)
  unfolding add_cluster
  mem-add_cluster b c r = elim (Option-cases (upstream y c)) [
    | inl not_one ↦
        rw (not_one, add_cluster)
          (
            inl,
            λ q. elim q [
              | inl old ↦ old
              | inr from ↦
                  absurd
                    (let u = (upstream_iff c from.0 r).1 (from.1, from.2, from.3, from.4) in cc)
            ],
          )
    | inr ((name, domain, svc, ns), one) ↦
        let r0 : EnvoyRoute = record { domain = domain; service_name = svc; namespace = ns } in
        let known = (upstream_iff c name r0).0 one in
        let from0 : FromCluster c r0 = (name, known.0, known.1, known.2, known.3) in
        rw (one, add_cluster)
          (
            λ m. elim (Memᴰ.append_cases b.0 m) [
              | inl old ↦ inl old
              | inr new ↦ inr (subst (FromCluster c) (sym (Memᴰ.eq_of_singleton new)) from0)
            ],
            λ q. elim q [
              | inl old ↦ Memᴰ.append_left (r0 ∷ []) old
              | inr from ↦
                  let u = (upstream_iff c from.0 r).1 (from.1, from.2, from.3, from.4) in
                  let same : r ≡ r0 = ground arith in Memᴰ.append_right b.0 (Memᴰ.head same)
            ],
          )
  ]

  pub mem-clusters :
      (cs : List Value) (b : List EnvoyRoute × ClusterMap y) (r : EnvoyRoute)
      → Memᴰ r (foldl (add_cluster y) b cs).0
        ↔ (Memᴰ r b.0 ⊎ ((c : Value) × Memᴰ c cs × FromCluster c r))
  mem-clusters [] b r =
      (inl, λ q. elim q [ inl old ↦ old | inr from ↦ absurd (Memᴰ.not-nil from.1) ])
  mem-clusters (c ∷ cs) b r =
      let rest = mem-clusters cs (add_cluster y b c) r in
      let first = mem-add_cluster b c r in
      (
        λ m. elim (rest.0 m) [
          | inl added ↦ elim (first.0 added) [
            | inl old ↦ inl old
            | inr from ↦ inr (c, Memᴰ.head refl, from)
          ]
          | inr (d, later, from) ↦ inr (d, Memᴰ.tail later, from)
        ],
        λ q. elim q [
          | inl old ↦ rest.1 (inl (first.1 (inl old)))
          | inr (d, at_d, from) ↦ elim (Memᴰ.cases_cons at_d) [
            | inl same ↦ rest.1 (inl (first.1 (inr (subst (λ v. FromCluster v r) same from))))
            | inr later ↦ rest.1 (inr (d, later, from))
          ]
        ],
      )
