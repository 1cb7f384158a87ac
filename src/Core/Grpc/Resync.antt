-- ===== src/Core/Grpc/Resync.antt =====
-- core/src/server/grpc.rs, `send_service_pod_map`: which stale nodes are gone after it.
use mathlib.Core.List.Memᴰ
use qubit.Base.{
  Text, text_eq, false, List, [], ◌∷◌, Memᴰ, ◌≡◌, ◌≢◌, inl, inr, refl, sym, ap, subst, ◌∙◌, arith,
  Bool-cases, List-cases,
}
use qubit.Base.Map
use qubit.Core.Topology.{NodeId, Topology, stale_id, unknown, node_eq, resolve_unknown_node}
use qubit.Core.Topology.Closed.{HasNode}
use qubit.Core.Topology.Resolve.{resolved_id, get-resolve, unresolved_lem}
use qubit.Core.Cache.{CacheLib}
use qubit.Core.State.{State}
use qubit.Core.K8s.{with_topology, record_pod_applied}
use qubit.Core.Grpc.{ServicePodEntry, System, apply_pods, apply_entries, send_service_pod_map}

module _ (t : Topology) (ip app ns : Text) (differ : ns ≢ unknown) where
  named_apart : (other : Text) → stale_id other ≢ resolved_id t ip app ns
  named_apart other e = differ (sym (ap (λ (n : NodeId). n.namespace) e))

  -- A pod that becomes known takes its stale node away and makes no other.
  resolve-HasNode_stale :
      (other : Text)
      → HasNode (resolve_unknown_node t ip app ns) (stale_id other)
      → HasNode t (stale_id other) × (other ≢ ip)
  resolve-HasNode_stale other h = elim (Bool-cases (Map.contains_key t.nodes (stale_id ip))) [
    | inl stale ↦
        let found = get-resolve t ip app ns stale (named_apart ip) (stale_id other) in
        unfold Map.contains_key in ground (arith, found, named_apart other)
    | inr absent ↦
        let old = subst (λ u. HasNode u (stale_id other)) (unresolved_lem t ip app ns absent) h in
        (old, λ e. cc (old, absent, e))
  ]

-- An entry that tells a name that no stale node has.
abbrev pub IsNamed : ServicePodEntry → Type 0
IsNamed e = (e.namespace ≢ unknown) × (e.application_name ≢ [])

module _ (lib : CacheLib) where
  module _ (s : State lib) (ip ns app svc type : Text) where
    abbrev applied : State lib
    applied = record_pod_applied lib s ip ns app svc type

    applied-usable : applied.topology_poisoned ≡ s.topology_poisoned
    unfolding record_pod_applied with_topology
    applied-usable = ground arith

    applied-topology :
        s.topology_poisoned ≡ false
        → app ≢ []
        → applied.topology ≡ resolve_unknown_node s.topology ip app ns
    unfolding record_pod_applied with_topology
    applied-topology usable named = elim (List-cases app) [
      | inl none_given ↦ absurd (named none_given)
      | inr (c, rest, e) ↦ rw e (ground arith)
    ]

  apply_pods-usable :
      (e : ServicePodEntry) (s : State lib) (ips : List Text)
      → (apply_pods lib e s ips).topology_poisoned ≡ s.topology_poisoned
  unfolding apply_pods
  apply_pods-usable e s [] = refl
  apply_pods-usable e s (ip ∷ ips) =
      apply_pods-usable e
        (applied s ip e.namespace e.application_name e.service_name e.service_type) ips
      ∙ applied-usable s ip e.namespace e.application_name e.service_name e.service_type

  apply_pods-HasNode_stale :
      (e : ServicePodEntry) (s : State lib) (ips : List Text) (other : Text)
      → IsNamed e
      → s.topology_poisoned ≡ false
      → HasNode (apply_pods lib e s ips).topology (stale_id other)
      → HasNode s.topology (stale_id other) × (¬ Memᴰ other ips)
  unfolding apply_pods
  apply_pods-HasNode_stale e s [] other named usable h = (h, Memᴰ.not-nil)
  apply_pods-HasNode_stale e s (ip ∷ ips) other named usable h =
      let t = applied s ip e.namespace e.application_name e.service_name e.service_type in
      let usable' =
        applied-usable s ip e.namespace e.application_name e.service_name e.service_type ∙ usable in
      let (later, absent) = apply_pods-HasNode_stale e t ips other named usable' h in
      let healed =
        applied-topology s ip e.namespace e.application_name e.service_name e.service_type usable
          named.1 in
      let (old, differs) =
        resolve-HasNode_stale s.topology ip e.application_name e.namespace named.0 other
          (subst (λ u. HasNode u (stale_id other)) healed later) in
      (old, λ m. elim (Memᴰ.cases_cons m) [ inl same ↦ differs same | inr m' ↦ absent m' ])

  apply_entries-HasNode_stale :
      (s : State lib) (entries : List ServicePodEntry) (other : Text)
      → ((e : ServicePodEntry) → Memᴰ e entries → IsNamed e)
      → s.topology_poisoned ≡ false
      → HasNode (apply_entries lib s entries).topology (stale_id other)
      → HasNode s.topology (stale_id other)
        × ((e : ServicePodEntry) → Memᴰ e entries → ¬ Memᴰ other e.pod_ips)
  unfolding apply_entries
  apply_entries-HasNode_stale s [] other named usable h = (h, λ e m. absurd (Memᴰ.not-nil m))
  apply_entries-HasNode_stale s (d ∷ es) other named usable h =
      let t = apply_pods lib d s d.pod_ips in
      let (later, absent) =
        apply_entries-HasNode_stale t es other (λ e m. named e (Memᴰ.tail m))
          (apply_pods-usable d s d.pod_ips ∙ usable) h in
      let (old, missing) =
        apply_pods-HasNode_stale d s d.pod_ips other (named d (Memᴰ.head refl)) usable later in
      (
        old,
        λ e m. elim (Memᴰ.cases_cons m) [
          | inl same ↦ subst (λ (x : ServicePodEntry). ¬ Memᴰ other x.pod_ips) (sym same) missing
          | inr m' ↦ absent e m'
        ],
      )

  -- No listed address has a stale node after the entries have been applied.
  pub send_service_pod_map-heals :
      (s : System lib) (entries : List ServicePodEntry) (e : ServicePodEntry) (ip : Text)
      → ((e : ServicePodEntry) → Memᴰ e entries → IsNamed e)
      → s.core.topology_poisoned ≡ false
      → Memᴰ e entries
      → Memᴰ ip e.pod_ips
      → ¬ HasNode (send_service_pod_map lib s entries).0.core.topology (stale_id ip)
  unfolding send_service_pod_map
  send_service_pod_map-heals s entries e ip named usable at_e at_ip h =
      (apply_entries-HasNode_stale s.core entries ip named usable h).1 e at_e at_ip
