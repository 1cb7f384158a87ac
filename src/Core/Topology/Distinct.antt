-- ===== src/Core/Topology/Distinct.antt =====
-- core/src/topology/topology.rs: whether a flow stands twice in a list.
use mathlib.Core.List.Memᴰ
use mathlib.Core.Bool.{false≢true}
use qubit.Base.{
  Text, ◌==◌, ◌||◌, contains, contains_iff, List, [], ◌∷◌, ◌++◌, map, Memᴰ, ◌≡◌, refl, sym, ap, inl,
  inr, arith, ◌≢◌, Bool-cases, false, ◌∙◌, subst,
}
use qubit.Core.Topology.{
  NodeId, Flow, FlowMap, Topology, add_flow, push_new, push_at, stale_id, rename_node, rename_flow,
  move_flows, resolve_unknown_node, node_eq, flow_eq,
}
use qubit.Core.Topology.Invariant.{flows_at, HasFlow, IsIndexed, flows_at-push_at}
use qubit.Core.Topology.Move.{mem-move_flows, flows_at-rename_flows}
use qubit.Core.Topology.Resolve.{resolved_id, IsStale, renamed, resolve_lem}

-- Every flow of the list differs from the later ones.
abbrev pub IsDistinct : List Flow → Type 0
IsDistinct [] = Unit
IsDistinct (f ∷ fs) = (contains fs f ≡ false) × IsDistinct fs

pub record IsDeduplicated (t : Topology) : Type 0 where
  pub callers : (k : NodeId) → IsDistinct (flows_at t.upstream k)
  pub callees : (k : NodeId) → IsDistinct (flows_at t.downstream k)

contains-append :
    (fs : List Flow) (g f : Flow) → contains (fs ++ g ∷ []) f ≡ (contains fs f || f == g)
unfolding contains
contains-append [] g f = ground arith
contains-append (h ∷ fs) g f = ground (arith, contains-append fs g f)

append-IsDistinct :
    (fs : List Flow) (g : Flow) → contains fs g ≡ false → IsDistinct fs → IsDistinct (fs ++ g ∷ [])
unfolding contains
append-IsDistinct [] g h d = (refl, tt)
append-IsDistinct (f ∷ fs) g h d = ground (arith, append-IsDistinct fs g, contains-append fs g f)

push_new-IsDistinct : (fs : List Flow) (g : Flow) → IsDistinct fs → IsDistinct (push_new fs g)
unfolding push_new
push_new-IsDistinct fs g d = elim (Bool-cases (contains fs g)) [
  | inl old ↦ rw old d
  | inr new ↦ rw new (append-IsDistinct fs g new d)
]

push_at-IsDistinct :
    (m : FlowMap) (n : NodeId) (g : Flow)
    → ((k : NodeId) → IsDistinct (flows_at m k))
    → (k : NodeId) → IsDistinct (flows_at (push_at m n g) k)
push_at-IsDistinct m n g d k = rw (flows_at-push_at m n g k) (elim (Bool-cases (n == k)) [
  | inl same ↦ rw same (push_new-IsDistinct _ g (d n))
  | inr other ↦ rw other (d k)
])

-- If no list of the two indexes has a flow twice, none has after `add_flow`, whether the flow is
-- new or not.
add_flow-IsDeduplicated :
    (t : Topology) (f : Flow) → IsDeduplicated t → IsDeduplicated (add_flow t f)
unfolding add_flow
add_flow-IsDeduplicated t f d = record {
  callers = push_at-IsDistinct t.upstream f.destination_node f d.callers;
  callees = push_at-IsDistinct t.downstream f.source_node f d.callees;
}

-- Two flows of a list that are renamed alike stand twice in the renamed list.
collision :
    (rename : Flow → Flow) (fs : List Flow) (g h : Flow)
    → Memᴰ g fs
    → Memᴰ h fs
    → g ≢ h
    → rename g ≡ rename h
    → ¬ IsDistinct (map rename fs)
collision rename [] g h mg mh differ alike d = Memᴰ.not-nil mg
collision rename (f ∷ fs) g h mg mh differ alike d =
    let again = λ (x : Flow) (m : Memᴰ x fs) (e : rename x ≡ rename f). false≢true (
      sym d.0
      ∙ (contains_iff (map rename fs) (rename f)).1 (Memᴰ.cast (sym e) (Memᴰ.map rename m))) in
    elim (Memᴰ.cases_cons mg) [
      | inl g_first ↦ elim (Memᴰ.cases_cons mh) [
        | inl h_first ↦ differ (g_first ∙ sym h_first)
        | inr h_later ↦ again h h_later (sym alike ∙ ap rename g_first)
      ]
      | inr g_later ↦ elim (Memᴰ.cases_cons mh) [
        | inl h_first ↦ again g g_later (alike ∙ ap rename h_first)
        | inr h_later ↦ collision rename fs g h g_later h_later differ alike d.1
      ]
    ]

-- If the stale node is in a graph whose two indexes agree, and the graph has both a flow that
-- renaming changes and the flow that it turns into, then after `resolve_unknown_node` the
-- `downstream` list of the renamed flow's source has a flow twice.
pub resolve_duplicates :
    (t : Topology) (ip app ns : Text) (g : Flow)
    → IsStale t ip app ns
    → IsIndexed t
    → HasFlow t g
    → HasFlow t (renamed t ip app ns g)
    → g ≢ renamed t ip app ns g
    → ¬ IsDistinct
        (flows_at (resolve_unknown_node t ip app ns).downstream (renamed t ip app ns g).source_node)
resolve_duplicates t ip app ns g stale h old twin differ d =
    collision rename moved_list g (rename g) in_list twin_in_list differ (sym rename_idem)
      (subst IsDistinct list_lem d)
  where
    source : Flow → NodeId
    source f = f.source_node

    from : NodeId
    from = stale_id ip

    to : NodeId
    to = resolved_id t ip app ns

    rename : Flow → Flow
    rename = rename_flow from to

    moved_list : List Flow
    moved_list = flows_at (move_flows from to t.downstream) (rename g).source_node

    node_idem : (n : NodeId) → rename_node from to (rename_node from to n) ≡ rename_node from to n
    node_idem n = unfold rename_node in ground arith

    rename_idem : rename (rename g) ≡ rename g
    rename_idem =
        unfold rename_flow in ground (arith, node_idem g.source_node, node_idem g.destination_node)

    list_lem :
        flows_at (resolve_unknown_node t ip app ns).downstream (rename g).source_node
        ≡ map rename moved_list
    list_lem =
        ap (λ m. flows_at m (rename g).source_node) (resolve_lem t ip app ns stale).2
        ∙ flows_at-rename_flows from to (move_flows from to t.downstream) (rename g).source_node

    in_list : Memᴰ g moved_list
    in_list =
        unfold rename_flow in
        (mem-move_flows from to source t.downstream h.by_source _ g).1 (old, refl)

    twin_in_list : Memᴰ (rename g) moved_list
    twin_in_list =
        unfold rename_flow in
        (mem-move_flows from to source t.downstream h.by_source _ (rename g)).1
          (twin, ap source rename_idem)
