-- ===== src/Core/Query/Laws.antt =====
-- core/src/server/query.rs and core/src/server/handler.rs: what stands under a key of an answer.
use mathlib.Core.Option
use mathlib.Core.Option.{some-injective}
use qubit.Base.{
  Option-cases, inl, inr, ℕ, Text, text_eq, Lacks, cut, cut_found, contains, if◌then◌else◌, false,
  Option, none, some, List, [], ◌∷◌, map, ◌≡◌, ◌∙◌, ap, ap, sym, refl, arith,
}
use qubit.Base.Map
use qubit.Base.Map.{Map, IsUnique, get-insert, get-empty}
use qubit.Core.Topology.{NodeId, NodeData, Flow, Topology, node_eq}
use qubit.Core.Subgraph.{get_subgraph}
use qubit.Core.Query.{
  FlowDto, response, topology_subgraph, unwrap_or, node_key, collect, node_view, answer_of,
  TopologyNode, collect_nodes, TopologyResponse,
}

abbrev pub IsPlain : NodeId → Type 0
IsPlain n = Lacks 47 n.namespace

pub node_key_injective : (m n : NodeId) → IsPlain m → IsPlain n → node_key m ≡ node_key n → m ≡ n
unfolding node_key
node_key_injective m n pm pn e =
    let both = some-injective _ _ (
      sym (cut_found 47 m.namespace m.application_name pm)
      ∙ ap (cut 47) e
      ∙ cut_found 47 n.namespace n.application_name pn) in
    cc (ap (λ (p : Text × Text). p.0) both, ap (λ (p : Text × Text). p.1) both)

abbrev pub ArePlain {ℓ} : {V : Type ℓ} → Map NodeId V → Type 0
ArePlain [] = Unit
ArePlain ((n, v) ∷ m) = IsPlain n × ArePlain m

module _ {V W : Type 0} (view : NodeId → V → W) where
  abbrev or_answer : NodeId → Option V → Option W → Option W
  or_answer n none old = old
  or_answer n (some v) old = some (view n v)

  get-collect_over :
      (answer : Map Text W) (m : Map NodeId V) (n : NodeId)
      → IsUnique m
      → ArePlain m
      → IsPlain n
      → Map.get (collect view answer m) (node_key n)
        ≡ or_answer n (Map.get m n) (Map.get answer (node_key n))
  unfolding collect Map.get
  get-collect_over answer [] n u p pn = refl
  get-collect_over answer ((j, v) ∷ m) n u p pn = ground (
    arith,
    get-collect_over (Map.insert answer (node_key j) (view j v)) m n u.1 p.1 pn,
    get-insert answer (node_key j) (view j v) (node_key n),
    node_key_injective j n p.0 pn,
    u.0,
  )

  get-collect :
      (m : Map NodeId V) (n : NodeId)
      → IsUnique m
      → ArePlain m
      → IsPlain n
      → Map.get (collect view [] m) (node_key n) ≡ Option.map (view n) (Map.get m n)
  get-collect m n u p pn =
      ground (arith, get-collect_over [] m n u p pn, get-empty {V = W} (node_key n))

-- Keys are distinct, as in every hash map, and no namespace has a slash.
pub record IsPlainGraph (t : Topology) : Type 0 where
  pub unique_nodes : IsUnique t.nodes
  pub unique_upstream : IsUnique t.upstream
  pub unique_downstream : IsUnique t.downstream
  pub plain_nodes : ArePlain t.nodes
  pub plain_upstream : ArePlain t.upstream
  pub plain_downstream : ArePlain t.downstream

-- In the answer to a query for the whole graph, under the key of a node stand its data, its list
-- of incoming flows and its list of outgoing flows, as the graph has them and in the answer's
-- form, or nothing where the graph has nothing. The graph's maps have distinct keys, and the
-- namespaces of their keys and of the node have no slash.
pub answer_of_lem :
    {F : Type 0} (view : Flow → F) (t : Topology) (n : NodeId)
    → IsPlainGraph t
    → IsPlain n
    → (let answer = answer_of view t in
        (Map.get answer.nodes (node_key n) ≡ Option.map (node_view n) (Map.get t.nodes n))
        × (Map.get answer.upstream (node_key n) ≡ Option.map (map view) (Map.get t.upstream n))
        × (Map.get answer.downstream (node_key n) ≡ Option.map (map view) (Map.get t.downstream n)))
unfolding answer_of
answer_of_lem view t n h p = (
  get-collect node_view t.nodes n h.unique_nodes h.plain_nodes p,
  get-collect (λ n flows. map view flows) t.upstream n h.unique_upstream h.plain_upstream p,
  get-collect (λ n flows. map view flows) t.downstream n h.unique_downstream h.plain_downstream p,
)

abbrev pub AllPlain : List NodeId → Type 0
AllPlain [] = Unit
AllPlain (n ∷ ns) = IsPlain n × AllPlain ns

get-collect_nodes :
    (known : Map NodeId NodeData) (answer : Map Text TopologyNode) (ns : List NodeId) (n : NodeId)
    → AllPlain ns
    → IsPlain n
    → Map.get (collect_nodes known answer ns) (node_key n) ≡ (
        if contains ns n
        then or_answer node_view n (Map.get known n) (Map.get answer (node_key n))
        else Map.get answer (node_key n))
unfolding collect_nodes contains
get-collect_nodes known answer [] n p pn = refl
get-collect_nodes known answer (j ∷ ns) n p pn = elim (Option-cases (Map.get known j)) [
  | inl absent ↦ ground (arith, get-collect_nodes known answer ns n p.1 pn)
  | inr (d, present) ↦ ground (
    arith,
    get-collect_nodes known (Map.insert answer (node_key j) (node_view j d)) ns n p.1 pn,
    get-insert answer (node_key j) (node_view j d) (node_key n),
    node_key_injective j n p.0 pn,
  )
]

-- In the answer to a query for a view, under the key of a node stands the graph's data of it if
-- the node is in the view, and nothing otherwise, provided that the namespaces of the view's
-- nodes and of the node have no slash.
topology_subgraph-nodes :
    (t : Topology) (service namespace : Text) (depth : Option ℕ) (r : TopologyResponse FlowDto)
    (n : NodeId)
    → topology_subgraph false t service namespace depth ≡ response r
    → AllPlain (get_subgraph t service namespace (unwrap_or depth 1)).nodes
    → IsPlain n
    → Map.get r.nodes (node_key n) ≡ (
        if contains (get_subgraph t service namespace (unwrap_or depth 1)).nodes n
        then Option.map (node_view n) (Map.get t.nodes n)
        else none)
unfolding topology_subgraph
topology_subgraph-nodes t service namespace depth r n e p pn =
    let sg = get_subgraph t service namespace (unwrap_or depth 1) in
    ground (
      arith,
      get-collect_nodes t.nodes [] sg.nodes n p pn,
      get-empty {V = TopologyNode} (node_key n),
    )
