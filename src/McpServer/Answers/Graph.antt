-- ===== src/McpServer/Answers/Graph.antt =====
-- mcp-server/src/tools.rs and core/src/server/query.rs: the answer about the whole graph from the server's
-- graph.
use mathlib.Core.Option
use mathlib.Core.List.Memᴰ
use mathlib.Core.List.{append-nil, append_assoc}
use qubit.Base.{
  or_empty, length-map, Text, text_eq, codes, concat, show_nat, length, is_empty, if◌then◌else◌,
  flat_map, Option-cases, inl, inr, Option, none, some, List, [], ◌∷◌, ◌++◌, map, Memᴰ, ◌≡◌, ◌∙◌,
  refl, sym, subst, ap, arith,
}
use qubit.Base.Map
use qubit.Base.Map.{Map, IsUnique, get-insert}
use qubit.Core.Topology.{NodeId, Flow, Topology, node_eq}
use qubit.Core.Topology.Invariant.{flows_at}
use qubit.Core.Query.{answer_of, to_edge, node_view, node_key, collect}
use qubit.Core.Query.Laws.{IsPlain, ArePlain, IsPlainGraph, answer_of_lem, node_key_injective}
use qubit.McpServer.Answers.{
  found, right_arrow, newline, keys, topology_edge, topology_node, get_topology,
}
use qubit.McpServer.Answers.Laws.{flat_map-map}

abbrev pub node_ids : {V : Type 0} → Map NodeId V → List NodeId
node_ids m = map (λ p. p.0) m

-- The line of an outgoing flow.
abbrev pub outgoing_line : Flow → Text
outgoing_line f = concat (
    codes "    "
    ∷ right_arrow
    ∷ codes " "
    ∷ f.method
    ∷ codes " "
    ∷ f.path
    ∷ codes " "
    ∷ right_arrow
    ∷ codes " "
    ∷ f.destination_node.namespace
    ∷ codes "/"
    ∷ f.destination_node.application_name
    ∷ newline
    ∷ [])

-- The lines of a node: its name, its address if it has one, and its outgoing flows.
abbrev pub node_text : Topology → NodeId → Text
node_text t n = elim (Map.get t.nodes n) [
  | none ↦ []
  | some d ↦ concat (
      newline
      ∷ codes "  "
      ∷ n.namespace
      ∷ codes "/"
      ∷ n.application_name
      ∷ (if is_empty d.ip then [] else codes "  (ip: " ++ (d.ip ++ codes ")"))
      ∷ newline
      ∷ flat_map outgoing_line (flows_at t.downstream n)
      ∷ [])
]

abbrev pub topology_text : Topology → List NodeId → Text
topology_text t ns =
    if is_empty t.nodes
    then codes "No services discovered yet. The cluster may not have traffic flowing."
    else concat (
        codes "Service Topology ("
        ∷ show_nat (length t.nodes)
        ∷ codes " services):"
        ∷ newline
        ∷ flat_map (node_text t) ns
        ∷ [])

keys-insert :
    {V : Type 0} (m : Map Text V) (k : Text) (v : V)
    → Map.get m k ≡ none
    → keys (Map.insert m k v) ≡ keys m ++ k ∷ []
unfolding keys Map.get Map.insert
keys-insert [] k v h = refl
keys-insert ((j, w) ∷ m) k v h = ground (arith, keys-insert m k v)

-- No key of an answer is one of the nodes still to come.
abbrev IsFresh : {V W : Type 0} → Map Text W → Map NodeId V → Type 0
IsFresh answer [] = Unit
IsFresh answer ((n, v) ∷ m) = (Map.get answer (node_key n) ≡ none) × IsFresh answer m

IsFresh-insert :
    {V W : Type 0} (answer : Map Text W) (m : Map NodeId V) (n : NodeId) (w : W)
    → IsPlain n
    → ArePlain m
    → Map.get m n ≡ none
    → IsFresh answer m
    → IsFresh (Map.insert answer (node_key n) w) m
unfolding Map.get
IsFresh-insert answer [] n w pn p absent h = tt
IsFresh-insert answer ((j, v) ∷ m) n w pn p absent h = (
  ground (arith, get-insert answer (node_key n) w (node_key j), node_key_injective n j pn p.0, h.0),
  IsFresh-insert answer m n w pn p.1 (ground arith) h.1,
)

keys-collect_over :
    {V W : Type 0} (view : NodeId → V → W) (answer : Map Text W) (m : Map NodeId V)
    → IsUnique m
    → ArePlain m
    → IsFresh answer m
    → keys (collect view answer m) ≡ keys answer ++ map node_key (node_ids m)
unfolding collect
keys-collect_over view answer [] u p h = sym (append-nil (keys answer))
keys-collect_over view answer ((n, v) ∷ m) u p h =
    keys-collect_over view (Map.insert answer (node_key n) (view n v)) m u.1 p.1
      (IsFresh-insert answer m n (view n v) p.0 p.1 u.0 h.1)
    ∙ (ap (λ ks. ks ++ map node_key (node_ids m)) (keys-insert answer (node_key n) (view n v) h.0)
        ∙ append_assoc (keys answer) (node_key n ∷ []) (map node_key (node_ids m)))

empty-IsFresh : {V : Type 0} (W : Type 0) (m : Map NodeId V) → IsFresh {V = V} {W = W} [] m
unfolding Map.get
empty-IsFresh W [] = tt
empty-IsFresh W ((n, v) ∷ m) = (refl, empty-IsFresh W m)

-- The keys of an answer are those of the graph, in the same order.
keys-collect :
    {V W : Type 0} (view : NodeId → V → W) (m : Map NodeId V)
    → IsUnique m
    → ArePlain m
    → keys (collect view [] m) ≡ map node_key (node_ids m)
unfolding keys
keys-collect view m u p = keys-collect_over view [] m u p (empty-IsFresh _ m)

length-keys : {V : Type 0} (m : Map Text V) → length (keys m) ≡ length m
unfolding keys
length-keys [] = refl
length-keys ((k, v) ∷ m) = omega (arith, length-keys m)

is_empty-length :
    {A B : Type 0} (xs : List A) (ys : List B) → length xs ≡ length ys → is_empty xs ≡ is_empty ys
is_empty-length [] [] e = refl
is_empty-length [] (y ∷ ys) e = ground arith
is_empty-length (x ∷ xs) [] e = ground arith
is_empty-length (x ∷ xs) (y ∷ ys) e = refl

node_ids-IsPlain :
    {V : Type 0} (m : Map NodeId V) (n : NodeId) → ArePlain m → Memᴰ n (node_ids m) → IsPlain n
node_ids-IsPlain [] n p at_n = absurd (Memᴰ.not-nil at_n)
node_ids-IsPlain ((j, v) ∷ m) n p at_n = elim (Memᴰ.cases_cons at_n) [
  | inl same ↦ subst IsPlain (sym same) p.0
  | inr later ↦ node_ids-IsPlain m n p.1 later
]

flat_map-same :
    {A B C : Type 0} (f : B → List C) (g : A → B) (h : A → List C) (xs : List A)
    → ((x : A) → Memᴰ x xs → f (g x) ≡ h x)
    → flat_map f (map g xs) ≡ flat_map h xs
unfolding flat_map
flat_map-same f g h [] same = refl
flat_map-same f g h (x ∷ xs) same =
    ap (λ ys. ys ++ flat_map f (map g xs)) (same x (Memᴰ.head refl))
    ∙ ap (λ ys. h x ++ ys) (flat_map-same f g h xs (λ y at_y. same y (Memᴰ.tail at_y)))

outgoing_lem :
    (flows : Option (List Flow))
    → elim (Option.map (map to_edge) flows) as (λ x. Text) [
      | none ↦ []
      | some edges ↦ flat_map topology_edge edges
    ]
      ≡ flat_map outgoing_line (or_empty flows)
unfolding topology_edge to_edge flat_map
outgoing_lem none = refl
outgoing_lem (some flows) = flat_map-map topology_edge to_edge flows

module _ (t : Topology) (plain : IsPlainGraph t) where
  topology_node_lem :
      (n : NodeId) → IsPlain n → topology_node (answer_of to_edge t) (node_key n) ≡ node_text t n
  unfolding topology_node topology_edge to_edge node_view flows_at
  topology_node_lem n p =
      let (nodes, _, downstream) = answer_of_lem to_edge t n plain p in
      elim (Option-cases (Map.get t.nodes n)) [
        | inl absent ↦ rw (topology_node, nodes, node_text, absent) refl
        | inr (d, present) ↦
            rw
              (
                topology_node,
                nodes,
                node_text,
                present,
                downstream,
                outgoing_lem (Map.get t.downstream n),
              )
              refl
      ]

  answered_keys : keys (answer_of to_edge t).nodes ≡ map node_key (node_ids t.nodes)
  unfolding answer_of
  answered_keys = keys-collect node_view t.nodes plain.unique_nodes plain.plain_nodes

  answered_length : length (answer_of to_edge t).nodes ≡ length t.nodes
  answered_length =
      sym (length-keys (answer_of to_edge t).nodes)
      ∙ (ap length answered_keys
          ∙ (length-map node_key (node_ids t.nodes) ∙ length-map (λ p. p.0) t.nodes))

  -- On the server's answer for a graph with distinct keys and with no slash in a namespace, the
  -- tool for the whole graph says how many nodes it has, or that there is none, and then writes
  -- for each node its name, its address if it has one, and a line for each flow of its
  -- `downstream` list, in the list's order; the nodes come in the order into which the sort puts
  -- their keys, whatever nodes of the graph these keys are of.
  pub get_topology-answer_of :
      (sort : List Text → List Text) (ns : List NodeId)
      → ((n : NodeId) → Memᴰ n ns → Memᴰ n (node_ids t.nodes))
      → sort (map node_key (node_ids t.nodes)) ≡ map node_key ns
      → get_topology sort (found (answer_of to_edge t)) ≡ topology_text t ns
  unfolding get_topology
  get_topology-answer_of sort ns known sorted =
      rw
        (
          is_empty-length (answer_of to_edge t).nodes t.nodes answered_length,
          answered_length,
          answered_keys,
          sorted,
          flat_map-same (topology_node (answer_of to_edge t)) node_key (node_text t) ns (λ n at_n.
              topology_node_lem n (node_ids-IsPlain t.nodes n plain.plain_nodes (known n at_n))),
        )
        refl
