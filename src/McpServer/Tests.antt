-- ===== src/McpServer/Tests.antt =====
-- Tests of mcp-server/src.
use mathlib.Core.List.Memᴰ
use qubit.Base.{
  none, length, ◌+◌, ◌*◌, ◌==◌, ltb, nat_eq, Bool, true, List, map, Memᴰ, inl, inr, refl, Text,
  codes, concat, join, if◌then◌else◌, false, some, [], ◌∷◌, ◌≡◌, arith,
}
use qubit.Base.Map
use qubit.Core.Topology.{NodeId, node_eq}
use qubit.Core.Query.{answer_of, to_edge, node_key}
use qubit.Core.Tests.{shop, stock}
use qubit.Core.Tests.Queries.{small, small-IsPlainGraph}
use qubit.McpServer.Sql.{sanitize, k8s_query, network_query}
use qubit.McpServer.Sql.Laws.{quotes, quotes-queries}
use qubit.McpServer.Answers.{found, keys, get_topology, get_service_dependencies}
use qubit.McpServer.Answers.Graph.{node_ids, topology_text, get_topology-answer_of}
use qubit.McpServer.Answers.Laws.{dependencies_text, get_service_dependencies-answer_of}

get_service_dependencies-answer_of_example :
    let answer = answer_of to_edge small in
    get_service_dependencies (found answer) shop.application_name shop.namespace ≡ (
      if Map.contains_key small.nodes shop
      then dependencies_text small shop
      else concat (
          codes "Service '"
          ∷ node_key shop
          ∷ codes "' not found in topology. Known services: "
          ∷ join (codes ", ") (keys answer.nodes)
          ∷ []))
get_service_dependencies-answer_of_example =
    get_service_dependencies-answer_of small shop small-IsPlainGraph (omega arith)

-- Texts in the order of their bytes.
abbrev text_leb : Text → Text → Bool
text_leb [] w = true
text_leb (c ∷ v) [] = false
text_leb (c ∷ v) (d ∷ w) = let rest = text_leb v w in if c == d then rest else ltb c d

abbrev insert_text : Text → List Text → List Text
insert_text v [] = v ∷ []
insert_text v (w ∷ ws) =
    let rest = insert_text v ws in if text_leb v w then v ∷ w ∷ ws else w ∷ rest

abbrev sort : List Text → List Text
sort [] = []
sort (v ∷ vs) = insert_text v (sort vs)

sorted : sort (map node_key (node_ids small.nodes)) ≡ map node_key (shop ∷ stock ∷ [])
unfolding node_key native.Mathlib.Decide.ℕ_discrete
sorted = refl

listed : (n : NodeId) → Memᴰ n (shop ∷ stock ∷ []) → Memᴰ n (node_ids small.nodes)
listed n at_n = elim (Memᴰ.cases_cons at_n) [
  | inl first ↦ Memᴰ.head first
  | inr later ↦ elim (Memᴰ.cases_cons later) [
    | inl second ↦ Memᴰ.tail (Memᴰ.head second)
    | inr empty ↦ absurd (Memᴰ.not-nil empty)
  ]
]

get_topology-answer_of_example :
    get_topology sort (found (answer_of to_edge small)) ≡ topology_text small (shop ∷ stock ∷ [])
get_topology-answer_of_example =
    get_topology-answer_of small small-IsPlainGraph sort (shop ∷ stock ∷ []) listed sorted

-- The quote of the one filter is taken out, and the other filter is not given.
quotes-queries_example :
    let name = codes "ca'rt" in
    (quotes (k8s_query (codes "events") (some name) none 5) ≡ quotes (codes "events") + 2 * (1 + 0))
    × (quotes (network_query (codes "events") (some name) none 5)
        ≡ quotes (codes "events") + 2 * (1 + 0))
    × (quotes (sanitize name) ≡ 0)
    × (length (sanitize name) + quotes name ≡ length name)
quotes-queries_example =
    quotes-queries (codes "events") (codes "ca'rt") (some (codes "ca'rt")) none 5
