-- ===== src/McpServer/Answers/Laws.antt =====
-- mcp-server/src/tools.rs and core/src/server/query.rs: the answer about a service from the server's
-- graph.
use mathlib.Core.Option
use mathlib.Core.List.{append-nil}
use qubit.Base.{
  Text, text_eq, codes, concat, join, or_empty, if◌then◌else◌, flat_map, Option-cases, inl, inr,
  Option, none, some, List, [], ◌∷◌, ◌++◌, map, ◌≡◌, ◌∙◌, refl, ap, arith,
}
use qubit.Base.Map
use qubit.Core.Topology.{NodeId, Flow, Topology, node_eq}
use qubit.Core.Topology.Invariant.{flows_at}
use qubit.Core.Query.{TopologyEdge, answer_of, to_edge, node_key}
use qubit.Core.Query.Laws.{IsPlain, IsPlainGraph, answer_of_lem}
use qubit.McpServer.Answers.{
  found, left_arrow, right_arrow, newline, keys, caller_line, callee_line, lines, dependency_key,
  get_service_dependencies,
}

-- The line of a flow, by its source or by its destination.
abbrev pub flow_line : Text → NodeId → Flow → Text
flow_line arrow end f = concat (
    codes "    "
    ∷ arrow
    ∷ codes " "
    ∷ end.namespace
    ∷ codes "/"
    ∷ end.application_name
    ∷ codes " ("
    ∷ f.method
    ∷ codes " "
    ∷ f.path
    ∷ codes ")"
    ∷ newline
    ∷ [])

abbrev pub flow_lines : (Flow → Text) → List Flow → Text
flow_lines line [] = codes "    (none)" ++ newline
flow_lines line (f ∷ fs) = flat_map line (f ∷ fs)

-- What the tool is to say of a node.
abbrev pub dependencies_text : Topology → NodeId → Text
dependencies_text t n = concat (
    codes "Dependencies for "
    ∷ node_key n
    ∷ codes ":"
    ∷ newline
    ∷ newline
    ∷ codes "  Upstream (callers):"
    ∷ newline
    ∷ flow_lines (λ f. flow_line left_arrow f.source_node f) (flows_at t.upstream n)
    ∷ newline
    ∷ codes "  Downstream (dependencies):"
    ∷ newline
    ∷ flow_lines (λ f. flow_line right_arrow f.destination_node f) (flows_at t.downstream n)
    ∷ [])

pub flat_map-map :
    {A B C : Type 0} (f : B → List C) (g : A → B) (xs : List A)
    → flat_map f (map g xs) ≡ flat_map (λ x. f (g x)) xs
unfolding flat_map
flat_map-map f g [] = refl
flat_map-map f g (x ∷ xs) = ap (λ ys. f (g x) ++ ys) (flat_map-map f g xs)

lines_lem :
    (line : TopologyEdge → Text) (flows : Option (List Flow))
    → lines line (Option.map (map to_edge) flows)
      ≡ flow_lines (λ f. line (to_edge f)) (or_empty flows)
unfolding lines
lines_lem line none = refl
lines_lem line (some []) = refl
lines_lem line (some (f ∷ fs)) = flat_map-map line to_edge (f ∷ fs)

key_lem : (n : NodeId) → dependency_key n.namespace n.application_name ≡ node_key n
unfolding dependency_key node_key concat
key_lem n = ap (λ s. n.namespace ++ 47 ∷ s) (append-nil n.application_name)

module _ (t : Topology) (n : NodeId) (plain : IsPlainGraph t) (p : IsPlain n) where
  callers :
      lines caller_line (Map.get (answer_of to_edge t).upstream (node_key n))
      ≡ flow_lines (λ f. flow_line left_arrow f.source_node f) (flows_at t.upstream n)
  unfolding flows_at caller_line to_edge
  callers =
      ap (lines caller_line) (answer_of_lem to_edge t n plain p).1
      ∙ lines_lem caller_line (Map.get t.upstream n)

  callees :
      lines callee_line (Map.get (answer_of to_edge t).downstream (node_key n))
      ≡ flow_lines (λ f. flow_line right_arrow f.destination_node f) (flows_at t.downstream n)
  unfolding flows_at callee_line to_edge
  callees =
      ap (lines callee_line) (answer_of_lem to_edge t n plain p).2
      ∙ lines_lem callee_line (Map.get t.downstream n)

-- Asked about a node, on the server's answer for a graph with distinct keys and with no slash in
-- a namespace, the tool writes a line for each flow of the node's `upstream` list, by its source,
-- and for each of its `downstream` list, by its destination, in their order, or that there is
-- none; if the graph has no such node, it says so and names the known ones.
pub get_service_dependencies-answer_of :
    (t : Topology) (n : NodeId)
    → IsPlainGraph t
    → IsPlain n
    → let answer = answer_of to_edge t in
      get_service_dependencies (found answer) n.application_name n.namespace ≡ (
        if Map.contains_key t.nodes n
        then dependencies_text t n
        else concat (
            codes "Service '"
            ∷ node_key n
            ∷ codes "' not found in topology. Known services: "
            ∷ join (codes ", ") (keys answer.nodes)
            ∷ []))
unfolding get_service_dependencies Map.contains_key
get_service_dependencies-answer_of t n plain p =
    let (nodes, _, _) = answer_of_lem to_edge t n plain p in
    rw (key_lem n) (
      rw (callers t n plain p) (
        rw (callees t n plain p) (elim (Option-cases (Map.get t.nodes n)) [
          | inl absent ↦ ground arith
          | inr (d, present) ↦ ground arith
        ])))
