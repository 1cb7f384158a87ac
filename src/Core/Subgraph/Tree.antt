-- ===== src/Core/Subgraph/Tree.antt =====
-- core/src/topology/topology.rs, `get_subgraph`: the edges that the search records.
use mathlib.Core.List.{foldl}
use qubit.Base.{
  ℕ, zero, suc, contains, contains-set_insert, true, false, List, [], ◌∷◌, Memᴰ, ◌≡◌, refl, sym,
  ◌↔◌, ◌⊎◌, inl, inr, arith, ◌≢◌, List-cases, Bool-cases,
}
use qubit.Core.Topology.{NodeId, Flow, FlowMap, node_eq}
use qubit.Core.Topology.Invariant.{flows_at}
use qubit.Core.Subgraph.{Bfs, visit, scan, level, search, start, edge_eq, edge_dec}
use qubit.Core.Subgraph.Search.{IsVisited, Calls, Inv, start-Inv, level-Inv, scan_lem, scan-Grows}

abbrev pub HasEdge : Bfs → NodeId → NodeId → Type 0
HasEdge b p c = contains b.bfs_edges (p, c) ≡ true

module _ (t : FlowMap) (root : NodeId) where
  pub record IsTree (b : Bfs) : Type 0 where
    -- every edge is a call between visited nodes, and none leads to the root
    pub called : (p c : NodeId) → HasEdge b p c → Calls t p c
    pub parent : (p c : NodeId) → HasEdge b p c → IsVisited b p
    pub child : (p c : NodeId) → HasEdge b p c → IsVisited b c × (c ≢ root)
    -- every other visited node has exactly one parent
    pub some_parent : (c : NodeId) → IsVisited b c → c ≢ root → (p : NodeId) × HasEdge b p c
    pub one_parent : (p q c : NodeId) → HasEdge b p c → HasEdge b q c → p ≡ q
    pub rooted : IsVisited b root

  visit_edges :
      (node : NodeId) (b : Bfs) (f : Flow) (p c : NodeId)
      → contains b.visited f.destination_node ≡ false
      → HasEdge (visit node b f) p c ↔ ((p ≡ node) × (c ≡ f.destination_node) ⊎ HasEdge b p c)
  unfolding visit edge_dec
  visit_edges node b f p c new =
      ground (arith, contains-set_insert b.bfs_edges (node, f.destination_node) (p, c))

  visit-IsVisited :
      (node : NodeId) (b : Bfs) (f : Flow) (v : NodeId)
      → IsVisited (visit node b f) v ↔ (IsVisited b v ⊎ (v ≡ f.destination_node))
  unfolding visit
  visit-IsVisited node b f v = ground (arith, contains-set_insert b.visited f.destination_node v)

  visit_old :
      (node : NodeId) (b : Bfs) (f : Flow)
      → contains b.visited f.destination_node ≡ true
      → visit node b f ≡ b
  unfolding visit
  visit_old node b f h = rw h

  visit-IsTree :
      (node : NodeId) (b : Bfs) (f : Flow)
      → IsVisited b node
      → Memᴰ f (flows_at t node)
      → IsTree b
      → IsTree (visit node b f)
  visit-IsTree node b f seen mem h = elim (Bool-cases (contains b.visited f.destination_node)) [
    | inl old ↦ rw (visit_old node b f old) h
    | inr new ↦
        let edges = λ (p c : NodeId). visit_edges node b f p c new in
        let nodes = visit-IsVisited node b f in
        record {
          called = λ p c e. elim ((edges p c).0 e) [
            | inl (pn, cd) ↦ rw pn (f, mem, sym cd)
            | inr o ↦ h.called p c o
          ];
          parent = λ p c e. ground (arith, edges p c, nodes p, h.parent p c);
          child = λ p c e. ground (arith, edges p c, nodes c, h.child p c, h.rooted);
          some_parent = λ c m ne. elim ((nodes c).0 m) [
            | inl o ↦ let (p, e) = h.some_parent c o ne in (p, (edges p c).1 (inr e))
            | inr cd ↦ (node, (edges node c).1 (inl (refl, cd)))
          ];
          one_parent = λ p q c e e'.
              ground (arith, edges p c, edges q c, h.one_parent p q c, h.child p c, h.child q c);
          rooted = (nodes root).1 (inl h.rooted);
        }
  ]

  visits-IsTree :
      (node : NodeId) (b : Bfs) (flows : List Flow)
      → IsVisited b node
      → ((f : Flow) → Memᴰ f flows → Memᴰ f (flows_at t node))
      → IsTree b
      → IsTree (foldl (visit node) b flows)
  visits-IsTree node b [] seen mem h = h
  visits-IsTree node b (f ∷ fs) seen mem h =
      visits-IsTree node (visit node b f) fs ((visit-IsVisited node b f node).1 (inl seen))
        (λ g m. mem g (Memᴰ.tail m)) (visit-IsTree node b f seen (mem f (Memᴰ.head refl)) h)

  scans-IsTree :
      (b : Bfs) (us : List NodeId)
      → ((u : NodeId) → Memᴰ u us → IsVisited b u)
      → IsTree b
      → IsTree (foldl (scan t) b us)
  scans-IsTree b [] seen h = h
  scans-IsTree b (u ∷ us) seen h =
      scans-IsTree (scan t b u) us
        (λ v m. ((scan-Grows t b u).visits v).1 (inl (seen v (Memᴰ.tail m))))
        (rw scan_lem (visits-IsTree u b (flows_at t u) (seen u (Memᴰ.head refl)) (λ f m. m) h))

  level-IsTree :
      (b : Bfs) → ((u : NodeId) → Memᴰ u b.next → IsVisited b u) → IsTree b → IsTree (level t b)
  unfolding level
  level-IsTree b queued h =
      scans-IsTree (record b { next = [] }) b.next queued
        (record {
          called = h.called;
          parent = h.parent;
          child = h.child;
          some_parent = h.some_parent;
          one_parent = h.one_parent;
          rooted = h.rooted;
        })

  search-IsTree :
      (depth hops : ℕ) (b : Bfs) → Inv t root hops b → IsTree b → IsTree (search t depth b)
  unfolding search
  search-IsTree zero hops b i h = h
  search-IsTree (suc depth) hops b i h = elim (List-cases b.next) [
    | inl empty ↦ rw (empty, search) h
    | inr (u, rest, e) ↦
        rw (e, search)
          (search-IsTree depth (suc hops) (level t b) (level-Inv t root hops b i)
            (level-IsTree b i.queued h))
  ]

  start-IsTree : IsTree (start root)
  unfolding contains
  start-IsTree = record {
    called = λ p c e. cc;
    parent = λ p c e. cc;
    child = λ p c e. cc;
    some_parent = λ c m ne. absurd (ne (ground arith));
    one_parent = λ p q c e e'. cc;
    rooted = ground arith;
  }

-- The edges that the search records are flows between visited nodes and none leads to the root;
-- every visited node other than the root is the child of exactly one recorded edge.
pub bfs_edges-IsTree :
    (t : FlowMap) (root : NodeId) (depth : ℕ) → IsTree t root (search t depth (start root))
bfs_edges-IsTree t root depth =
    search-IsTree t root depth 0 (start root) (start-Inv t root) (start-IsTree t root)
