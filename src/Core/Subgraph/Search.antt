-- ===== src/Core/Subgraph/Search.antt =====
-- core/src/topology/topology.rs, `get_subgraph`: which nodes the search visits.
use mathlib.Core.List.{foldl}
use mathlib.Core.List.Memᴰ
use qubit.Base.{
  ℕ, zero, suc, ◌+◌, ◌≤◌, contains, contains-set_insert, true, false, List, [], ◌∷◌, Memᴰ,
  Memᴰ-cons, Memᴰ-append, ◌≡◌, refl, sym, subst, ◌↔◌, ◌⊎◌, inl, inr, arith, Bool-cases, List-cases,
}
use qubit.Core.Topology.{NodeId, Flow, FlowMap, node_eq}
use qubit.Core.Topology.Invariant.{flows_at}
use qubit.Core.Subgraph.{Bfs, visit, scan, level, search, start, edge_eq}

abbrev pub IsVisited : Bfs → NodeId → Type 0
IsVisited b v = contains b.visited v ≡ true

-- v is the destination of a flow of the list
abbrev pub Target : List Flow → NodeId → Type 0
Target flows v = (f : Flow) × Memᴰ f flows × (f.destination_node ≡ v)

pub record Grows (b c : Bfs) (new : NodeId → Type 0) : Type 0 where
  pub visits : (v : NodeId) → IsVisited c v ↔ (IsVisited b v ⊎ new v)
  pub queues :
      (v : NodeId)
      → Memᴰ v c.next ↔ (Memᴰ v b.next ⊎ IsVisited c v × (contains b.visited v ≡ false))

visit-Grows :
    (node : NodeId) (b : Bfs) (f : Flow) → Grows b (visit node b f) (λ v. v ≡ f.destination_node)
unfolding visit
visit-Grows node b f = record {
  visits = λ v. ground (arith, contains-set_insert b.visited f.destination_node v);
  queues = λ v. ground (
    arith,
    contains-set_insert b.visited f.destination_node v,
    Memᴰ-append v b.next (f.destination_node ∷ []),
    Memᴰ-cons v f.destination_node [],
    Memᴰ.not-nil {a = v},
  );
}

Grows-trans :
    {b c d : Bfs} {P Q R : NodeId → Type 0}
    → ((v : NodeId) → R v ↔ (P v ⊎ Q v))
    → Grows b c P
    → Grows c d Q
    → Grows b d R
Grows-trans split g h = record {
  visits = λ v. ground (arith, split v, g.visits v, h.visits v);
  queues = λ v. ground (arith, g.visits v, h.visits v, g.queues v, h.queues v);
}

Target-cons :
    (f : Flow) (fs : List Flow) (v : NodeId)
    → Target (f ∷ fs) v ↔ ((v ≡ f.destination_node) ⊎ Target fs v)
Target-cons f fs v = (
  λ (g, m, e). elim (Memᴰ.cases_cons m) [
    | inl p ↦ inl (rw (← e, p) refl)
    | inr m' ↦ inr (g, m', e)
  ],
  λ h. elim h [ inl e ↦ (f, Memᴰ.head refl, sym e) | inr (g, m, e) ↦ (g, Memᴰ.tail m, e) ],
)

flows-Grows :
    (node : NodeId) (b : Bfs) (flows : List Flow)
    → Grows b (foldl (visit node) b flows) (Target flows)
flows-Grows node b [] = record {
  visits = λ v. (inl, λ h. elim h [ inl old ↦ old | inr (f, m, e) ↦ absurd (Memᴰ.not-nil m) ]);
  queues = λ v. ground arith;
}
flows-Grows node b (f ∷ fs) =
    Grows-trans (Target-cons f fs) (visit-Grows node b f) (flows-Grows node (visit node b f) fs)

module _ (t : FlowMap) where
  -- one call: u calls v
  abbrev pub Calls : NodeId → NodeId → Type 0
  Calls u v = Target (flows_at t u) v

  pub scan_lem : (b : Bfs) (u : NodeId) → scan t b u ≡ foldl (visit u) b (flows_at t u)
  unfolding scan flows_at
  scan_lem b u = ground arith

  pub scan-Grows : (b : Bfs) (u : NodeId) → Grows b (scan t b u) (Calls u)
  scan-Grows b u = rw scan_lem (flows-Grows u b (flows_at t u))

  -- a node of the list calls v
  abbrev CalledFrom : List NodeId → NodeId → Type 0
  CalledFrom us v = (u : NodeId) × Memᴰ u us × Calls u v

  CalledFrom-cons :
      (u : NodeId) (us : List NodeId) (v : NodeId)
      → CalledFrom (u ∷ us) v ↔ (Calls u v ⊎ CalledFrom us v)
  CalledFrom-cons u us v = (
    λ (w, m, c). elim (Memᴰ.cases_cons m) [
      | inl p ↦ inl (subst (λ x. Calls x v) p c)
      | inr m' ↦ inr (w, m', c)
    ],
    λ h. elim h [ inl c ↦ (u, Memᴰ.head refl, c) | inr (w, m, c) ↦ (w, Memᴰ.tail m, c) ],
  )

  scans-Grows : (b : Bfs) (us : List NodeId) → Grows b (foldl (scan t) b us) (CalledFrom us)
  scans-Grows b [] = record {
    visits = λ v. (inl, λ h. elim h [ inl old ↦ old | inr (f, m, e) ↦ absurd (Memᴰ.not-nil m) ]);
    queues = λ v. ground arith;
  }
  scans-Grows b (u ∷ us) =
      Grows-trans (CalledFrom-cons u us) (scan-Grows b u) (scans-Grows (scan t b u) us)

  -- One level visits what the frontier calls, and its frontier is what is new.
  level-Grows : (b : Bfs) → Grows (record b { next = [] }) (level t b) (CalledFrom b.next)
  unfolding level
  level-Grows b = scans-Grows (record b { next = [] }) b.next

  -- Walks of n calls.
  pub data Walk (root : NodeId) : ℕ → NodeId → Type 0 where
    here : Walk root 0 root
    call : {n : ℕ} {u v : NodeId} → Walk root n u → Calls u v → Walk root (suc n) v

  -- After `hops` levels.
  pub record Inv (root : NodeId) (hops : ℕ) (b : Bfs) : Type 0 where
    pub sound : (v : NodeId) → IsVisited b v → (n : ℕ) × (n ≤ hops) × Walk root n v
    pub full : (n : ℕ) (v : NodeId) → n ≤ hops → Walk root n v → IsVisited b v
    pub queued : (v : NodeId) → Memᴰ v b.next → IsVisited b v
    pub closed : (u v : NodeId) → IsVisited b u → Calls u v → Memᴰ u b.next ⊎ IsVisited b v

  pub start-Inv : (root : NodeId) → Inv root 0 (start root)
  unfolding contains
  start-Inv root = record {
    sound = λ v m. (0, omega arith, subst (Walk root 0) (ground arith) here);
    full = full;
    queued = λ v m. ground (arith, Memᴰ.eq_of_singleton m);
    closed = λ u v m c. inl (Memᴰ.head (ground arith));
  }
    where
      full : (n : ℕ) (v : NodeId) → n ≤ 0 → Walk root n v → IsVisited (start root) v
      full n v le here = ground arith
      full n v le (call w c) = absurd (omega arith)

  pub level-Inv :
      (root : NodeId) (hops : ℕ) (b : Bfs) → Inv root hops b → Inv root (suc hops) (level t b)
  level-Inv root hops b h = record {
    sound = λ v m. elim ((g.visits v).0 m) [
      | inl old ↦ let (n, le, w) = h.sound v old in (n, omega arith, w)
      | inr (u, q, c) ↦ let (n, le, w) = h.sound u (h.queued u q) in (suc n, omega arith, call w c)
    ];
    full = full;
    queued = λ v m. elim ((g.queues v).0 m) [
      | inl nothing ↦ absurd (Memᴰ.not-nil nothing)
      | inr (new, _) ↦ new
    ];
    closed = λ u v m c. elim (Bool-cases (contains b.visited u)) [
      | inl old ↦ inr (next_visited u v old c)
      | inr new ↦ inl ((g.queues u).1 (inr (m, new)))
    ];
  }
    where
      g : Grows (record b { next = [] }) (level t b) (CalledFrom b.next)
      g = level-Grows b

      next_visited : (u v : NodeId) → IsVisited b u → Calls u v → IsVisited (level t b) v
      next_visited u v old c = elim (h.closed u v old c) [
        | inl q ↦ (g.visits v).1 (inr (u, q, c))
        | inr o ↦ (g.visits v).1 (inl o)
      ]

      full : (n : ℕ) (v : NodeId) → n ≤ suc hops → Walk root n v → IsVisited (level t b) v
      full n v le here = (g.visits v).1 (inl (h.full 0 v (omega arith) here))
      full n v le (call {n = k} {u} w c) = next_visited u v (h.full k u (omega arith) w) c

  -- With an empty frontier every walk has been followed, however long.
  exhausted :
      (root : NodeId) (hops : ℕ) (b : Bfs)
      → Inv root hops b
      → b.next ≡ []
      → {n : ℕ} {v : NodeId} → Walk root n v
      → IsVisited b v
  exhausted root hops b h e here = h.full 0 root (omega arith) here
  exhausted root hops b h e (call {u} {v} w c) =
      elim (h.closed u v (exhausted root hops b h e w) c) [
        | inl q ↦ absurd (Memᴰ.not-nil (subst (Memᴰ u) e q))
        | inr o ↦ o
      ]

  -- v is at most `depth` calls away from the root.
  abbrev pub Reaches : NodeId → ℕ → NodeId → Type 0
  Reaches root depth v = (n : ℕ) × (n ≤ depth) × Walk root n v

  search-Reaches :
      (root : NodeId) (depth hops : ℕ) (b : Bfs)
      → Inv root hops b
      → (v : NodeId) → IsVisited (search t depth b) v ↔ Reaches root (hops + depth) v
  unfolding search
  search-Reaches root zero hops b h v = (
    λ m. let (n, le, w) = h.sound v m in (n, omega arith, w),
    λ (n, le, w). h.full n v (omega arith) w,
  )
  search-Reaches root (suc depth) hops b h v = elim (List-cases b.next) [
    | inl empty ↦
        rw (empty, search)
          (
            λ m. let (n, le, w) = h.sound v m in (n, omega arith, w),
            λ (n, le, w). exhausted root hops b h empty w,
          )
    | inr (u, rest, e) ↦
        rw (e, search)
          (subst (λ k. IsVisited (search t depth (level t b)) v ↔ Reaches root k v) (omega arith)
            (search-Reaches root depth (suc hops) (level t b) (level-Inv root hops b h) v))
  ]

-- The search of `get_subgraph` from a root, with the given depth, visits exactly the nodes that a
-- walk of at most that many flows reaches from the root.
pub IsVisited-iff_Reaches :
    (t : FlowMap) (root : NodeId) (depth : ℕ) (v : NodeId)
    → IsVisited (search t depth (start root)) v ↔ Reaches t root depth v
IsVisited-iff_Reaches t root depth v =
    subst (λ k. IsVisited (search t depth (start root)) v ↔ Reaches t root k v) (omega arith)
      (search-Reaches t root depth 0 (start root) (start-Inv t root) v)
