-- ===== src/Core/Flush/Laws.antt =====
-- core/src/aggregator/ebpf_aggregator.rs, `start_flush_timer`: which flows are stored.
use mathlib.Core.List.Memᴰ
use mathlib.Core.List.{append-nil}
use qubit.Base.{
  ℕ, false, List-cases, inl, inr, List, [], ◌∷◌, ◌++◌, Memᴰ, Memᴰ-append, ◌≡◌, ◌↔◌, refl, sym, ap,
  subst, ◌∙◌, arith,
}
use qubit.Base.Map
use qubit.Base.Map.{IsUnique}
use qubit.Core.State.{ok}
use qubit.Core.Topology.{NodeId, Flow, FlowMap, Topology, node_eq}
use qubit.Core.Topology.Invariant.{flows_at, HasFlow, IsIndexed}
use qubit.Core.Dao.Rows.{EbpfNetworkEvent, EdgeKey, key_of}
use qubit.Core.Dao.{NetworkClient, add_events}
use qubit.Core.Dao.Laws.{HasKey, HasKey-cases, HasKey-append, add_events-ok}
use qubit.Core.Flush.{row_of, all_flows, snapshot, tick}

mem_all_flows : (m : FlowMap) (k : NodeId) (f : Flow) → Memᴰ f (flows_at m k) → Memᴰ f (all_flows m)
unfolding all_flows flows_at Map.get
mem_all_flows [] k f h = h
mem_all_flows ((j, flows) ∷ m) k f h =
    ground (arith, mem_all_flows m k f, Memᴰ-append f flows (all_flows m))

abbrev IsAt : FlowMap → Flow → Type 0
IsAt m f = (k : NodeId) × Memᴰ f (flows_at m k)

all_flows_mem : (m : FlowMap) (f : Flow) → IsUnique m → Memᴰ f (all_flows m) → IsAt m f
unfolding all_flows flows_at Map.get
all_flows_mem [] f u h = absurd (Memᴰ.not-nil h)
all_flows_mem ((j, flows) ∷ m) f u h = elim ((Memᴰ-append f flows (all_flows m)).0 h) [
  | inl here ↦ (j, ground arith)
  | inr there ↦
      let (k, below) = all_flows_mem m f u.1 there in (k, ground (arith, Memᴰ.not-nil {a = f}))
]

-- The snapshot has a row for each flow of the graph and no other row.
pub snapshot_iff :
    (now_ns : ℕ) (t : Topology) (r : EbpfNetworkEvent)
    → IsIndexed t
    → Memᴰ r (snapshot now_ns t) ↔ ((f : Flow) × HasFlow t f × (row_of now_ns f ≡ r))
unfolding snapshot
snapshot_iff now_ns t r indexed = (
  λ m.
      let (f, listed, row) = Memᴰ.of_map (row_of now_ns) (all_flows t.downstream) m in
      let (k, at_k) = all_flows_mem t.downstream f indexed.unique_downstream listed in
      (
        f,
        subst (λ j. Memᴰ f (flows_at t.downstream j)) (sym (indexed.by_source k f at_k)) at_k,
        row,
      ),
  λ q.
      let listed = mem_all_flows t.downstream q.0.source_node q.0 q.1 in
      Memᴰ.cast (sym q.2) (Memᴰ.map (row_of now_ns) listed),
)

-- The key that the rows of a flow have.
abbrev pub flow_key : Flow → EdgeKey
flow_key f = (f.source_node.application_name, f.destination_node.application_name, f.path, 0)

pub key_of-row_of : (now_ns : ℕ) (f : Flow) → key_of (row_of now_ns f) ≡ flow_key f
unfolding row_of
key_of-row_of now_ns f = refl

module _ (c : NetworkClient) (t : Topology) where
  open c use {Db}

  -- A tick that writes is the call of `add_events`.
  tick_write :
      (now_ns : ℕ) (db : Db)
      → (add_events c db (snapshot now_ns t)).1 ≡ ok tt
      → add_events c db (snapshot now_ns t) ≡ (tick c false t now_ns db, ok tt)
  unfolding tick add_events
  tick_write now_ns db h = ground arith

  -- A tick with a sound lock, on a graph whose two indexes agree, whose call of the database
  -- succeeds appends rows to the table: the rows of exactly those flows of the graph whose key no
  -- row had before. The key is the names of the two applications, the path and the port 0.
  pub tick_lem :
      (now_ns : ℕ) (db : Db)
      → IsIndexed t
      → (add_events c db (snapshot now_ns t)).1 ≡ ok tt
      → (added : List EbpfNetworkEvent) × (c.rows (tick c false t now_ns db) ≡ c.rows db ++ added)
        × ((r : EbpfNetworkEvent)
            → Memᴰ r added
              ↔ (((f : Flow) × HasFlow t f × (row_of now_ns f ≡ r)) × (¬ HasKey c db (key_of r))))
  tick_lem now_ns db indexed h =
      let (added, grown, which) =
        add_events-ok c db _ (snapshot now_ns t) (tick_write now_ns db h) in
      (added, grown, λ r. ground (arith, which r, snapshot_iff now_ns t r indexed))

  -- After a tick with a sound lock whose call of the database succeeds, every flow of the graph
  -- has a row with its key.
  pub tick_stores :
      (now_ns : ℕ) (db : Db)
      → IsIndexed t
      → (add_events c db (snapshot now_ns t)).1 ≡ ok tt
      → (f : Flow) → HasFlow t f
      → HasKey c (tick c false t now_ns db) (flow_key f)
  tick_stores now_ns db indexed h f known =
      let (added, grown, which) = tick_lem now_ns db indexed h in
      let after = HasKey-append c db (tick c false t now_ns db) added (flow_key f) grown in
      let key = key_of-row_of now_ns f in
      elim (HasKey-cases c db (flow_key f)) [
        | inl old ↦ after.1 (inl old)
        | inr absent ↦ after.1 (
            inr (
              row_of now_ns f,
              (which (row_of now_ns f)).1 ((f, known, refl), λ q. absent (q.0, q.1, q.2 ∙ key)),
              key,
            ))
      ]

  -- A tick adds nothing if every flow of the graph has a row.
  tick_idle :
      (now_ns : ℕ) (db : Db)
      → IsIndexed t
      → (add_events c db (snapshot now_ns t)).1 ≡ ok tt
      → ((f : Flow) → HasFlow t f → HasKey c db (flow_key f))
      → c.rows (tick c false t now_ns db) ≡ c.rows db
  tick_idle now_ns db indexed h all =
      let (added, grown, which) = tick_lem now_ns db indexed h in
      elim (List-cases added) [
        | inl nothing ↦ ground (arith, append-nil (c.rows db))
        | inr (r, rest, p) ↦
            let ((f, known, row), absent) = (which r).0 (subst (Memᴰ r) (sym p) (Memᴰ.head refl)) in
            let (old, stored, key) = all f known in
            absurd (absent (old, stored, key ∙ (sym (key_of-row_of now_ns f) ∙ ap key_of row)))
      ]

  -- A second tick on the same graph, right after a first one and at any time, leaves the table as
  -- the first left it, when both calls of the database succeed, the lock is sound and the two
  -- indexes of the graph agree.
  tick_again :
      (first second : ℕ) (db : Db)
      → IsIndexed t
      → (add_events c db (snapshot first t)).1 ≡ ok tt
      → (add_events c (tick c false t first db) (snapshot second t)).1 ≡ ok tt
      → c.rows (tick c false t second (tick c false t first db)) ≡ c.rows (tick c false t first db)
  tick_again first second db indexed h h' =
      tick_idle second (tick c false t first db) indexed h' (tick_stores first db indexed h)
