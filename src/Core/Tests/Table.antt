-- ===== src/Core/Tests/Table.antt =====
-- A table in a list, as a client of the database: it shows that the laws of a client can hold.
use mathlib.Core.List.Memᴰ
use qubit.Base.{
  ℕ, Bool-cases, inl, inr, subst, Text, text_eq, codes, ◌==◌, ==_iff, if◌then◌else◌, Bool, length,
  take, drop, List, [], ◌∷◌, ◌++◌, map, Memᴰ, ◌≡◌, ◌↔◌, refl, ap, sym, arith,
}
use qubit.Core.Dao.Rows.{DbReply, done, failed, Client, edge_keys_sql, page_sql}
use qubit.Core.Dao.Statements.{page_sql_injective}

abbrev pub events_table : Text
events_table = codes "events"

abbrev pub time_column : Text
time_column = codes "timestamp_ns"

module _ {Row Key : Type 0} (key : Row → Key) (up : Bool) where
  abbrev pub pages_of : List Row → Text → DbReply (List Row)
  pages_of rows sql =
      if sql == page_sql events_table time_column 2 0
      then done (take 2 (drop 0 rows))
      else if sql == page_sql events_table time_column 2 2
      then done (take 2 (drop 2 rows))
      else failed (codes "unknown")

  abbrev pub keys_of : List Row → Text → DbReply (List Key)
  keys_of rows sql = if up then done (map key rows) else failed (codes "down")

  pub mem_keys :
      (rows : List Row) (ks : List Key)
      → keys_of rows (edge_keys_sql events_table) ≡ done ks
      → (k : Key) → Memᴰ k ks ↔ ((r : Row) × Memᴰ r rows × (key r ≡ k))
  mem_keys rows ks h k = elim (Bool-cases up) [
    | inr p ↦ absurd (ground arith)
    | inl p ↦
        let same : ks ≡ map key rows = ground arith in
        (
          λ m. Memᴰ.of_map key rows (subst (Memᴰ k) same m),
          λ q. subst (Memᴰ k) (sym same) (Memᴰ.cast (sym q.2) (Memᴰ.map key q.1)),
        )
  ]

  pub shown :
      (rows : List Row) (limit offset : ℕ) (rs : List Row)
      → pages_of rows (page_sql events_table time_column limit offset) ≡ done rs
      → (order : List Row) × (order ≡ rows) × (rs ≡ take limit (drop offset order))
  shown rows limit offset rs h = (
    rows,
    refl,
    ground (
      arith,
      ==_iff (page_sql events_table time_column limit offset)
          (page_sql events_table time_column 2 0),
      ==_iff (page_sql events_table time_column limit offset)
          (page_sql events_table time_column 2 2),
      page_sql_injective events_table time_column limit offset 2 0,
      page_sql_injective events_table time_column limit offset 2 2,
    ),
  )

  -- Pages of two rows are known.
  abbrev pub list_client : Client key
  list_client = record {
    Db = List Row;
    Insert = List Row;
    table = events_table;
    column = time_column;
    rows = λ db. db;
    IsSorted = λ db order. order ≡ db;
    execute = λ db sql. (db, done tt);
    fetch_keys = keys_of;
    fetch_one = λ db sql. done (length db);
    fetch_all = pages_of;
    buffered = λ i. i;
    insert = λ db. (db, done []);
    write = λ i r. done (i ++ r ∷ []);
    end = λ db i. (db ++ i, done tt);
    keys_lem = mem_keys;
    count_lem = λ db n h. ground arith;
    page_lem = shown;
    length-IsSorted = λ db order e. ap length e;
    rows-insert = λ db. refl;
    buffered-insert = λ db i h. ground arith;
    buffered-write = λ i j r h. ground arith;
    rows-end = λ db i u h. refl;
    rows-end-failed = λ db i m r h. absurd (ground arith);
  }
