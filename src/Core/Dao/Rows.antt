-- ===== src/Core/Dao/Rows.antt =====
-- core/src/model/model.rs and core/src/dao/db.rs: the rows of the tables, the texts of the statements,
-- and the client of the `clickhouse` crate, which is no code of this repository.
use qubit.Base.{
  join, concat, ℕ, zero, suc, Text, text_dec, Eq, codes, show_nat, length, take, drop, List, [],
  ◌∷◌, ◌++◌, Memᴰ, ◌≡◌, ◌↔◌, ◌⊎◌,
}
use native.Mathlib.Decide.{ℕ_discrete}

-- A row of the table of network events, with resolved names.
pub record EbpfNetworkEvent : Type 0 where
  pub timestamp_ns : ℕ
  pub src_service : Text
  pub src_namespace : Text
  pub src_application : Text
  pub dst_service : Text
  pub dst_namespace : Text
  pub dst_application : Text
  pub src_port : ℕ
  pub dst_port : ℕ
  pub method : Text
  pub path : Text
  pub host : Text

-- the columns `src_application, dst_application, path, dst_port`
abbrev pub EdgeKey : Type 0
EdgeKey = Text × Text × Text × ℕ

unfoldable pub edge_key_dec : Discrete EdgeKey
edge_key_dec = hlevel (text_dec, ℕ_discrete)

instance abbrev pub edge_key_eq : Eq EdgeKey
edge_key_eq = record { dec = edge_key_dec }

abbrev pub key_of : EbpfNetworkEvent → EdgeKey
key_of e = (e.src_application, e.dst_application, e.path, e.dst_port)

unfoldable pub edge_keys_sql : Text → Text
edge_keys_sql table =
    codes "SELECT DISTINCT src_application, dst_application, path, dst_port FROM " ++ table

unfoldable pub count_sql : Text → Text
count_sql table = codes "SELECT count() AS c FROM " ++ table

-- the newest rows first
unfoldable pub page_sql : Text → Text → ℕ → ℕ → Text
page_sql table column page_size offset = concat (
    codes "SELECT * FROM "
    ∷ table
    ∷ codes " ORDER BY "
    ∷ column
    ∷ codes " DESC LIMIT "
    ∷ show_nat page_size
    ∷ codes " OFFSET "
    ∷ show_nat offset
    ∷ [])

unfoldable pub by_service_sql : Text → Text → Text
by_service_sql table service_name = concat (
    codes "SELECT * FROM " ∷ table ∷ codes " WHERE src_service = '" ∷ service_name ∷ codes "'" ∷ [])

unfoldable pub in_range_sql : Text → ℕ → ℕ → Text
in_range_sql table start_time end_time = concat (
    codes "SELECT * FROM "
    ∷ table
    ∷ codes " WHERE timestamp_ns >= "
    ∷ show_nat start_time
    ∷ codes " AND timestamp_ns <= "
    ∷ show_nat end_time
    ∷ [])

-- a line of a statement that spans several, with its indentation of the source
abbrev line : ℕ → Text → Text
line zero s = s
line (suc n) s = 32 ∷ line n s

unfoldable pub network_schema : Text
network_schema = join (10 ∷ []) (
    []
    ∷ line 8 (codes "timestamp_ns UInt64,")
    ∷ line 8 (codes "src_service String,")
    ∷ line 8 (codes "src_namespace String,")
    ∷ line 8 (codes "src_application String,")
    ∷ line 8 (codes "dst_service String,")
    ∷ line 8 (codes "dst_namespace String,")
    ∷ line 8 (codes "dst_application String,")
    ∷ line 8 (codes "src_port UInt16,")
    ∷ line 8 (codes "dst_port UInt16,")
    ∷ line 8 (codes "method String,")
    ∷ line 8 (codes "path String,")
    ∷ line 8 (codes "host String")
    ∷ line 4 []
    ∷ [])

unfoldable pub resource_schema : Text
resource_schema = join (10 ∷ []) (
    []
    ∷ line 8 (codes "event_time DateTime DEFAULT now(),")
    ∷ line 8 (codes "resource_type String,")
    ∷ line 8 (codes "name String,")
    ∷ line 8 (codes "namespace String,")
    ∷ line 8 (codes "event_type String,")
    ∷ line 8 (codes "labels String,")
    ∷ line 8 (codes "resource_data String")
    ∷ line 4 []
    ∷ [])

unfoldable pub create_network_sql : Text → Text
create_network_sql table = join (10 ∷ []) (
    concat
      (codes "CREATE TABLE IF NOT EXISTS " ∷ table ∷ codes " (" ∷ network_schema ∷ codes ")" ∷ [])
    ∷ line 12 (codes "ENGINE = MergeTree()")
    ∷ line 12 (codes "ORDER BY (timestamp_ns, src_service, dst_service)")
    ∷ line 12 (codes "TTL toDateTime(intDiv(timestamp_ns, 1000000000)) + INTERVAL 7 DAY")
    ∷ [])

unfoldable pub alter_network_sql : Text → Text
alter_network_sql table = concat (
    codes "ALTER TABLE "
    ∷ table
    ∷ codes " MODIFY TTL toDateTime(intDiv(timestamp_ns, 1000000000)) + INTERVAL 7 DAY"
    ∷ [])

unfoldable pub create_resource_sql : Text → Text
create_resource_sql table = join (10 ∷ []) (
    concat
      (codes "CREATE TABLE IF NOT EXISTS " ∷ table ∷ codes " (" ∷ resource_schema ∷ codes ")" ∷ [])
    ∷ line 12 (codes "ENGINE = MergeTree()")
    ∷ line 12 (codes "ORDER BY (event_time, namespace, resource_type)")
    ∷ line 12 (codes "TTL event_time + INTERVAL 1 DAY")
    ∷ [])

pub data DbReply (A : Type 0) : Type 0 where
  done : A → DbReply A
  failed : Text → DbReply A

-- One table of the database. A call that fails to start or to write leaves the rows alone, since only
-- `end` commits an insertion.
pub record Client {Row Key : Type 0} (key : Row → Key) : Type 1 where
  pub Db : Type 0
  pub Insert : Type 0
  pub table : Text
  -- the column that the pages are sorted by
  pub column : Text
  pub rows : Db → List Row
  -- The rows in an order that `ORDER BY` allows. Rows with the same value of the column may stand
  -- in any order, and in another one at the next query.
  pub IsSorted : Db → List Row → Type 0
  pub execute : Db → Text → Db × DbReply Unit
  pub fetch_keys : Db → Text → DbReply (List Key)
  pub fetch_one : Db → Text → DbReply ℕ
  pub fetch_all : Db → Text → DbReply (List Row)
  pub buffered : Insert → List Row
  pub insert : Db → Db × DbReply Insert
  pub write : Insert → Row → DbReply Insert
  pub end : Db → Insert → Db × DbReply Unit
  pub keys_lem :
      (db : Db) (ks : List Key)
      → fetch_keys db (edge_keys_sql table) ≡ done ks
      → (k : Key) → Memᴰ k ks ↔ ((r : Row) × Memᴰ r (rows db) × (key r ≡ k))
  pub count_lem : (db : Db) (n : ℕ) → fetch_one db (count_sql table) ≡ done n → n ≡ length (rows db)
  pub page_lem :
      (db : Db) (limit offset : ℕ) (rs : List Row)
      → fetch_all db (page_sql table column limit offset) ≡ done rs
      → (order : List Row) × IsSorted db order × (rs ≡ take limit (drop offset order))
  pub length-IsSorted :
      (db : Db) (order : List Row) → IsSorted db order → length order ≡ length (rows db)
  pub rows-insert : (db : Db) → rows (insert db).0 ≡ rows db
  pub buffered-insert : (db : Db) (i : Insert) → (insert db).1 ≡ done i → buffered i ≡ []
  pub buffered-write :
      (i j : Insert) (r : Row) → write i r ≡ done j → buffered j ≡ buffered i ++ r ∷ []
  pub rows-end :
      (db : Db) (i : Insert) (u : Unit)
      → (end db i).1 ≡ done u
      → rows (end db i).0 ≡ rows db ++ buffered i
  -- A call of `end` that fails may have stored a part of the rows.
  pub rows-end-failed :
      (db : Db) (i : Insert) (message : Text) (r : Row)
      → (end db i).1 ≡ failed message
      → Memᴰ r (rows (end db i).0)
      → Memᴰ r (rows db) ⊎ Memᴰ r (buffered i)
