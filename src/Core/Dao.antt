-- ===== src/Core/Dao.antt =====
-- core/src/dao/db.rs: the tables of events. The client of the database is a parameter: it is given the
-- texts of the statements, and its calls may fail with a message. What it answers to the statements
-- that are used, and what an insertion adds, are its laws.
pub mod Rows
pub mod Laws
pub mod Kept
pub mod Statements
use qubit.Base.{
  ℕ, ◌*◌, ◌%◌, ◌^◌, Text, text_dec, text_eq, codes, Eq, contains, show_nat, is_empty, if◌then◌else◌,
  List, [], ◌∷◌, ◌++◌, map, true, false, not,
}
use qubit.Core.State.{
  Error, schema_initialization_failed, event_addition_failed, event_fetching_failed, Result, ok,
  err, K8sResourceEvent,
}
use qubit.Core.Dao.Rows.{
  create_network_sql, alter_network_sql, create_resource_sql, by_service_sql, in_range_sql, DbReply,
  done, failed, EbpfNetworkEvent, EdgeKey, edge_key_eq, key_of, count_sql, page_sql, edge_keys_sql,
  Client,
}

module _ {Row Key : Type 0} {key : Row → Key} (c : Client key) where
  open c use {Db, Insert}

  -- the loop of `insert.write`
  unfoldable pub write_all : Insert → List Row → DbReply Insert
  write_all i [] = done i
  write_all i (row ∷ rows) = elim (c.write i row) [
    | failed e ↦ failed e
    | done j ↦ write_all j rows
  ]

  -- `insert`, the writes and `end`, each with its `?`
  unfoldable pub insert_rows : Db → List Row → Db × Result Unit
  insert_rows db rows =
      let (opened, i) = c.insert db in
      elim i [
        | failed e ↦ (opened, err (event_addition_failed e))
        | done i ↦ elim (write_all i rows) [
          | failed e ↦ (opened, err (event_addition_failed e))
          | done j ↦
              let (ended, answer) = c.end opened j in
              elim answer [
                | failed e ↦ (ended, err (event_addition_failed e))
                | done _ ↦ (ended, ok tt)
              ]
        ]
      ]

-- the filter of `add_events`
unfoldable pub unseen : List EdgeKey → List EbpfNetworkEvent → List EbpfNetworkEvent
unseen existing [] = []
unseen existing (e ∷ es) =
    let rest = unseen existing es in if contains existing (key_of e) then rest else e ∷ rest

abbrev pub NetworkClient : Type 1
NetworkClient = Client key_of

module _ (c : NetworkClient) where
  open c use {Db}

  unfoldable pub add_event : Db → EbpfNetworkEvent → Db × Result Unit
  add_event db event = insert_rows c db (event ∷ [])

  unfoldable pub add_events : Db → List EbpfNetworkEvent → Db × Result Unit
  add_events db events =
      if is_empty events then (db, ok tt) else elim (c.fetch_keys db (edge_keys_sql c.table)) [
        | failed e ↦ (db, err (event_fetching_failed e))
        | done existing ↦
            let new_events = unseen existing events in
            if is_empty new_events then (db, ok tt) else insert_rows c db new_events
      ]

  -- `fetch_all` and its `?`
  unfoldable pub fetch : Db → Text → Result (List EbpfNetworkEvent)
  fetch db sql = elim (c.fetch_all db sql) [
    | failed e ↦ err (event_fetching_failed e)
    | done events ↦ ok events
  ]

  unfoldable pub fetch_events_by_service : Db → Text → Result (List EbpfNetworkEvent)
  fetch_events_by_service db service_name = fetch db (by_service_sql c.table service_name)

  unfoldable pub get_ebpf_events_in_range : Db → ℕ → ℕ → Result (List EbpfNetworkEvent)
  get_ebpf_events_in_range db start_time end_time =
      fetch db (in_range_sql c.table start_time end_time)

-- `get_k8s_events_paginated` and `get_network_events_paginated`, which differ in the table and the
-- column. In a release build the product wraps.
module _ {Row Key : Type 0} {key : Row → Key} (c : Client key) where
  open c use {Db}

  unfoldable pub get_paginated : Db → ℕ → ℕ → Result (List Row × ℕ)
  get_paginated db page page_size =
      let offset = page * page_size % 2 ^ 64 in
      elim (c.fetch_one db (count_sql c.table)) [
        | failed e ↦ err (event_fetching_failed e)
        | done total ↦ elim (c.fetch_all db (page_sql c.table c.column page_size offset)) [
          | failed e ↦ err (event_fetching_failed e)
          | done items ↦ ok (items, total)
        ]
      ]

module _ {Key : Type 0} {key : K8sResourceEvent → Key} (c : Client key) where
  unfoldable pub add_k8s_resource_event : c.Db → K8sResourceEvent → c.Db × Result Unit
  add_k8s_resource_event db event = insert_rows c db (event ∷ [])

-- the statements of `initialize_schema`, in order, each with its `?`
module _ {Row Key : Type 0} {key : Row → Key} (c : Client key) where
  unfoldable pub execute_all : c.Db → List Text → c.Db × Result Unit
  execute_all db [] = (db, ok tt)
  execute_all db (sql ∷ rest) =
      let (db', answer) = c.execute db sql in
      elim answer [
        | failed e ↦ (db', err (schema_initialization_failed e))
        | done _ ↦ execute_all db' rest
      ]

  unfoldable pub initialize_schema : Text → Text → c.Db → c.Db × Result Unit
  initialize_schema network_table resource_table db = execute_all db (
      create_network_sql network_table
      ∷ alter_network_sql network_table
      ∷ create_resource_sql resource_table
      ∷ [])
