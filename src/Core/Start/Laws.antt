-- ===== src/Core/Start/Laws.antt =====
-- core/src/lib.rs and core/src/dao/db.rs: core serves only over the tables that it needs.
use qubit.Base.{Text, none, some, List, [], ◌∷◌, ◌++◌, ◌≡◌, ◌⊎◌, inl, inr, refl, ap}
use qubit.Core.Cache.{CacheLib}
use qubit.Core.State.{schema_initialization_failed, ok, err}
use qubit.Core.Grpc.{idle}
use qubit.Core.Dao.{execute_all, initialize_schema}
use qubit.Core.Dao.Laws.{DbReply-cases}
use qubit.Core.Dao.Rows.{Client, done, create_network_sql, alter_network_sql, create_resource_sql}
use qubit.Core.Dao.Rows as Rows
use qubit.Core.Start.{Server, not_started, first_end, run}

abbrev pub statements : Text → Text → List Text
statements network_table resource_table =
    create_network_sql network_table
    ∷ alter_network_sql network_table
    ∷ create_resource_sql resource_table
    ∷ []

module _ {Row Key : Type 0} {key : Row → Key} (c : Client key) where
  -- All statements of a list were executed, one after the other.
  pub data IsExecuted : c.Db → List Text → c.Db → Type 0 where
    all : (db : c.Db) → IsExecuted db [] db
    then :
        (db db' : c.Db) (sql : Text) (rest : List Text)
        → (c.execute db sql).1 ≡ done tt
        → IsExecuted (c.execute db sql).0 rest db'
        → IsExecuted db (sql ∷ rest) db'

  -- The first statements were executed, and the next one failed.
  pub record IsBroken (db : c.Db) (sqls : List Text) (db' : c.Db) (message : Text) : Type 0 where
    pub before : List Text
    pub sql : Text
    pub after : List Text
    pub at_failure : c.Db
    pub split : sqls ≡ before ++ sql ∷ after
    pub executed : IsExecuted db before at_failure
    pub failure : (c.execute at_failure sql).1 ≡ Rows.failed message
    pub left : (c.execute at_failure sql).0 ≡ db'

  IsBroken-later :
      (db db' : c.Db) (sql : Text) (rest : List Text) (message : Text)
      → (c.execute db sql).1 ≡ done tt
      → IsBroken (c.execute db sql).0 rest db' message
      → IsBroken db (sql ∷ rest) db' message
  IsBroken-later db db' sql rest message p b = record {
    before = sql ∷ b.before;
    sql = b.sql;
    after = b.after;
    at_failure = b.at_failure;
    split = ap (λ xs. sql ∷ xs) b.split;
    executed = then db b.at_failure sql b.before p b.executed;
    failure = b.failure;
    left = b.left;
  }

  execute_all_lem :
      (db : c.Db) (sqls : List Text)
      → let (db', answer) = execute_all c db sqls in
        ((answer ≡ ok tt) × IsExecuted db sqls db')
        ⊎ ((m : Text) × (answer ≡ err (schema_initialization_failed m)) × IsBroken db sqls db' m)
  unfolding execute_all
  execute_all_lem db [] = inl (refl, all db)
  execute_all_lem db (sql ∷ rest) = elim (DbReply-cases (c.execute db sql).1) [
    | inr (m, p) ↦
        rw (execute_all, p)
          (inr (
            m,
            refl,
            record {
              before = [];
              sql = sql;
              after = rest;
              at_failure = db;
              split = refl;
              executed = all db;
              failure = p;
              left = refl;
            },
          ))
    | inl (u, p) ↦
        rw (execute_all, p)
          (elim (execute_all_lem (c.execute db sql).0 rest) [
            | inl (q, e) ↦ inl (q, then db _ sql rest p e)
            | inr (m, q, b) ↦ inr (m, q, IsBroken-later db _ sql rest m p b)
          ])
  ]

-- Either all three statements on the tables are executed in their order and succeed, and core starts
-- its servers over an empty state and ends with the first one that ends; or core fails with the
-- message of the first statement that fails, no later one was executed and no server was started.
run_lem :
    {Row Key : Type 0} {key : Row → Key} (c : Client key) (lib : CacheLib)
    (network_table resource_table : Text) (db : c.Db) (ends : List Server)
    → let (db', core, outcome) = run c lib network_table resource_table db ends in
      let sqls = statements network_table resource_table in
      (IsExecuted c db sqls db' × (core ≡ some (idle lib)) × (outcome ≡ first_end ends))
      ⊎ ((m : Text) × IsBroken c db sqls db' m
          × (core ≡ none)
          × (outcome ≡ not_started (schema_initialization_failed m)))
unfolding run initialize_schema
run_lem c lib network_table resource_table db ends =
    elim (execute_all_lem c db (statements network_table resource_table)) [
      | inl (q, e) ↦ rw (run, q) (inl (e, refl, refl))
      | inr (m, q, b) ↦ rw (run, q) (inr (m, b, refl, refl))
    ]
