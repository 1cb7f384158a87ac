-- ===== src/Core/Dao/Kept.antt =====
-- core/src/dao/db.rs: whatever a batch's insertion answers, which rows the table has after it.
use mathlib.Core.List.Memᴰ
use qubit.Base.{List, [], ◌∷◌, ◌++◌, Memᴰ, ◌≡◌, ◌⊎◌, inl, inr, ap, subst, ◌∙◌}
use qubit.Core.Dao.Rows.{done, EbpfNetworkEvent, edge_keys_sql, Client}
use qubit.Core.Dao.{write_all, insert_rows, unseen, NetworkClient, add_events}
use qubit.Core.Dao.Laws.{DbReply-cases, write_all_lem, unseen_iff, insert_unseen, add_events_known}

module _ {Row Key : Type 0} {key : Row → Key} (c : Client key) where
  open c use {Db, Insert}

  -- Every row of a state of the database was there before or is one of these.
  abbrev pub AreKept : Db → Db → List Row → Type 0
  AreKept db db' new = (r : Row) → Memᴰ r (c.rows db') → Memᴰ r (c.rows db) ⊎ Memᴰ r new

  not_opened : (db : Db) (new : List Row) → AreKept db (c.insert db).0 new
  not_opened db new r at_r = inl (subst (Memᴰ r) (c.rows-insert db) at_r)

  buffered_rows :
      (db : Db) (new : List Row) (i j : Insert)
      → (c.insert db).1 ≡ done i
      → write_all c i new ≡ done j
      → c.buffered j ≡ new
  buffered_rows db new i j p q =
      write_all_lem c new i j q ∙ ap (λ rows. rows ++ new) (c.buffered-insert db i p)

  insert_rows-AreKept : (db : Db) (new : List Row) → AreKept db (insert_rows c db new).0 new
  unfolding insert_rows
  insert_rows-AreKept db new = elim (DbReply-cases (c.insert db).1) [
    | inr (m, p) ↦ rw (insert_rows, p) (not_opened db new)
    | inl (i, p) ↦ elim (DbReply-cases (write_all c i new)) [
      | inr (m, q) ↦ rw (insert_rows, p, q) (not_opened db new)
      | inl (j, q) ↦
          let sent = buffered_rows db new i j p q in
          elim (DbReply-cases (c.end (c.insert db).0 j).1) [
            | inr (m, e) ↦
                rw (insert_rows, p, q, e)
                  (λ r at_r. elim (c.rows-end-failed (c.insert db).0 j m r e at_r) [
                    | inl old ↦ not_opened db new r old
                    | inr some_new ↦ inr (subst (Memᴰ r) sent some_new)
                  ])
            | inl (u, e) ↦
                rw (insert_rows, p, q, e)
                  (λ r at_r.
                    elim (Memᴰ.append_cases (c.rows (c.insert db).0)
                      (subst (Memᴰ r) (c.rows-end (c.insert db).0 j u e) at_r)) [
                        | inl old ↦ not_opened db new r old
                        | inr new_one ↦ inr (subst (Memᴰ r) sent new_one)
                      ])
          ]
    ]
  ]

module _ (c : NetworkClient) where
  open c use {Db}

  insert_unseen-AreKept :
      (db : Db) (new : List EbpfNetworkEvent) → AreKept c db (insert_unseen c db new).0 new
  insert_unseen-AreKept db [] = λ r at_r. inl at_r
  insert_unseen-AreKept db (x ∷ new) = insert_rows-AreKept c db (x ∷ new)

  -- Whatever a batch's insertion answers, each row of the table was there before or is an event of
  -- the batch.
  pub add_events-AreKept :
      (db : Db) (events : List EbpfNetworkEvent) → AreKept c db (add_events c db events).0 events
  unfolding add_events
  add_events-AreKept db [] = λ r at_r. inl at_r
  add_events-AreKept db (x ∷ xs) = elim (DbReply-cases (c.fetch_keys db (edge_keys_sql c.table))) [
    | inr (m, p) ↦ rw (add_events, p) (λ r at_r. inl at_r)
    | inl (existing, p) ↦ rw (add_events_known c db x xs existing p) (λ r at_r.
        elim (insert_unseen-AreKept db (unseen existing (x ∷ xs)) r at_r) [
          | inl old ↦ inl old
          | inr new ↦ inr ((unseen_iff existing (x ∷ xs) r).0 new).0
        ])
  ]
