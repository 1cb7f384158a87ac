-- ===== src/Core/Dao/Laws.antt =====
-- core/src/dao/db.rs: what an insertion adds, and which rows of a batch are new.
use qubit.Base.{
  Text, Bool-cases, contains, contains_iff, Memᴰ-cons, is_empty, if◌then◌else◌, false, inl, inr,
  List, [], ◌∷◌, ◌++◌, Memᴰ, ◌≡◌, ◌↔◌, ◌⊎◌, map, subst, refl, sym, ap, ◌∙◌, arith,
}
use mathlib.Core.List.Memᴰ
use mathlib.Core.Logic.{⊎_elim}
use mathlib.Core.List.{append-nil, append_assoc}
use qubit.Core.State.{Error, event_addition_failed, event_fetching_failed, Result, ok, err}
use qubit.Core.Dao.Rows.{
  DbReply, done, failed, EbpfNetworkEvent, EdgeKey, edge_key_eq, key_of, edge_keys_sql, Client,
}
use qubit.Core.Dao.{write_all, insert_rows, unseen, NetworkClient, add_events}

pub DbReply-cases :
    {A : Type 0} (r : DbReply A) → ((a : A) × (r ≡ done a)) ⊎ ((e : Text) × (r ≡ failed e))
DbReply-cases (done a) = inl (a, refl)
DbReply-cases (failed e) = inr (e, refl)

module _ {Row Key : Type 0} {key : Row → Key} (c : Client key) where
  open c use {Db, Insert}

  pub write_all_lem :
      (rows : List Row) (i j : Insert)
      → write_all c i rows ≡ done j
      → c.buffered j ≡ c.buffered i ++ rows
  unfolding write_all
  write_all_lem [] i j h = ground (arith, append-nil (c.buffered i))
  write_all_lem (row ∷ rows) i j h = elim (DbReply-cases (c.write i row)) [
    | inr (e, p) ↦ ground arith
    | inl (k, p) ↦ ground (
      arith,
      write_all_lem rows k j,
      c.buffered-write i k row p,
      append_assoc (c.buffered i) (row ∷ []) rows,
    )
  ]

  insert_rows-ok :
      (db db' : Db) (rows : List Row)
      → insert_rows c db rows ≡ (db', ok tt)
      → c.rows db' ≡ c.rows db ++ rows
  unfolding insert_rows
  insert_rows-ok db db' rows h = elim (DbReply-cases (c.insert db).1) [
    | inr (e, p) ↦ ground arith
    | inl (i, p) ↦ elim (DbReply-cases (write_all c i rows)) [
      | inr (e, q) ↦ ground arith
      | inl (j, q) ↦ elim (DbReply-cases (c.end (c.insert db).0 j).1) [
        | inr (e, r) ↦ ground arith
        | inl (u, r) ↦ ground (
          arith,
          c.rows-end (c.insert db).0 j u r,
          c.rows-insert db,
          c.buffered-insert db i p,
          write_all_lem rows i j q,
        )
      ]
    ]
  ]

  -- An insertion that fails has changed the rows at most in its last call.
  abbrev pub FailsAtEnd : Db → List Row → Text → Type 0
  FailsAtEnd db rows message =
      (i : Insert) × (j : Insert) × ((c.insert db).1 ≡ done i)
      × (write_all c i rows ≡ done j)
      × ((c.end (c.insert db).0 j).1 ≡ failed message)

  insert_rows-err :
      (db db' : Db) (rows : List Row) (e : Error)
      → insert_rows c db rows ≡ (db', err e)
      → (message : Text) × (e ≡ event_addition_failed message)
        × ((c.rows db' ≡ c.rows db) ⊎ FailsAtEnd db rows message)
  unfolding insert_rows
  insert_rows-err db db' rows e h = elim (DbReply-cases (c.insert db).1) [
    | inr (m, p) ↦ (m, ground arith, inl (ground (arith, c.rows-insert db)))
    | inl (i, p) ↦ elim (DbReply-cases (write_all c i rows)) [
      | inr (m, q) ↦ (m, ground arith, inl (ground (arith, c.rows-insert db)))
      | inl (j, q) ↦ elim (DbReply-cases (c.end (c.insert db).0 j).1) [
        | inr (m, r) ↦ (m, ground arith, inr (i, j, p, q, r))
        | inl (u, r) ↦ absurd (ground arith)
      ]
    ]
  ]

-- An event of the batch is new if no row has its key.
pub unseen_iff :
    (existing : List EdgeKey) (events : List EbpfNetworkEvent) (e : EbpfNetworkEvent)
    → Memᴰ e (unseen existing events) ↔ (Memᴰ e events × (contains existing (key_of e) ≡ false))
unfolding unseen
unseen_iff existing [] e = (λ m. absurd (Memᴰ.not-nil m), λ q. q.0)
unseen_iff existing (x ∷ es) e = elim (Bool-cases (contains existing (key_of x))) [
  | inl old ↦ ground (
    arith,
    unseen_iff existing es e,
    Memᴰ-cons e x es,
    ap (λ (y : EbpfNetworkEvent). contains existing (key_of y)) {x = e} {y = x},
  )
  | inr new ↦ ground (
    arith,
    unseen_iff existing es e,
    Memᴰ-cons e x es,
    Memᴰ-cons e x (unseen existing es),
    ap (λ (y : EbpfNetworkEvent). contains existing (key_of y)) {x = e} {y = x},
  )
]

module _ (c : NetworkClient) where
  open c use {Db}

  -- A row of the table has the event's key.
  abbrev pub HasKey : Db → EdgeKey → Type 0
  HasKey db k = (r : EbpfNetworkEvent) × Memᴰ r (c.rows db) × (key_of r ≡ k)

  pub HasKey-cases : (db : Db) (k : EdgeKey) → HasKey db k ⊎ (¬ HasKey db k)
  HasKey-cases db k = elim (Bool-cases (contains (map key_of (c.rows db)) k)) [
    | inl p ↦
        let (r, m, e) =
          Memᴰ.of_map key_of (c.rows db) ((contains_iff (map key_of (c.rows db)) k).0 p) in
        inl (r, m, e)
    | inr p ↦ inr λ q.
        let known =
          (contains_iff (map key_of (c.rows db)) k).1 (Memᴰ.cast (sym q.2) (Memᴰ.map key_of q.1)) in
        cc
  ]

  pub HasKey-append :
      (db db' : Db) (added : List EbpfNetworkEvent) (k : EdgeKey)
      → c.rows db' ≡ c.rows db ++ added
      → HasKey db' k ↔ (HasKey db k ⊎ ((r : EbpfNetworkEvent) × Memᴰ r added × (key_of r ≡ k)))
  HasKey-append db db' added k grown = (
    λ q. elim (Memᴰ.append_cases (c.rows db) (subst (Memᴰ q.0) grown q.1)) [
      | inl old ↦ inl (q.0, old, q.2)
      | inr new ↦ inr (q.0, new, q.2)
    ],
    λ q. elim q [
      | inl old ↦ (old.0, subst (Memᴰ old.0) (sym grown) (Memᴰ.append_left added old.1), old.2)
      | inr new ↦
          (new.0, subst (Memᴰ new.0) (sym grown) (Memᴰ.append_right (c.rows db) new.1), new.2)
    ],
  )

  absent_iff :
      (db : Db) (existing : List EdgeKey) (k : EdgeKey)
      → c.fetch_keys db (edge_keys_sql c.table) ≡ done existing
      → (contains existing k ≡ false) ↔ (¬ HasKey db k)
  absent_iff db existing k h = elim (Bool-cases (contains existing k)) [
    | inl p ↦
        (λ q. cc, λ q. absurd (q ((c.keys_lem db existing h k).0 ((contains_iff existing k).0 p))))
    | inr p ↦ (
      λ q m. let known = (contains_iff existing k).1 ((c.keys_lem db existing h k).1 m) in cc,
      λ q. p,
    )
  ]

  abbrev New : Db → List EbpfNetworkEvent → EbpfNetworkEvent → Type 0
  New db events e = Memᴰ e events × (¬ HasKey db (key_of e))

  New-unseen :
      (db : Db) (existing : List EdgeKey) (events : List EbpfNetworkEvent)
      → c.fetch_keys db (edge_keys_sql c.table) ≡ done existing
      → (e : EbpfNetworkEvent) → Memᴰ e (unseen existing events) ↔ New db events e
  New-unseen db existing events h e =
      let member = unseen_iff existing events e in
      let absent = absent_iff db existing (key_of e) h in
      (λ m. ((member.0 m).0, absent.0 (member.0 m).1), λ q. member.1 (q.0, absent.1 q.1))

  -- the last step: nothing is inserted if nothing is new
  abbrev pub insert_unseen : Db → List EbpfNetworkEvent → Db × Result Unit
  insert_unseen db new = if is_empty new then (db, ok tt) else insert_rows c db new

  pub add_events_known :
      (db : Db) (x : EbpfNetworkEvent) (xs : List EbpfNetworkEvent) (existing : List EdgeKey)
      → c.fetch_keys db (edge_keys_sql c.table) ≡ done existing
      → add_events c db (x ∷ xs) ≡ insert_unseen db (unseen existing (x ∷ xs))
  unfolding add_events
  add_events_known db x xs existing p = rw p refl

  insert_unseen-ok :
      (db db' : Db) (new : List EbpfNetworkEvent)
      → insert_unseen db new ≡ (db', ok tt)
      → c.rows db' ≡ c.rows db ++ new
  insert_unseen-ok db db' [] h = ground (arith, append-nil (c.rows db))
  insert_unseen-ok db db' (e ∷ new) h = insert_rows-ok c db db' (e ∷ new) h

  insert_unseen-err :
      (db db' : Db) (new : List EbpfNetworkEvent) (e : Error)
      → insert_unseen db new ≡ (db', err e)
      → (m : Text) × (e ≡ event_addition_failed m)
        × ((c.rows db' ≡ c.rows db) ⊎ FailsAtEnd c db new m)
  insert_unseen-err db db' [] e h = absurd (ground arith)
  insert_unseen-err db db' (x ∷ new) e h = insert_rows-err c db db' (x ∷ new) e h

  -- If `add_events` succeeds, the table has its old rows followed by events of the batch: an
  -- event has been added exactly if it is in the batch and no row had its key before, which is
  -- the names of the two applications, the path and the destination port.
  pub add_events-ok :
      (db db' : Db) (events : List EbpfNetworkEvent)
      → add_events c db events ≡ (db', ok tt)
      → (added : List EbpfNetworkEvent) × (c.rows db' ≡ c.rows db ++ added)
        × ((e : EbpfNetworkEvent) → Memᴰ e added ↔ (Memᴰ e events × (¬ HasKey db (key_of e))))
  unfolding add_events
  add_events-ok db db' [] h =
      ([], ground (arith, append-nil (c.rows db)), λ e. (λ m. absurd (Memᴰ.not-nil m), λ q. q.0))
  add_events-ok db db' (x ∷ xs) h = elim (DbReply-cases (c.fetch_keys db (edge_keys_sql c.table))) [
    | inr (m, p) ↦ absurd (ground arith)
    | inl (existing, p) ↦ (
      unseen existing (x ∷ xs),
      insert_unseen-ok db db' (unseen existing (x ∷ xs))
          (sym (add_events_known db x xs existing p) ∙ h),
      New-unseen db existing (x ∷ xs) p,
    )
  ]

  -- If `add_events` fails, either the query for the keys failed, the error says so with the
  -- database's message and the database is as before; or the error says that an insertion failed,
  -- and the rows are as before unless it was the last call, `end`, that failed, after every new
  -- event of the batch was written.
  pub add_events-err :
      (db db' : Db) (events : List EbpfNetworkEvent) (e : Error)
      → add_events c db events ≡ (db', err e)
      → ((m : Text) × (c.fetch_keys db (edge_keys_sql c.table) ≡ failed m)
          × (e ≡ event_fetching_failed m)
          × (db' ≡ db))
        ⊎ ((m : Text) × (e ≡ event_addition_failed m)
            × ((c.rows db' ≡ c.rows db)
                ⊎ ((existing : List EdgeKey) × (c.fetch_keys db (edge_keys_sql c.table)
                      ≡ done existing)
                    × FailsAtEnd c db (unseen existing events) m)))
  unfolding add_events
  add_events-err db db' [] e h = absurd (ground arith)
  add_events-err db db' (x ∷ xs) e h =
      elim (DbReply-cases (c.fetch_keys db (edge_keys_sql c.table))) [
        | inr (m, p) ↦ inl (m, p, ground arith, ground arith)
        | inl (existing, p) ↦
            let (m, q, reason) =
              insert_unseen-err db db' (unseen existing (x ∷ xs)) e
                (sym (add_events_known db x xs existing p) ∙ h) in
            inr (m, q, ⊎_elim inl (λ r. inr (existing, p, r)) reason)
      ]
