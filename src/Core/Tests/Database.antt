-- ===== src/Core/Tests/Database.antt =====
-- Tests of core/src/dao/db.rs, core/src/server/handler.rs and the timer.
use qubit.Base.{
  ℕ, zero, suc, ◌*◌, ◌<◌, none, some, concat, show_nat, Text, text_dec, text_eq, codes, true, false,
  take, drop, List, [], ◌∷◌, ◌++◌, map, Memᴰ, contains, ◌≡◌, ◌↔◌, ◌⊎◌, refl, arith,
}
use qubit.Core.Dao.Rows.{done, failed, edge_keys_sql, count_sql, page_sql}
use qubit.Core.Dao.Rows.{EbpfNetworkEvent, EdgeKey, edge_key_dec, key_of}
use qubit.Core.State.{ok, event_addition_failed, event_fetching_failed}
use qubit.Core.Dao.{NetworkClient, get_paginated, add_events, unseen, insert_rows, write_all}
use qubit.Core.Dao.Laws.{HasKey, add_events-ok, add_events-err, FailsAtEnd}
use qubit.Core.Flush.{row_of, snapshot, tick}
use qubit.Core.Flush.Laws.{flow_key, tick_lem, tick_stores}
use qubit.Core.Flush.Recorded.{recorded_stored}
use qubit.Core.Pages.{PagedResponse, paged, body}
use qubit.Core.Pages.Laws.{paged_cover, joined}
use qubit.Core.Topology.{Flow, stale_id}
use qubit.Core.Topology.Invariant.{HasFlow}
use qubit.Core.Query.{unwrap_or}
use qubit.Core.Cache.{map_cache}
use qubit.Core.Ebpf.{Resolved, record_flow}
use qubit.Core.Ebpf.Phases.{claimed, advance}
use qubit.Core.K8s.{with_topology}
use qubit.Core.Grpc.Calls.{Action, heal, act}
use qubit.Core.Grpc.Threads.{Threads, access, Moves, stay, more}
use qubit.Core.Grpc.Carried.{carried}
use qubit.Core.Ebpf.Laws.{flow_of, destination}
use qubit.Core.Topology.Closed.{new-IsSound}
use qubit.Core.Tests.Events.{known, event, shop as shop_pod}
use qubit.Core.Tests.{
  prod, address, pair_calls, shop, stock, call_of, stale_graph, stale_graph-IsSound,
}
use qubit.Core.Tests.Table.{list_client}

abbrev pub rows_client : NetworkClient
rows_client = list_client key_of true

abbrev fresh : EbpfNetworkEvent
fresh = row_of 7 (call_of shop stock)

-- The first is in the table already.
abbrev batch : List EbpfNetworkEvent
batch = fresh ∷ row_of 7 (call_of stock shop) ∷ []

add_events-ok_example :
    (added : List EbpfNetworkEvent) × (fresh ∷ row_of 7 (call_of stock shop) ∷ []
      ≡ (fresh ∷ []) ++ added)
    × ((e : EbpfNetworkEvent)
        → Memᴰ e added ↔ (Memᴰ e batch × (¬ HasKey rows_client (fresh ∷ []) (key_of e))))
unfolding add_events unseen contains insert_rows write_all edge_key_dec text_dec row_of
    native.Mathlib.Decide.ℕ_discrete
add_events-ok_example =
    add_events-ok rows_client (fresh ∷ []) (fresh ∷ row_of 7 (call_of stock shop) ∷ []) batch refl

abbrev down_client : NetworkClient
down_client = list_client key_of false

add_events-err_example :
    ((m : Text) × (down_client.fetch_keys [] (edge_keys_sql down_client.table) ≡ failed m)
      × (event_fetching_failed (codes "down") ≡ event_fetching_failed m)
      × (◌≡◌ {A = List EbpfNetworkEvent} [] []))
    ⊎ ((m : Text) × (event_fetching_failed (codes "down") ≡ event_addition_failed m)
        × ((◌≡◌ {A = List EbpfNetworkEvent} [] [])
            ⊎ ((existing : List EdgeKey) × (down_client.fetch_keys []
                    (edge_keys_sql down_client.table)
                  ≡ done existing)
                × FailsAtEnd down_client [] (unseen existing batch) m)))
unfolding add_events
add_events-err_example =
    add_events-err down_client [] [] batch (event_fetching_failed (codes "down")) refl

-- On the list no call fails.
writes_all :
    (i rows : List EbpfNetworkEvent)
    → (j : List EbpfNetworkEvent) × (write_all rows_client i rows ≡ done j)
unfolding write_all
writes_all i [] = (i, refl)
writes_all i (r ∷ rows) = writes_all (i ++ r ∷ []) rows

inserts : (db rows : List EbpfNetworkEvent) → (insert_rows rows_client db rows).1 ≡ ok tt
unfolding insert_rows
inserts db rows = ground (arith, (writes_all [] rows).1)

pub adds : (db events : List EbpfNetworkEvent) → (add_events rows_client db events).1 ≡ ok tt
unfolding add_events
adds db [] = refl
adds db (e ∷ events) = ground (arith, inserts db (unseen (map key_of db) (e ∷ events)))

tick_lem_example :
    (added : List EbpfNetworkEvent) × (tick rows_client false stale_graph 7 [] ≡ [] ++ added)
    × ((r : EbpfNetworkEvent)
        → Memᴰ r added ↔ (
            ((f : Flow) × HasFlow stale_graph f × (row_of 7 f ≡ r))
            × (¬ HasKey rows_client [] (key_of r))))
tick_lem_example =
    tick_lem rows_client stale_graph 7 [] stale_graph-IsSound.indexed
      (adds [] (snapshot 7 stale_graph))

tick_stores_example :
    HasKey rows_client
      (tick rows_client false stale_graph 7 [])
      (flow_key (call_of shop (stale_id address)))
tick_stores_example =
    tick_stores rows_client stale_graph 7 [] stale_graph-IsSound.indexed
      (adds [] (snapshot 7 stale_graph)) (call_of shop (stale_id address))
      (pair_calls shop (stale_id address))

-- After the store of an edge to an address, the address becomes known.
abbrev healing : Action
healing = heal (codes "10.0.0.7") (codes "stock") prod

abbrev target : Resolved
target = destination map_cache known event

abbrev stored : Threads map_cache
stored = record {
  core = (advance map_cache known (claimed event shop_pod target)).0;
  running = [];
  calls = (healing ∷ []) ∷ [];
}

abbrev healed : Threads map_cache
healed = record stored { core = act map_cache stored.core healing; calls = [] ∷ [] }

abbrev heals : Moves map_cache stored healed
heals = more stay (access stored [] [] healing [] refl)

usable : healed.core.topology_poisoned ≡ false
unfolding act with_topology advance record_flow
usable = refl

recorded_stored_example :
    let f = carried map_cache heals (flow_of event shop_pod target) in
    let table = tick rows_client healed.core.topology_poisoned healed.core.topology 7 [] in
    HasFlow healed.core.topology f
    × HasKey rows_client table (flow_key f)
    × ((¬ HasKey rows_client [] (flow_key f)) → Memᴰ (row_of 7 f) table)
recorded_stored_example =
    recorded_stored map_cache known event shop_pod target new-IsSound refl stored healed refl heals
      usable rows_client 7 [] (adds [] (snapshot 7 healed.core.topology))

-- Three rows make two pages of two.
abbrev three : List EbpfNetworkEvent
three = fresh ∷ row_of 7 (call_of stock shop) ∷ row_of 9 (call_of stock stock) ∷ []

abbrev page_at : ℕ → PagedResponse EbpfNetworkEvent
page_at i = record { items = take 2 (drop (i * 2) three); total = 3; page = i; page_size = 2 }

first_page :
    paged rows_client three 100 500 (record { page = none; page_size = some 2 }) ≡ body (page_at 0)
unfolding paged get_paginated unwrap_or page_sql count_sql concat show_nat text_dec
    native.Mathlib.Decide.ℕ_discrete
first_page = refl

second_page :
    paged rows_client three 100 500 (record { page = some 1; page_size = some 2 })
    ≡ body (page_at 1)
unfolding paged get_paginated unwrap_or page_sql count_sql concat show_nat text_dec
    native.Mathlib.Decide.ℕ_discrete
second_page = refl

both_pages :
    (i : ℕ)
    → i < 2
    → paged rows_client three 100 500 (record { page = some i; page_size = some 2 })
      ≡ body (page_at i)
unfolding paged unwrap_or
both_pages zero h = first_page
both_pages (suc zero) h = second_page
both_pages (suc (suc i)) h = absurd (omega arith)

paged_cover_example : joined (λ i. (page_at i).items) 2 ≡ three
paged_cover_example =
    paged_cover rows_client three 100 500 2 (some 2) page_at both_pages
      (unfold unwrap_or in omega arith) (unfold unwrap_or in omega arith) three refl (λ other e. e)
