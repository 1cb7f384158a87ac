-- ===== src/Core/Pages.antt =====
-- core/src/server/handler.rs, the two paginated endpoints, and the texts of core/src/model/error.rs.
-- A reply is the body with the status OK, or a text with the status of an internal error.
pub mod Laws
use qubit.Base.{ℕ, min, Text, codes, Option, none, some, List, ◌++◌}
use qubit.Core.State.{
  Error, schema_initialization_failed, event_addition_failed, event_fetching_failed,
  ebpf_event_recording_failed, envoy_request_failed, ok, err,
}
use qubit.Core.Query.{unwrap_or}
use qubit.Core.Dao.Rows.{Client}
use qubit.Core.Dao.{get_paginated}

pub record PaginationParams : Type 0 where
  pub page : Option ℕ
  pub page_size : Option ℕ

pub record PagedResponse (Row : Type 0) : Type 0 where
  pub items : List Row
  pub total : ℕ
  pub page : ℕ
  pub page_size : ℕ

pub data PageReply (Row : Type 0) : Type 0 where
  body : PagedResponse Row → PageReply Row
  internal_server_error : Text → PageReply Row

unfoldable pub error_text : Error → Text
error_text (schema_initialization_failed e) = codes "Failed to initialize ClickHouse schema: " ++ e
error_text (event_addition_failed e) = codes "Failed to add event: " ++ e
error_text (event_fetching_failed e) = codes "Failed to fetch events: " ++ e
error_text (ebpf_event_recording_failed e) = codes "Failed to record ebpf event: " ++ e
error_text (envoy_request_failed e) = codes "Envoy admin API request failed: " ++ e

module _ {Row Key : Type 0} {key : Row → Key} (c : Client key) (db : c.Db) where
  -- The endpoints differ in the table, the default size and the cap.
  unfoldable pub paged : ℕ → ℕ → PaginationParams → PageReply Row
  paged default cap params =
      let page = unwrap_or params.page 0 in
      let page_size = min (unwrap_or params.page_size default) cap in
      elim (get_paginated c db page page_size) [
        | ok (items, total) ↦
            body (record { items = items; total = total; page = page; page_size = page_size })
        | err e ↦ internal_server_error (error_text e)
      ]

  unfoldable pub k8s_events : PaginationParams → PageReply Row
  k8s_events = paged 50 200

  unfoldable pub network_events : PaginationParams → PageReply Row
  network_events = paged 100 500
