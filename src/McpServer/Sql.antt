-- ===== src/McpServer/Sql.antt =====
-- mcp-server/src/ch_client.rs: the texts of the queries for stored events.
pub mod Laws
use qubit.Base.{
  ℕ, ◌*◌, ◌%◌, ◌^◌, Text, nat_eq, codes, concat, join, replace, show_nat, Option, none, some, List,
  [], ◌∷◌, ◌++◌,
}

unfoldable pub sanitize : Text → Text
sanitize input = replace 39 [] input

-- "{column} = '{value}'", for an optional filter
unfoldable pub condition : Text → Option Text → List Text
condition column none = []
condition column (some value) =
    concat (column ∷ codes " = '" ∷ sanitize value ∷ codes "'" ∷ []) ∷ []

unfoldable pub select : Text → Text → List Text → Text → Text
select columns table conditions order = concat (
    codes "SELECT "
    ∷ columns
    ∷ codes " FROM "
    ∷ table
    ∷ codes " WHERE "
    ∷ join (codes " AND ") conditions
    ∷ codes " ORDER BY "
    ∷ order
    ∷ codes " DESC LIMIT 100"
    ∷ [])

unfoldable pub k8s_query : Text → Option Text → Option Text → ℕ → Text
k8s_query table namespace resource_type last_minutes =
    select (codes "event_time, resource_type, name, namespace, event_type, labels, resource_data")
      table
      (concat
          (codes "event_time >= now() - INTERVAL " ∷ show_nat last_minutes ∷ codes " MINUTE" ∷ [])
        ∷ (condition (codes "namespace") namespace
            ++ condition (codes "resource_type") resource_type))
      (codes "event_time")

-- The product is one of 32 bits, which wraps in a release build.
unfoldable pub network_query : Text → Option Text → Option Text → ℕ → Text
network_query table src_service dst_service last_minutes =
    select
      (codes
        "timestamp_ns, src_service, src_namespace, dst_service, dst_namespace, src_port, dst_port, method, path, host")
      table
      (concat (
          codes "timestamp_ns >= (toUnixTimestamp(now()) - "
          ∷ show_nat (last_minutes * 60 % 2 ^ 32)
          ∷ codes ") * 1000000000"
          ∷ [])
        ∷ (condition (codes "src_service") src_service
            ++ condition (codes "dst_service") dst_service))
      (codes "timestamp_ns")
