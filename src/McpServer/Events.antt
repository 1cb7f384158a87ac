-- ===== src/McpServer/Events.antt =====
-- mcp-server/src/tools.rs and ch_client.rs: the texts that the tools answer about stored events.
use qubit.Base.{
  ℕ, Text, text_eq, codes, concat, show_nat, length, is_empty, ◌==◌, ◌&&◌, not, if◌then◌else◌,
  flat_map, Option, List, [], ◌∷◌, ◌++◌,
}
use qubit.Core.Query.{unwrap_or}
use qubit.McpServer.Sql.{k8s_query, network_query}
use qubit.McpServer.Answers.{Queried, found, error, right_arrow, long_dash, newline}

pub record K8sRow : Type 0 where
  pub event_time : ℕ
  pub resource_type : Text
  pub name : Text
  pub namespace : Text
  pub event_type : Text
  pub labels : Text
  pub resource_data : Text

pub record EbpfRow : Type 0 where
  pub timestamp_ns : ℕ
  pub src_service : Text
  pub src_namespace : Text
  pub dst_service : Text
  pub dst_namespace : Text
  pub src_port : ℕ
  pub dst_port : ℕ
  pub method : Text
  pub path : Text
  pub host : Text

unfoldable pub k8s_row : K8sRow → Text
k8s_row row =
    let shown = not (is_empty row.resource_data) && not (row.resource_data == codes "{}") in
    let resource_data : Text =
      if shown then codes "        data: " ++ (row.resource_data ++ newline) else [] in
    concat (
      codes "  ["
      ∷ row.event_type
      ∷ codes "] "
      ∷ row.resource_type
      ∷ codes " "
      ∷ row.namespace
      ∷ codes "/"
      ∷ row.name
      ∷ codes " "
      ∷ long_dash
      ∷ codes " "
      ∷ show_nat row.event_time
      ∷ newline
      ∷ resource_data
      ∷ [])

unfoldable pub network_row : EbpfRow → Text
network_row row = concat (
    codes "  "
    ∷ row.src_namespace
    ∷ codes "/"
    ∷ row.src_service
    ∷ codes ":"
    ∷ show_nat row.src_port
    ∷ codes " "
    ∷ right_arrow
    ∷ codes " "
    ∷ row.dst_namespace
    ∷ codes "/"
    ∷ row.dst_service
    ∷ codes ":"
    ∷ show_nat row.dst_port
    ∷ codes " | "
    ∷ row.method
    ∷ codes " "
    ∷ row.path
    ∷ codes " | host="
    ∷ row.host
    ∷ newline
    ∷ [])

-- the rows under a heading, or one of the two other texts
unfoldable pub report : {R : Type 0} → Text → Text → (R → Text) → ℕ → Queried (List R) → Text
report kind title line minutes (error e) =
    concat (codes "Error querying " ∷ kind ∷ codes " events: " ∷ e ∷ [])
report kind title line minutes (found rows) =
    if is_empty rows
    then concat (
        codes "No "
        ∷ kind
        ∷ codes " events found in the last "
        ∷ show_nat minutes
        ∷ codes " minutes."
        ∷ [])
    else concat (
        title
        ∷ codes " Events (last "
        ∷ show_nat minutes
        ∷ codes " min, "
        ∷ show_nat (length rows)
        ∷ codes " results):"
        ∷ newline
        ∷ newline
        ∷ flat_map line rows
        ∷ [])

unfoldable pub get_k8s_events :
    (Text → Queried (List K8sRow)) → Text → Option Text → Option Text → Option ℕ → Text
get_k8s_events fetch_all table namespace resource_type last_minutes =
    let minutes = unwrap_or last_minutes 60 in
    report (codes "K8s") (codes "K8s") k8s_row minutes
      (fetch_all (k8s_query table namespace resource_type minutes))

unfoldable pub get_network_events :
    (Text → Queried (List EbpfRow)) → Text → Option Text → Option Text → Option ℕ → Text
get_network_events fetch_all table src_service dst_service last_minutes =
    let minutes = unwrap_or last_minutes 60 in
    report (codes "network") (codes "Network") network_row minutes
      (fetch_all (network_query table src_service dst_service minutes))
