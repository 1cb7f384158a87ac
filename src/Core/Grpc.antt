-- ===== src/Core/Grpc.antt =====
-- core/src/server/grpc.rs: the handlers of the `EventIngestion` service, with the messages of
-- core/proto/qubit.proto. An event of the loader is handed to a task of its own: the system is the
-- shared state and the tasks that have not run yet. The time of a call and the JSON text of the
-- labels are arguments.
pub mod Interleaving
pub mod Directory
pub mod Calls
pub mod Puts
pub mod Alone
pub mod Carried
pub mod Late
pub mod Threads
pub mod Races
pub mod Resync
use mathlib.Core.List.{foldl}
use qubit.Base.{
  ℕ, zero, suc, ◌%◌, ◌^◌, Text, text_dec, text_eq, codes, show_nat, length, if◌then◌else◌, Option,
  none, some, List, [], ◌∷◌, ◌++◌, Bool, true, false,
}
use qubit.Base.Map.{Map}
use qubit.Core.Cache.{CacheLib}
use qubit.Core.State.{PodInfo, DomainOwner, EbpfNetworkEventInput, State, init}
use qubit.Core.K8s.{
  record_pod_applied, record_pod_deleted, record_service_applied, record_service_deleted,
  record_k8s_resource_event,
}

pub record EbpfNetworkEventRequest : Type 0 where
  pub timestamp_ns : ℕ
  pub src_ip : ℕ
  pub dst_ip : ℕ
  pub src_port : ℕ
  pub dst_port : ℕ
  pub method : Text
  pub path : Text
  pub host : Text

-- An `event_type` is an `i32`, here by its bit pattern.
pub record PodEventRequest : Type 0 where
  pub pod_ip : Text
  pub namespace : Text
  pub event_type : ℕ
  pub application_name : Text
  pub service_name : Text
  pub service_type : Text

pub record ServiceEventRequest : Type 0 where
  pub name : Text
  pub namespace : Text
  pub service_type : Text
  pub cluster_ip : Text
  pub event_type : ℕ

pub record ConfigMapEventRequest : Type 0 where
  pub name : Text
  pub namespace : Text
  pub event_type : ℕ

pub record ServicePodEntry : Type 0 where
  pub service_name : Text
  pub namespace : Text
  pub service_type : Text
  pub pod_ips : List Text
  pub application_name : Text

pub record K8sResourceEventRequest : Type 0 where
  pub resource_type : Text
  pub name : Text
  pub namespace : Text
  pub event_type : ℕ
  pub labels : Map Text Text
  pub resource_data : Text

pub record EnvoyRouteEntry : Type 0 where
  pub domain : Text
  pub service_name : Text
  pub namespace : Text

pub data K8sEventType : Type 0 where
  applied deleted : K8sEventType

-- `K8sEventType::try_from`, with the numbers of the proto file
unfoldable pub try_event_type : ℕ → Option K8sEventType
try_event_type zero = some applied
try_event_type (suc zero) = some deleted
try_event_type (suc (suc n)) = none

pub data Reply : Type 0 where
  reply : Bool → Text → Reply
  invalid_argument : Text → Reply

unfoldable pub unknown_type : Reply
unknown_type = invalid_argument (codes "unknown event type")

unfoldable pub ok_reply : Reply
ok_reply = reply true (codes "ok")

module _ (lib : CacheLib) where
  pub record System : Type 0 where
    pub core : State lib
    pub tasks : List EbpfNetworkEventInput

  abbrev pub idle : System
  idle = record { core = init lib; tasks = [] }

  unfoldable pub send_ebpf_network_event : System → EbpfNetworkEventRequest → System × Reply
  send_ebpf_network_event s req =
      let input : EbpfNetworkEventInput = record {
        timestamp_ns = req.timestamp_ns;
        src_ip = req.src_ip;
        dst_ip = req.dst_ip;
        src_port = req.src_port % 2 ^ 16;
        dst_port = req.dst_port % 2 ^ 16;
        method = req.method;
        path = req.path;
        host = req.host;
      } in
      (record s { tasks = s.tasks ++ input ∷ [] }, reply true (codes "Event received"))

  unfoldable pub send_pod_event : System → PodEventRequest → System × Reply
  send_pod_event s req = elim (try_event_type req.event_type) [
    | none ↦ (s, unknown_type)
    | some applied ↦ (
      record s {
        core =
            record_pod_applied lib s.core req.pod_ip req.namespace req.application_name
              req.service_name req.service_type;
      },
      ok_reply,
    )
    | some deleted ↦ (record s { core = record_pod_deleted lib s.core req.pod_ip }, ok_reply)
  ]

  unfoldable pub send_service_event : System → ServiceEventRequest → System × Reply
  send_service_event s req = elim (try_event_type req.event_type) [
    | none ↦ (s, unknown_type)
    | some applied ↦ (
      record s {
        core =
            record_service_applied lib s.core req.name req.namespace req.service_type
              req.cluster_ip;
      },
      ok_reply,
    )
    | some deleted ↦
        (record s { core = record_service_deleted lib s.core req.name req.namespace }, ok_reply)
  ]

  unfoldable pub send_config_map_event : System → ConfigMapEventRequest → System × Reply
  send_config_map_event s req = elim (try_event_type req.event_type) [
    | none ↦ (s, unknown_type)
    | some applied ↦ (s, ok_reply)
    | some deleted ↦ (s, ok_reply)
  ]

  -- the two loops of `send_service_pod_map`
  unfoldable pub apply_pods : ServicePodEntry → State lib → List Text → State lib
  apply_pods entry = foldl (λ s pod_ip.
      record_pod_applied lib s pod_ip entry.namespace entry.application_name entry.service_name
        entry.service_type)

  unfoldable pub apply_entries : State lib → List ServicePodEntry → State lib
  apply_entries = foldl (λ s entry. apply_pods entry s entry.pod_ips)

  unfoldable pub send_service_pod_map : System → List ServicePodEntry → System × Reply
  send_service_pod_map s entries = (
    record s { core = apply_entries s.core entries },
    reply true (codes "Applied " ++ (show_nat (length entries) ++ codes " service entries")),
  )

  unfoldable pub event_type_str : K8sEventType → Text
  event_type_str applied = codes "Applied"
  event_type_str deleted = codes "Deleted"

  unfoldable pub send_k8s_resource_event :
      (Map Text Text → Text) → ℕ → System → K8sResourceEventRequest → System × Reply
  send_k8s_resource_event to_json now s req = elim (try_event_type req.event_type) [
    | none ↦ (s, unknown_type)
    | some event_type ↦ (
      record s {
        core =
            record_k8s_resource_event lib s.core now req.resource_type req.name req.namespace
              (event_type_str event_type) (to_json req.labels) req.resource_data;
      },
      ok_reply,
    )
  ]

  unfoldable pub add_route : State lib → EnvoyRouteEntry → State lib
  add_route s entry = record s {
    envoy_cache =
        lib.insert DomainOwner s.envoy_cache entry.domain (entry.service_name, entry.namespace);
  }

  unfoldable pub send_envoy_routes : System → List EnvoyRouteEntry → System × Reply
  send_envoy_routes s entries = (
    record s { core = foldl add_route s.core entries },
    reply true (codes "Applied " ++ (show_nat (length entries) ++ codes " entries")),
  )
