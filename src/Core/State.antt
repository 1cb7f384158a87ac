-- ===== src/Core/State.antt =====
-- What the aggregators of core share: core/src/aggregator/k8s_aggregator.rs,
-- core/src/aggregator/ebpf_aggregator.rs, core/src/envoy/envoy.rs and core/src/model.
-- A lock is its value and whether a panic of its holder has poisoned it.
use qubit.Base.{ℕ, Text, Bool, false, List, []}
use qubit.Core.Topology.{Topology, new}
use qubit.Core.Cache.{CacheLib}

pub record PodInfo : Type 0 where
  pub namespace : Text
  pub application_name : Text
  pub service_name : Text
  pub service_type : Text

pub record ServiceInfo : Type 0 where
  pub namespace : Text
  pub service_type : Text
  pub cluster_ip : Text

-- the value of the Envoy cache, `(service_name, namespace)`
abbrev pub DomainOwner : Type 0
DomainOwner = Text × Text

pub data Error : Type 0 where
  schema_initialization_failed : Text → Error
  event_addition_failed : Text → Error
  event_fetching_failed : Text → Error
  ebpf_event_recording_failed : Text → Error
  envoy_request_failed : Text → Error

pub data Result (A : Type 0) : Type 0 where
  ok : A → Result A
  err : Error → Result A

pub record EbpfNetworkEventInput : Type 0 where
  pub timestamp_ns : ℕ
  pub src_ip : ℕ
  pub dst_ip : ℕ
  pub src_port : ℕ
  pub dst_port : ℕ
  pub method : Text
  pub path : Text
  pub host : Text

-- A row of the table of resource events.
pub record K8sResourceEvent : Type 0 where
  pub event_time : ℕ
  pub resource_type : Text
  pub name : Text
  pub namespace : Text
  pub event_type : Text
  pub labels : Text
  pub resource_data : Text

module _ (lib : CacheLib) where
  open lib use {Cache, empty}

  pub record State : Type 0 where
    pub topology : Topology
    pub topology_poisoned : Bool
    pub pod_cache : Cache PodInfo
    pub service_cache : Cache ServiceInfo
    pub envoy_cache : Cache DomainOwner
    pub seen_edges : List Text
    pub seen_poisoned : Bool
    -- rows handed to a task that writes them to the database
    pub db_queue : List K8sResourceEvent

  abbrev pub init : State
  init = record {
    topology = new;
    topology_poisoned = false;
    pod_cache = empty PodInfo;
    service_cache = empty ServiceInfo;
    envoy_cache = empty DomainOwner;
    seen_edges = [];
    seen_poisoned = false;
    db_queue = [];
  }
