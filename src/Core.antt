-- ===== src/Core.antt =====
-- The aggregation server (core/src).
pub mod Cache
pub mod Dao
pub mod Ebpf
pub mod Flush
pub mod Start
pub mod Ip
pub mod Grpc
pub mod Host
pub mod Topology
pub mod K8s
pub mod Tests
pub mod Pages
pub mod Query
pub mod State
pub mod Subgraph
