-- ===== src/Agent.antt =====
-- The agent that tells the server which pod has which address (cluster-agent/src).
pub mod Objects
pub mod Registry
pub mod Envoy
pub mod Handlers
pub mod Events
pub mod ConfigMaps
pub mod Informer
pub mod Cluster
pub mod Server
pub mod Tests
