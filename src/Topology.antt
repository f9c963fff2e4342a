-- ===== src/Topology.antt =====
-- The topology service: log-services/topology/core, and its two gRPC adapters.
pub mod Model
pub mod Kinds
pub mod Ports
pub mod Edges
pub mod Groups
pub mod Service
