-- ===== src/Wire/RepositoryRpc.antt =====
-- The repository over gRPC: its messages, its server and its two clients.
pub mod Messages
pub mod Server
pub mod AppClient
pub mod TopologyClient
pub mod RoundTrip
