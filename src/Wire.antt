-- ===== src/Wire.antt =====
-- The calls between the services over gRPC: the servers log-services/*/adapters/grpc/server.go and the
-- clients log-services/app/adapters/*/ and log-services/topology/adapters/repository/repository.go. The
-- messages are those of log-services/proto; gRPC itself carries a message unchanged.
pub mod Status
pub mod ParserRpc
pub mod RepositoryRpc
pub mod TopologyRpc
