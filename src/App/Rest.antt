-- ===== src/App/Rest.antt =====
-- The REST handlers' own logic: log-services/app/adapters/rest.
pub mod Pagination
pub mod Payloads
pub mod Handlers
pub mod Middleware
pub mod TopologyView
pub mod Health
