-- ===== src/Repository.antt =====
-- The repository service: log-services/repository/core and its adapter to PostgreSQL,
-- log-services/repository/adapters/db.
pub mod Model
pub mod Rows
pub mod World
pub mod Save
pub mod Logs
pub mod Queries
pub mod Lifecycle
pub mod Settled
pub mod Statuses
pub mod Service
