-- ===== src/App.antt =====
-- The app service, the gateway: log-services/app/core and log-services/app/adapters/rest.
pub mod Model
pub mod Service
pub mod Rest
