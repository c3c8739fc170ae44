-- ===== src/Backend.antt =====
-- The Flask service and its worker, backend/src/myaqi_backend.
pub mod Models
pub mod Auth
pub mod Validation
pub mod Ingestion
pub mod Outbox
pub mod Admin
pub mod Settings
pub mod App
