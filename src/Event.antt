-- ===== src/Event.antt =====
-- backend/internal/event: the events and ticket_types tables.
pub mod Sql
pub mod Repository
pub mod Service
pub mod Seats
pub mod Quota
pub mod Admin
pub mod Catalog
pub mod Grants
