-- ===== src/Event/Catalog.antt =====
-- The guest's catalogue: the reads of backend/internal/event that show published events.
pub mod Sql
pub mod Repository
pub mod Service
pub mod Hidden
