-- ===== src/Ticket.antt =====
-- backend/internal/ticket: the tickets table.
pub mod Code
pub mod Sql
pub mod Repository
pub mod Service
pub mod Writes
pub mod Door
pub mod Issue
