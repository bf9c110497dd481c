-- ===== src/Event/Admin.antt =====
-- The admin side of the event domain: backend/internal/event/admin_dto.go, admin_repository.go,
-- admin_service.go and order_checker.go.
pub mod Slug
pub mod Request
pub mod Sql
pub mod Repository
pub mod Service
pub mod Restrict
pub mod Delete
pub mod EventWrites
pub mod Sold
pub mod TicketTypeWrites
pub mod Seats
