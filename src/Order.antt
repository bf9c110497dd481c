-- ===== src/Order.antt =====
-- backend/internal/order: the orders, order_items and attendees tables.
pub mod Sql
pub mod Repository
pub mod Number
pub mod Provider
pub mod Request
pub mod Checkout
pub mod Contract
pub mod Reserving
pub mod Conservation
pub mod Seats
pub mod Writes
pub mod Expiry
pub mod Amounts
pub mod LineSums
pub mod Totals
pub mod Evolution
pub mod Lifecycle
pub mod Progress
pub mod Lookup
pub mod Public
pub mod Admin
