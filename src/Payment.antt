-- ===== src/Payment.antt =====
-- backend/internal/payment: the payments table, the gateway, and what moves an order on.
pub mod Status
pub mod Gateway
pub mod Repository
pub mod Service
pub mod Contract
pub mod Transition
pub mod Conservation
pub mod Settled
pub mod Progress
pub mod Once
pub mod Midtrans
