-- ===== src/Notification.antt =====
-- backend/internal/notification: the ticket email.
pub mod Service
pub mod Delivery
pub mod Neutral
