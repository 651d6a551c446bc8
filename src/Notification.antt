-- ===== src/Notification.antt =====
-- The notification service (services/notification): who is told of an escalation, on which channel.
pub mod Types
pub mod RateLimit
pub mod Store
pub mod TenantCache
pub mod Dispatcher
pub mod Texts
pub mod Notifier
pub mod Consumer
pub mod Tests
