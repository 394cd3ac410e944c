-- ===== src/Notification.antt =====
-- src/notification.rs: the notification manager.
pub mod Topics
pub mod Delivery
