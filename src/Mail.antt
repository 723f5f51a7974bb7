-- ===== src/Mail.antt =====
-- Notification mails: app/services/notification_email_delivery.py over the tables of
-- app/models/notification_email.py.
pub mod Tables
pub mod Delivery
pub mod Worker
pub mod Invariant
pub mod Attempts
pub mod Keyed
pub mod Settled
pub mod Sends
pub mod Live
