-- ===== src/Sender.antt =====
-- The sender service: sender_service/internal.
pub mod Domain
pub mod Service
pub mod Scheduler
