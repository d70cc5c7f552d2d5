-- ===== src/Store/Services.antt =====
-- What the services do to the stored messages.
pub mod Processor
pub mod Sender
pub mod Handling
