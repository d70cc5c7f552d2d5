-- ===== src/Processor.antt =====
-- The processor service: processor_service/internal.
pub mod Domain
pub mod Service
