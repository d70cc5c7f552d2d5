-- ===== src/Programs.antt =====
-- The main programs: how each service is put together from its parts, started and shut down. The
-- connections, the HTTP server and the signals are libraries.
pub mod Libraries
pub mod Sender
pub mod Processor
