-- ===== src/Api.antt =====
-- The HTTP side: sender_service/internal/application/handlers and middleware, and the health checks
-- of both services.
pub mod Messages
pub mod Health
pub mod RateLimit
