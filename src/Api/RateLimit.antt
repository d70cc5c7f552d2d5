-- ===== src/Api/RateLimit.antt =====
-- sender_service/internal/infrastructure/middleware/rate_limit.go.
use reliable_messaging_syste.Prelude.{if◌then◌else◌}
use reliable_messaging_syste.Effects.{Exec, pure, ◌>>=◌}
use reliable_messaging_syste.Webhook.{RateLimiter}

-- The rest of the chain is `next`; a request that is refused does not reach it.
unfoldable pub rate_limit : {W R : Type 0} → RateLimiter W → R → Exec W R → Exec W R
rate_limit limiter too_many_requests next = do
  allowed ← limiter.allow
  if allowed then next else pure too_many_requests
