-- ===== src/Api/Health/Sender.antt =====
-- sender_service/internal/application/service/health_service.go and its handler,
-- sender_service/internal/application/handlers/health_handler.go.
use reliable_messaging_syste.Prelude.{ℕ, ℤ, String, Bool, false, ◌==◌}
use reliable_messaging_syste.Effects.{Result, Exec, Err, pure, defer, try, ◌>>=◌}
use reliable_messaging_syste.Ports.{MessageRepository, MessageQueue}
use reliable_messaging_syste.Webhook.{HttpResponse}
use reliable_messaging_syste.Api.Health.{is_ok}

pub record HealthStatus : Type 0 where
  pub mongodb : Bool
  pub rabbitmq : Bool
  pub service : Bool

-- With the HTTP client that `CheckHealth` makes: the GET of a URL and the closing of a body.
pub record HealthService (W : Type 0) : Type 0 where
  pub repository : MessageRepository W
  pub queue : MessageQueue W
  pub processor_url : String
  pub get_url : String → Exec W (Result HttpResponse)
  pub close_body : ℕ → Exec W Err

unfoldable pub new_health_service :
    {W : Type 0}
    → (String → Exec W (Result HttpResponse))
    → (ℕ → Exec W Err)
    → MessageRepository W
    → MessageQueue W
    → HealthService W
new_health_service get_url close_body repository queue = record {
  repository = repository;
  queue = queue;
  processor_url = "http://processor_service:8081/status";
  get_url = get_url;
  close_body = close_body;
}

module _ {W : Type 0} (s : HealthService W) where
  -- The last part of `CheckHealth`, after the two answers.
  abbrev finish_check : Result ℤ → Bool → Exec W HealthStatus
  finish_check counted service = s.repository.list_messages >>= λ listed.
      pure (record { mongodb = is_ok listed; rabbitmq = is_ok counted; service = service })

  -- The body of the response is closed last.
  unfoldable pub check_health : Exec W HealthStatus
  check_health = s.queue.get_dlq_message_count >>= λ counted.
      try (s.get_url s.processor_url) (λ e. finish_check counted false)
        λ resp. defer (s.close_body resp.body) (finish_check counted (resp.status_code == 200))

-- The handler takes any service with a `CheckHealth`.
pub record HealthHandler (W : Type 0) : Type 0 where
  pub check : Exec W HealthStatus

unfoldable pub new_health_handler : {W : Type 0} → Exec W HealthStatus → HealthHandler W
new_health_handler check = record { check = check }

-- The answer is 200 with the status, whatever that says.
unfoldable pub get_status : {W : Type 0} → HealthHandler W → Exec W (ℕ × HealthStatus)
get_status h = do status ← h.check; pure (200, status)
