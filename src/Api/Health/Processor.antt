-- ===== src/Api/Health/Processor.antt =====
-- processor_service/internal/application/service/health_service.go and its handler,
-- processor_service/internal/application/handlers/health_handler.go.
use reliable_messaging_syste.Prelude.{ℕ, Bool, true}
use reliable_messaging_syste.Effects.{Exec, pure, ◌>>=◌}
use reliable_messaging_syste.Ports.{MessageRepository, MessageQueue, IdempotencyService}
use reliable_messaging_syste.Api.Health.{is_ok}

pub record HealthStatus : Type 0 where
  pub mongodb : Bool
  pub rabbitmq : Bool
  pub redis : Bool
  pub service : Bool

pub record HealthService (W : Type 0) : Type 0 where
  pub repository : MessageRepository W
  pub queue : MessageQueue W
  pub idempotency_service : IdempotencyService W

unfoldable pub new_health_service :
    {W : Type 0} → MessageRepository W → MessageQueue W → IdempotencyService W → HealthService W
new_health_service repository queue idempotency_service = record {
  repository = repository;
  queue = queue;
  idempotency_service = idempotency_service;
}

unfoldable pub check_health : {W : Type 0} → HealthService W → Exec W HealthStatus
check_health s = do
  listed ← s.repository.list_messages
  counted ← s.queue.get_dlq_message_count
  checked ← s.idempotency_service.is_processed "health-check"
  pure (record {
    mongodb = is_ok listed;
    rabbitmq = is_ok counted;
    redis = is_ok checked;
    service = true;
  })

pub record HealthHandler (W : Type 0) : Type 0 where
  pub service : HealthService W

unfoldable pub new_health_handler : {W : Type 0} → HealthService W → HealthHandler W
new_health_handler service = record { service = service }

-- The answer is 200 with the status, whatever that says.
unfoldable pub get_status : {W : Type 0} → HealthHandler W → Exec W (ℕ × HealthStatus)
unfolding check_health
get_status h = do status ← check_health h.service; pure (200, status)
