-- ===== src/Programs/Processor.antt =====
-- processor_service/cmd/main.go, with the constructors that it calls.
use reliable_messaging_syste.Prelude.{ℕ, ◌*◌, String, Bool, ℤ}
use reliable_messaging_syste.Effects.{errorf, Exec, Err, pure, defer, ◌>>◌, try, try_err}
use reliable_messaging_syste.Models.{minute}
use reliable_messaging_syste.Ports.{
  MessageRepository, MessageQueue, IdempotencyService, WebhookClient,
}
use reliable_messaging_syste.Config.{Config, load_config}
use reliable_messaging_syste.Processor.Domain.{MessageProcessor, new_message_processor}
use reliable_messaging_syste.Processor.Service.{ProcessorService, stop}
use reliable_messaging_syste.Adapters.Drivers.{RedisClient, MarkCodec}
use reliable_messaging_syste.Adapters.MessageRepository as Mongo
use reliable_messaging_syste.Adapters.MessageRepository.{new_message_repository}
use reliable_messaging_syste.Adapters.MessageQueue.{new_message_queue}
use reliable_messaging_syste.Adapters.IdempotencyService as RedisInbox
use reliable_messaging_syste.Adapters.IdempotencyService.{new_idempotency_service}
use reliable_messaging_syste.Webhook
use reliable_messaging_syste.Webhook.{RateLimiter, HttpDriver, new_http_webhook_client}
use reliable_messaging_syste.Api.Health.Processor.{
  HealthStatus, get_status, new_health_service, new_health_handler,
}
use reliable_messaging_syste.Programs.Libraries.{MongoClient, Libraries, Exit, finished, fatal}

-- A connection to Redis.
pub record RedisConnection (W : Type 0) : Type 0 where
  pub client : RedisClient W
  pub close : Exec W Err

-- What only this program asks of libraries: Redis at an address, with a password and the number of a
-- database, the HTTP client with a time limit that may skip the verification of certificates, a rate limiter for a rate and a burst, and what runs
-- until a signal arrives. That is the server, which answers the one route by the first argument, and
-- the goroutine of `Start` of the service, which is the second. The error, if there is one, is that
-- which `log.Fatalf` ends the process with before a signal arrives: the error of `router.Run` under
-- the text of `main`, or that of `Start`.
pub record ProcessorLibraries (W : Type 0) : Type 1 where
  pub common : Libraries W
  pub new_redis_client : String → String → ℤ → RedisConnection W
  pub codec : MarkCodec
  pub unix_time : Exec W ℕ
  pub new_http_driver : ℤ → Bool → HttpDriver W
  pub new_limiter : ℕ → ℕ → RateLimiter W
  pub run_until_signal : Exec W (ℕ × HealthStatus) → ProcessorService W → Exec W Err

module _ {W : Type 0} (lib : ProcessorLibraries W) where
  open lib use {
    common, new_redis_client, codec, unix_time, new_http_driver, new_limiter, run_until_signal,
  }

  -- `NewProcessorService`.
  unfoldable pub new_processor_service :
      MessageProcessor
      → MessageRepository W
      → MessageQueue W
      → IdempotencyService W
      → WebhookClient W
      → ProcessorService W
  new_processor_service processor repository queue idempotency_service webhook_client = record {
    processor = processor;
    repository = repository;
    queue = queue;
    idempotency_service = idempotency_service;
    webhook_client = webhook_client;
    platform = common.platform;
  }

  -- From the opened queue to the end of `main`, the deferred call included.
  unfoldable pub run_service : Config → MongoClient W → MessageQueue W → Exec W Exit
  unfolding new_message_repository new_idempotency_service new_http_webhook_client
      new_message_processor new_processor_service new_health_service new_health_handler get_status
  run_service cfg client queue =
      let redis : RedisConnection W =
        new_redis_client cfg.redis_uri cfg.redis_password cfg.redis_db in
      let repository : MessageRepository W = Mongo.as_port (
        new_message_repository common.new_circuit_breaker (client.collection cfg.mongodb_database)
          common.platform.now) in
      let inbox : IdempotencyService W =
        RedisInbox.as_port
          (new_idempotency_service common.new_circuit_breaker redis.client codec unix_time) in
      let service : ProcessorService W =
        new_processor_service (new_message_processor cfg.max_retries (4 * minute)) repository queue
          inbox
          (Webhook.as_port (
            new_http_webhook_client common.new_circuit_breaker new_limiter new_http_driver
              cfg.webhook_url cfg.webhook_timeout)) in
      try_err
        (run_until_signal
          (get_status (new_health_handler (new_health_service repository queue inbox))) service)
        (λ e. pure (fatal e))
        (defer client.disconnect
          do stop service; queue.close; redis.close; client.disconnect; pure finished)

  unfoldable pub main : Exec W Exit
  unfolding load_config new_message_queue run_service
  main =
      let cfg : Config = load_config common.lookup_env common.atoi in
      try (common.connect cfg.mongodb_uri)
        (λ e. pure (fatal (errorf "Failed to connect to MongoDB" e)))
        λ client.
          try
            (new_message_queue (common.dial cfg.rabbitmq_uri) common.open_channel
              common.close_connection)
            (λ e. pure (fatal (errorf "Failed to connect to RabbitMQ" e))) (run_service cfg client)
