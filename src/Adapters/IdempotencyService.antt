-- ===== src/Adapters/IdempotencyService.antt =====
-- shared/adapters/idempotency_service_adapter.go: the inbox over Redis.
pub mod Contract
pub mod Marks
pub mod Kept
pub mod Worker
use Prim.Native.String.{◌++◌}
use reliable_messaging_syste.Prelude.{
  ℕ, ◌*◌, String, Bool, true, false, Option, none, some, if◌then◌else◌,
}
use reliable_messaging_syste.Effects.{
  Error, redis_nil, errorf, Result, ok, err, Exec, Err, pure, ◌>>=◌, try, try_err,
}
use reliable_messaging_syste.Models.{Duration, hour}
use reliable_messaging_syste.Ports
use reliable_messaging_syste.Adapters.Drivers.{CircuitBreaker, Settings, RedisClient, MarkCodec}
use reliable_messaging_syste.Adapters.Breaker.{breaker_settings, guarded, guarded_err, of_err}
use text.Mathlib.Text.{◌==◌ as str_eq}

-- `err == redis.Nil`
abbrev pub is_redis_nil : Error → Bool
is_redis_nil redis_nil = true
is_redis_nil _ = false

abbrev pub inbox_key : String → String
inbox_key message_id = "inbox:" ++ message_id

abbrev pub webhook_key : String → String
webhook_key message_id = "webhook:msg:" ++ message_id

-- `ok && status == "processed"`
abbrev pub is_processed_status : Option String → Bool
is_processed_status none = false
is_processed_status (some status) = str_eq status "processed"

pub record RedisIdempotencyService (W : Type 0) : Type 1 where
  pub client : RedisClient W
  pub cb : CircuitBreaker W
  pub codec : MarkCodec
  pub unix_time : Exec W ℕ

unfoldable pub new_idempotency_service :
    {W : Type 0}
    → (Settings → CircuitBreaker W)
    → RedisClient W
    → MarkCodec
    → Exec W ℕ
    → RedisIdempotencyService W
unfolding breaker_settings
new_idempotency_service new_circuit_breaker client codec unix_time = record {
  client = client;
  cb = new_circuit_breaker (breaker_settings "redis-idempotency");
  codec = codec;
  unix_time = unix_time;
}

-- What a value under an inbox key says. A value that is no JSON map is compared as it stands.
abbrev pub says_processed : MarkCodec → String → Bool
says_processed codec val = elim (codec.status_of val) [
  | err _ ↦ str_eq val "processed"
  | ok status ↦ is_processed_status status
]

module _ {W : Type 0} (s : RedisIdempotencyService W) where
  open s use {client, cb, codec, unix_time}

  -- The closure of `IsProcessed`.
  abbrev pub read_mark : String → Exec W (Result Bool)
  read_mark message_id =
      try (client.get (inbox_key message_id))
        (λ e. pure (if is_redis_nil e then ok false else err e))
        λ val. pure (ok (says_processed codec val))

  unfoldable pub is_processed : String → Exec W (Result Bool)
  is_processed message_id = guarded cb (read_mark message_id)

  -- The closure of `MarkAsProcessed`.
  abbrev pub write_mark : String → Exec W Err
  write_mark message_id = unix_time >>= λ at. elim (codec.encode_mark "processed" at) [
    | err e ↦ pure (some (errorf "failed to marshal data" e))
    | ok data' ↦ client.set (inbox_key message_id) data' (24 * hour)
  ]

  unfoldable pub mark_as_processed : String → Exec W Err
  mark_as_processed message_id = guarded_err cb (write_mark message_id)

  -- The closure of `StoreWebhookMessageID`.
  abbrev pub write_webhook_id : String → String → Duration → Exec W (Result (Unit {0}))
  write_webhook_id message_id webhook_message_id expiration =
      try_err (client.set (webhook_key message_id) webhook_message_id expiration)
        (λ e. pure (err (errorf "failed to store webhook messageId" e))) (pure (ok tt))

  -- The breaker's error is returned as it is.
  unfoldable pub store_webhook_message_id : String → String → Duration → Exec W Err
  store_webhook_message_id message_id webhook_message_id expiration =
      try (cb.execute (write_webhook_id message_id webhook_message_id expiration))
        (λ e. pure (some e)) (λ _. pure none)

  abbrev pub as_port : Ports.IdempotencyService W
  as_port = record {
    is_processed = is_processed;
    mark_as_processed = mark_as_processed;
    store_webhook_message_id = store_webhook_message_id;
  }
