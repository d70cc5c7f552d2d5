-- ===== src/Trace.antt =====
-- The world as a history. Every call that a service makes through a port is an event that carries
-- the reply it got, and an arbitrary environment chooses each reply from all that happened before.
-- The newest event stands first. A theorem for every environment holds for whatever the databases,
-- the broker, the network and the clock answer.
use reliable_messaging_syste.Prelude.{String, Bool, List, ℤ, ◌∷◌, Option}
use reliable_messaging_syste.Effects.{Exec, Err, Result, returns}
use reliable_messaging_syste.Models.{ObjectId, Time, Duration, Bytes, MessageStatus, Message}
use reliable_messaging_syste.Contracts.{QueueMessage, Delivery}
use reliable_messaging_syste.Ports.{
  MessageRepository, MessageQueue, IdempotencyService, WebhookClient, WebhookResponse, Platform,
}

pub data Event : Type 0 where
  clock_read : Time → Event
  acked : Delivery → Err → Event
  nacked : Delivery → Bool → Err → Event
  checked : String → Result Bool → Event
  marked : String → Err → Event
  webhook_id_stored : String → String → Duration → Err → Event
  fetched : ObjectId → Result (Option Message) → Event
  status_set : ObjectId → MessageStatus → Err → Event
  retry_counted : ObjectId → Err → Event
  webhook_called : String → String → Result (Option WebhookResponse) → Event
  dead_lettered : Delivery → Err → Event
  moved_to_retry : Delivery → Err → Event
  published : QueueMessage → Err → Event
  consumed : String → Err → Event
  unsent_listed : ℤ → Result (List Message) → Event
  stale_listed : Duration → Result (List Message) → Event
  all_listed : Result (List Message) → Event
  created : Message → Err × Message → Event
  dlq_counted : Result ℤ → Event
  closed : Event

abbrev pub Trace : Type 0
Trace = List Event

-- What the environment answers, given the history and the arguments.
pub record Env : Type 0 where
  pub now : Trace → Time
  pub ack : Trace → Delivery → Err
  pub nack : Trace → Delivery → Bool → Err
  pub is_processed : Trace → String → Result Bool
  pub mark_as_processed : Trace → String → Err
  pub store_webhook_message_id : Trace → String → String → Duration → Err
  pub get_by_id : Trace → ObjectId → Result (Option Message)
  pub update_status : Trace → ObjectId → MessageStatus → Err
  pub increment_retry_count : Trace → ObjectId → Err
  pub send_message : Trace → String → String → Result (Option WebhookResponse)
  pub move_to_dead_letter : Trace → Delivery → Err
  pub move_to_retry_queue : Trace → Delivery → Err
  pub publish_message : Trace → QueueMessage → Err
  pub consume_messages : Trace → String → Err
  pub find_unsent_messages : Trace → ℤ → Result (List Message)
  pub find_stale_processing_messages : Trace → Duration → Result (List Message)
  pub list_messages : Trace → Result (List Message)
  pub create_message : Trace → Message → Err × Message
  pub get_dlq_message_count : Trace → Result ℤ
  pub marshal : QueueMessage → Result Bytes
  pub unmarshal : Bytes → Result QueueMessage
  pub hex : ObjectId → String
  pub object_id_from_hex : String → Result ObjectId

abbrev pub perform : {R : Type 0} → (Trace → R) → (R → Event) → Exec Trace R
perform reply event t = let r = reply t in (returns r, event r ∷ t)

module _ (env : Env) where
  abbrev pub repository : MessageRepository Trace
  repository = record {
    find_unsent_messages = λ n. perform (λ t. env.find_unsent_messages t n) (unsent_listed n);
    update_status = λ id st. perform (λ t. env.update_status t id st) (status_set id st);
    increment_retry_count = λ id. perform (λ t. env.increment_retry_count t id) (retry_counted id);
    get_by_id = λ id. perform (λ t. env.get_by_id t id) (fetched id);
    create_message = λ m. perform (λ t. env.create_message t m) (created m);
    list_messages = perform (λ t. env.list_messages t) all_listed;
    find_stale_processing_messages =
        λ d. perform (λ t. env.find_stale_processing_messages t d) (stale_listed d);
  }

  abbrev pub queue : MessageQueue Trace
  queue = record {
    publish_message = λ m. perform (λ t. env.publish_message t m) (published m);
    consume_messages = λ q. perform (λ t. env.consume_messages t q) (consumed q);
    move_to_dead_letter = λ d. perform (λ t. env.move_to_dead_letter t d) (dead_lettered d);
    move_to_retry_queue = λ d. perform (λ t. env.move_to_retry_queue t d) (moved_to_retry d);
    get_dlq_message_count = perform (λ t. env.get_dlq_message_count t) dlq_counted;
    close = perform (λ t. tt) (λ _. closed);
  }

  abbrev pub idempotency_service : IdempotencyService Trace
  idempotency_service = record {
    is_processed = λ id. perform (λ t. env.is_processed t id) (checked id);
    mark_as_processed = λ id. perform (λ t. env.mark_as_processed t id) (marked id);
    store_webhook_message_id = λ id w ttl.
        perform (λ t. env.store_webhook_message_id t id w ttl) (webhook_id_stored id w ttl);
  }

  abbrev pub webhook_client : WebhookClient Trace
  webhook_client = record {
    send_message = λ c to. perform (λ t. env.send_message t c to) (webhook_called c to);
  }

  abbrev pub platform : Platform Trace
  platform = record {
    now = perform (λ t. env.now t) clock_read;
    ack = λ d multiple. perform (λ t. env.ack t d) (acked d);
    nack = λ d multiple requeue. perform (λ t. env.nack t d requeue) (nacked d requeue);
    marshal = env.marshal;
    unmarshal = env.unmarshal;
    hex = env.hex;
    object_id_from_hex = env.object_id_from_hex;
  }
