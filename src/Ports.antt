-- ===== src/Ports.antt =====
-- The interfaces between the services and what they run on: shared/ports, the processor's
-- webhook_client.go, and the parts of the libraries that the services call themselves.
use reliable_messaging_syste.Prelude.{String, Bool, List, ℤ, Option}
use reliable_messaging_syste.Effects.{Exec, Err, Result}
use reliable_messaging_syste.Models.{ObjectId, Time, Duration, Bytes, MessageStatus, Message}
use reliable_messaging_syste.Contracts.{QueueMessage, Delivery}

module _ (W : Type 0) where
  -- A nil `*models.Message` is `none`. `create_message` is handed a pointer, so it also gives the
  -- message as the caller finds it afterwards.
  pub record MessageRepository : Type 0 where
    pub find_unsent_messages : ℤ → Exec W (Result (List Message))
    pub update_status : ObjectId → MessageStatus → Exec W Err
    pub increment_retry_count : ObjectId → Exec W Err
    pub get_by_id : ObjectId → Exec W (Result (Option Message))
    pub create_message : Message → Exec W (Err × Message)
    pub list_messages : Exec W (Result (List Message))
    pub find_stale_processing_messages : Duration → Exec W (Result (List Message))

  -- `ConsumeMessages` gives a channel: whether it opens is all that is modelled of it here.
  pub record MessageQueue : Type 0 where
    pub publish_message : QueueMessage → Exec W Err
    pub consume_messages : String → Exec W Err
    pub move_to_dead_letter : Delivery → Exec W Err
    pub move_to_retry_queue : Delivery → Exec W Err
    pub get_dlq_message_count : Exec W (Result ℤ)
    pub close : Exec W (Unit {0})

  pub record IdempotencyService : Type 0 where
    pub is_processed : String → Exec W (Result Bool)
    pub mark_as_processed : String → Exec W Err
    pub store_webhook_message_id : String → String → Duration → Exec W Err

pub record WebhookResponse : Type 0 where
  pub message : String
  pub message_id : String

module _ (W : Type 0) where
  -- A nil `*WebhookResponse` is `none`.
  pub record WebhookClient : Type 0 where
    pub send_message : String → String → Exec W (Result (Option WebhookResponse))

  -- What a service asks of libraries: the clock, the acknowledgements of a delivery, the JSON form
  -- of a queue message, and the hexadecimal form of an object id. `ack d multiple` and
  -- `nack d multiple requeue` take the arguments of the AMQP library.
  pub record Platform : Type 0 where
    pub now : Exec W Time
    pub ack : Delivery → Bool → Exec W Err
    pub nack : Delivery → Bool → Bool → Exec W Err
    pub marshal : QueueMessage → Result Bytes
    pub unmarshal : Bytes → Result QueueMessage
    pub hex : ObjectId → String
    pub object_id_from_hex : String → Result ObjectId
