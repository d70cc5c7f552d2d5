-- ===== src/Adapters/MessageQueue.antt =====
-- shared/adapters/message_queue_adapter.go: the queue over an AMQP channel.
pub mod Contract
pub mod Topology
pub mod Routing
pub mod Handover
use reliable_messaging_syste.Prelude.{String, true, false, none, some, [], ℤ}
use reliable_messaging_syste.Effects.{
  errorf, Result, ok, err, Exec, Err, pure, ◌>>=◌, ◌>>◌, try, try_err, fail, nil,
}
use reliable_messaging_syste.Models.{Time, Bytes}
use reliable_messaging_syste.Contracts.{
  Table, QueueMessage, Delivery, main_queue_name, retry_queue_name, dlq_queue_name, main_exchange,
  retry_exchange,
}
use reliable_messaging_syste.Ports
use reliable_messaging_syste.Adapters.Drivers.{Channel, QueueArgs}

-- The adapter with what it asks of other libraries. A channel or connection that is nil is no case
-- here: the constructor returns an adapter only with both.
pub record RabbitMqAdapter (W : Type 0) : Type 0 where
  pub channel : Channel W
  pub now : Exec W Time
  pub marshal : QueueMessage → Result Bytes

-- The headers of a delivery, with an empty table for none.
abbrev pub headers_of : Delivery → Table
headers_of msg = elim msg.headers [ none ↦ [] | some t ↦ t ]

abbrev pub main_args : QueueArgs
main_args = record {
  message_ttl = none;
  dead_letter_exchange = retry_exchange;
  dead_letter_routing_key = retry_queue_name;
}

-- The TTL is in milliseconds.
abbrev pub retry_args : QueueArgs
retry_args = record {
  message_ttl = some 10000;
  dead_letter_exchange = main_exchange;
  dead_letter_routing_key = main_queue_name;
}

module _ {W : Type 0} (mq : RabbitMqAdapter W) where
  open mq use {channel, now, marshal}

  unfoldable pub setup_queues : Exec W Err
  setup_queues =
      try_err (channel.exchange_declare main_exchange "direct" true)
        (λ e. fail (errorf "failed to declare main exchange" e))
        (try_err (channel.exchange_declare retry_exchange "direct" true)
          (λ e. fail (errorf "failed to declare retry exchange" e))
          (try_err (channel.queue_declare main_queue_name true (some main_args))
            (λ e. fail (errorf "failed to declare main queue" e))
            (try_err (channel.queue_declare retry_queue_name true (some retry_args))
              (λ e. fail (errorf "failed to declare retry queue" e))
              (try_err (channel.queue_declare dlq_queue_name true none)
                (λ e. fail (errorf "failed to declare DLQ" e))
                (try_err (channel.queue_bind main_queue_name main_queue_name main_exchange)
                  (λ e. fail (errorf "failed to bind main queue" e))
                  (try_err (channel.queue_bind retry_queue_name retry_queue_name retry_exchange)
                    (λ e. fail (errorf "failed to bind retry queue" e)) nil))))))

  unfoldable pub publish_message : QueueMessage → Exec W Err
  publish_message msg = elim (marshal msg) [
    | err e ↦ fail (errorf "failed to marshal message" e)
    | ok body ↦ do
      at ← now
      channel.publish main_exchange main_queue_name (record {
        headers = none;
        is_persistent = true;
        content_type = "application/json";
        timestamp = at;
        body = body;
      })
  ]

  unfoldable pub consume_messages : String → Exec W Err
  consume_messages queue_name = channel.consume queue_name false

  -- What is published again for a delivery. No delivery mode is set, so it is not persistent.
  abbrev republish : String → String → Delivery → Exec W Err
  republish exchange key msg = do
    at ← now
    channel.publish exchange key (record {
      headers = some (headers_of msg);
      is_persistent = false;
      content_type = msg.content_type;
      timestamp = at;
      body = msg.body;
    })

  unfoldable pub move_to_dead_letter : Delivery → Exec W Err
  move_to_dead_letter msg = republish "" dlq_queue_name msg

  unfoldable pub move_to_retry_queue : Delivery → Exec W Err
  move_to_retry_queue msg = republish retry_exchange retry_queue_name msg

  unfoldable pub get_dlq_message_count : Exec W (Result ℤ)
  get_dlq_message_count =
      try (channel.queue_inspect dlq_queue_name)
        (λ e. pure (err (errorf "failed to inspect DLQ" e))) (λ n. pure (ok n))

  unfoldable pub close : Exec W (Unit {0})
  close = channel.close_channel >> channel.close_connection >> pure tt

  abbrev pub as_port : Ports.MessageQueue W
  as_port = record {
    publish_message = publish_message;
    consume_messages = consume_messages;
    move_to_dead_letter = move_to_dead_letter;
    move_to_retry_queue = move_to_retry_queue;
    get_dlq_message_count = get_dlq_message_count;
    close = close;
  }

-- `NewMessageQueue`: `dial` connects, and `open_channel` opens the adapter's channel.
unfoldable pub new_message_queue :
    {W : Type 0}
    → Exec W Err
    → Exec W (Result (RabbitMqAdapter W))
    → Exec W Err
    → Exec W (Result (Ports.MessageQueue W))
unfolding setup_queues close
new_message_queue dial open_channel close_connection =
    try_err dial (λ e. pure (err (errorf "failed to connect to RabbitMQ" e)))
      (try open_channel (λ e. close_connection >> pure (err (errorf "failed to open channel" e)))
        λ mq. try_err (setup_queues mq) (λ e. close mq >> pure (err e)) (pure (ok (as_port mq))))
