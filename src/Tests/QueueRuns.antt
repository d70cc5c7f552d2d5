-- ===== src/Tests/QueueRuns.antt =====
-- The theorems on the queue adapter, applied to a broker that keeps what it is told.
use reliable_messaging_syste.Prelude.{
  ◌≡◌, refl, inl, inr, String, true, false, none, some, [], ◌∷◌, ◌++◌, ◌&&◌, Bool, ℤ, zero, suc,
  pos, if◌then◌else◌, arith,
}
use reliable_messaging_syste.Effects.{external, Result, ok, err, returns, Exec}
use reliable_messaging_syste.Models.{ObjectId, Bytes}
use reliable_messaging_syste.Contracts.{
  QueueMessage, main_queue_name, retry_queue_name, dlq_queue_name,
}
use reliable_messaging_syste.Ports.{MessageRepository, Platform}
use reliable_messaging_syste.Sender.Service.{SenderService}
use reliable_messaging_syste.Processor.Service.{ProcessorService}
use reliable_messaging_syste.Adapters.Drivers.{Channel, Publishing}
use reliable_messaging_syste.Adapters.Breaker.Contract.{Reads}
use reliable_messaging_syste.Adapters.MessageQueue.{
  RabbitMqAdapter, setup_queues, publish_message, move_to_dead_letter, move_to_retry_queue, as_port,
}
use reliable_messaging_syste.Adapters.MessageQueue.Contract.{
  Topology, routed, with_exchange, with_queue, with_binding, Waiting, ChannelLaws,
}
use reliable_messaging_syste.Adapters.MessageQueue.Topology.{IsOurs, IsSetUp, setup_queues-IsSetUp}
use reliable_messaging_syste.Adapters.MessageQueue.Routing.{
  AddsTo, published, republished, publications-AddsTo,
}
use reliable_messaging_syste.Adapters.MessageQueue.Handover.{Handover}
use text.Mathlib.Text.{◌==◌ as str_eq}
use text.Mathlib.TextEquality.{eq_iff}
use reliable_messaging_syste.Tests.Simulation.{delivery, message_at, sender, processor}

abbrev pub Broker : Type 0
Broker = Topology × Waiting

abbrev pub topology_of : Broker → Topology
topology_of b = b.0

abbrev pub waiting_of : Broker → Waiting
waiting_of b = b.1

abbrev pub add : String → String → Publishing → Broker → Waiting
add exchange key m b q = if routed b.0 exchange key q then b.1 q ++ m ∷ [] else b.1 q

abbrev pub channel : Channel Broker
channel = record {
  exchange_declare = λ name kind durable b. (returns none, (with_exchange name kind b.0, b.1));
  queue_declare = λ name durable args b. (returns none, (with_queue name args b.0, b.1));
  queue_bind = λ queue key exchange b. (returns none, (with_binding queue key exchange b.0, b.1));
  publish = λ exchange key m b. (returns none, (b.0, add exchange key m b));
  consume = λ queue auto_ack b. (returns none, b);
  queue_inspect = λ queue b. (returns (ok (pos 0)), b);
  close_channel = λ b. (returns none, b);
  close_connection = λ b. (returns none, b);
}

pub channel-ChannelLaws : ChannelLaws topology_of waiting_of channel
channel-ChannelLaws = record {
  exchange_declare_lem = λ name kind durable b. inl refl;
  queue_declare_lem = λ name durable args b. inl refl;
  queue_bind_lem = λ queue key exchange b. inl refl;
  publish_lem = λ exchange key m b. (refl, inr (λ q. refl));
}

-- Ids are written in unary, and one queue message can be encoded.
abbrev pub unary : ObjectId → String
unary zero = ""
unary (suc n) = String.◌∷◌ "a" (unary n)

abbrev pub text_length : String → ObjectId
text_length String.[] = 0
text_length (String.◌∷◌ c s) = suc (text_length s)

pub text_length-unary : (n : ObjectId) → text_length (unary n) ≡ n
text_length-unary zero = refl
text_length-unary (suc n) = omega (arith, text_length-unary n)

abbrev pub queued : QueueMessage
queued = record { id = unary 1; content = "hello"; to = "+905321234567"; retry = pos 0 }

abbrev pub is_zero : ℤ → Bool
is_zero (pos zero) = true
is_zero _ = false

is_zero_lem : (i : ℤ) → is_zero i ≡ true → i ≡ pos 0
is_zero_lem i h = ground arith

abbrev pub is_queued : QueueMessage → Bool
is_queued q =
    str_eq q.id queued.id
    && str_eq q.content queued.content
    && str_eq q.to queued.to
    && is_zero q.retry

pub queued_of_test : (q : QueueMessage) → is_queued q ≡ true → q ≡ queued
queued_of_test q h = ground (
  arith,
  eq_iff q.id queued.id,
  eq_iff q.content queued.content,
  eq_iff q.to queued.to,
  is_zero_lem q.retry,
)

abbrev pub encode : QueueMessage → Result Bytes
encode q = if is_queued q then ok (7 ∷ []) else err (external 3)

abbrev adapter : RabbitMqAdapter Broker
adapter = record { channel = channel; now = λ b. (returns 1000, b); marshal = encode }

abbrev pub fresh_broker : Broker
fresh_broker =
    (record { kind_of = λ e. none; args_of = λ q. none; is_bound = λ e k q. false }, λ q. [])

pub fresh-IsOurs : IsOurs (topology_of fresh_broker)
fresh-IsOurs = record { main_only = λ q h. cc; retry_only = λ q h. cc }

setup_queues-IsSetUp_example : IsSetUp (topology_of (setup_queues adapter fresh_broker).1)
unfolding setup_queues
setup_queues-IsSetUp_example =
    setup_queues-IsSetUp topology_of waiting_of adapter channel-ChannelLaws fresh_broker
      fresh-IsOurs refl

ready-IsSetUp : IsSetUp (topology_of (setup_queues adapter fresh_broker).1)
unfolding setup_queues
ready-IsSetUp =
    setup_queues-IsSetUp topology_of waiting_of adapter channel-ChannelLaws fresh_broker
      fresh-IsOurs refl

clock_topology : Reads topology_of adapter.now
clock_topology = record { unchanged = λ b. refl }

clock_waiting : Reads waiting_of adapter.now
clock_waiting = record { unchanged = λ b. refl }

publications-AddsTo_example :
    let b : Broker = (setup_queues adapter fresh_broker).1 in
    AddsTo topology_of waiting_of adapter channel-ChannelLaws clock_topology clock_waiting
      main_queue_name
      (published (7 ∷ []))
      b
      (publish_message adapter queued b).1
    × AddsTo topology_of waiting_of adapter channel-ChannelLaws clock_topology clock_waiting
        dlq_queue_name
        (republished delivery)
        b
        (move_to_dead_letter adapter delivery b).1
    × AddsTo topology_of waiting_of adapter channel-ChannelLaws clock_topology clock_waiting
        retry_queue_name
        (republished delivery)
        b
        (move_to_retry_queue adapter delivery b).1
publications-AddsTo_example =
    publications-AddsTo topology_of waiting_of adapter channel-ChannelLaws clock_topology
      clock_waiting queued (7 ∷ []) delivery (setup_queues adapter fresh_broker).1 ready-IsSetUp
      refl

abbrev platform : Platform Broker
platform = record {
  now = λ b. (returns 1000, b);
  ack = λ d multiple b. (returns none, b);
  nack = λ d multiple requeue b. (returns none, b);
  marshal = encode;
  unmarshal = λ body. ok queued;
  hex = unary;
  object_id_from_hex = λ text. ok (text_length text);
}

abbrev idle : {A : Type 0} → A → Exec Broker A
idle a b = (returns a, b)

abbrev repository : MessageRepository Broker
repository = record {
  find_unsent_messages = λ n. idle (ok []);
  update_status = λ id st. idle none;
  increment_retry_count = λ id. idle none;
  get_by_id = λ id. idle (ok (some (message_at 1 (pos 0))));
  create_message = λ m. idle (none, m);
  list_messages = idle (ok []);
  find_stale_processing_messages = λ d. idle (ok []);
}

abbrev sender_service : SenderService Broker
sender_service = record {
  sender = sender;
  repository = repository;
  queue = as_port adapter;
  platform = platform;
}

abbrev worker : ProcessorService Broker
worker = record {
  processor = processor;
  repository = repository;
  queue = as_port adapter;
  idempotency_service = record {
    is_processed = λ id. idle (ok false);
    mark_as_processed = λ id. idle none;
    store_webhook_message_id = λ id w ttl. idle none;
  };
  webhook_client = record { send_message = λ content to. idle (ok none) };
  platform = platform;
}

abbrev pub handover : Handover
handover = record { tag = 1; headers = none }
