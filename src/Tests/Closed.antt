-- ===== src/Tests/Closed.antt =====
-- Both services over one collection and one broker that work, in a world with a Redis beside them.
use reliable_messaging_syste.Prelude.{◌≡◌, refl, ap, inl, inr, false, none, [], ◌∷◌, arith}
use reliable_messaging_syste.Effects.{ok, Exec, returns}
use reliable_messaging_syste.Models.{Bytes}
use reliable_messaging_syste.Contracts.{Delivery}
use reliable_messaging_syste.Ports.{Platform}
use reliable_messaging_syste.Store.Evolution.{Docs}
use reliable_messaging_syste.Store.Keeps.{Keeps}
use reliable_messaging_syste.Adapters.MessageRepository
use reliable_messaging_syste.Adapters.MessageRepository.{MongoMessageRepository}
use reliable_messaging_syste.Adapters.MessageQueue
use reliable_messaging_syste.Adapters.MessageQueue.{RabbitMqAdapter}
use reliable_messaging_syste.Adapters.MessageQueue.Contract.{Topology, Waiting}
use reliable_messaging_syste.Adapters.MessageQueue.Routing.{published}
use reliable_messaging_syste.Adapters.MessageQueue.Handover.{handed_out}
use reliable_messaging_syste.System.{Services, round, perform}
use reliable_messaging_syste.System.Queues.{Nothing, growth, QueueLaws}
use reliable_messaging_syste.System.Queues.Implementation.{
  over_adapters, AdapterLaws, over_adapters-QueueLaws,
}
use reliable_messaging_syste.Adapters.MessageQueue.Topology.{set_up}
use reliable_messaging_syste.Adapters.IdempotencyService.{RedisIdempotencyService}
use reliable_messaging_syste.Adapters.IdempotencyService.Contract.{Keys}
use reliable_messaging_syste.Tests.Simulation.{sender, processor}
use reliable_messaging_syste.Tests.Stores.{
  closed_breaker, closed_breaker-BreakerLaws, collection-CollectionLaws, redis,
}
use reliable_messaging_syste.Tests.Finds.{finding, finding-FindLaws, with_unsent}
use reliable_messaging_syste.Tests.QueueRuns.{
  Broker, topology_of, waiting_of, channel, unary, text_length, text_length-unary, queued,
  queued_of_test, encode, handover, fresh_broker,
}

abbrev pub World : Type 0
World = Docs × Broker × Keys

abbrev pub docs_in : World → Docs
docs_in w = w.0

abbrev pub topology_in : World → Topology
topology_in w = topology_of w.1

abbrev pub waiting_in : World → Waiting
waiting_in w = waiting_of w.1

abbrev on_docs : {A : Type 0} → Exec Docs A → Exec World A
on_docs m w = let (r, d) = m w.0 in (r, (d, w.1, w.2))

abbrev on_broker : {A : Type 0} → Exec Broker A → Exec World A
on_broker m w = let (r, b) = m w.1 in (r, (w.0, b, w.2))

abbrev on_keys : {A : Type 0} → Exec Keys A → Exec World A
on_keys m w = let (r, k) = m w.2 in (r, (w.0, w.1, k))

abbrev pub keys_in : World → Keys
keys_in w = w.2

abbrev pub idle : {A : Type 0} → A → Exec World A
idle a w = (returns a, w)

abbrev pub mongo : MongoMessageRepository World
mongo = record {
  collection = record {
    insert_one = λ m. on_docs (finding.insert_one m);
    find_one = λ f. on_docs (finding.find_one f);
    find = λ f limit. on_docs (finding.find f limit);
    all = λ c. on_docs (finding.all c);
    close_cursor = λ c. on_docs (finding.close_cursor c);
    update_one = λ f u. on_docs (finding.update_one f u);
  };
  cb = closed_breaker;
  now = idle 1000;
}

abbrev pub inbox : RedisIdempotencyService World
inbox = record {
  client = record {
    get = λ k. on_keys (redis.client.get k);
    set = λ k v ttl. on_keys (redis.client.set k v ttl);
  };
  cb = closed_breaker;
  codec = redis.codec;
  unix_time = idle 1000;
}

abbrev pub mq : RabbitMqAdapter World
mq = record {
  channel = record {
    exchange_declare = λ name kind durable. on_broker (channel.exchange_declare name kind durable);
    queue_declare = λ name durable args. on_broker (channel.queue_declare name durable args);
    queue_bind = λ queue key exchange. on_broker (channel.queue_bind queue key exchange);
    publish = λ exchange key m. on_broker (channel.publish exchange key m);
    consume = λ queue auto_ack. on_broker (channel.consume queue auto_ack);
    queue_inspect = λ queue. on_broker (channel.queue_inspect queue);
    close_channel = on_broker channel.close_channel;
    close_connection = on_broker channel.close_connection;
  };
  now = idle 1000;
  marshal = encode;
}

abbrev platform : Platform World
platform = record {
  now = idle 1000;
  ack = λ d multiple. idle none;
  nack = λ d multiple requeue. idle none;
  marshal = encode;
  unmarshal = λ body. ok queued;
  hex = unary;
  object_id_from_hex = λ text. ok (text_length text);
}

abbrev pub bare : Services World
bare = record {
  sender = record {
    sender = sender;
    repository = MessageRepository.as_port mongo;
    queue = MessageQueue.as_port mq;
    platform = platform;
  };
  worker = record {
    processor = processor;
    repository = MessageRepository.as_port mongo;
    queue = MessageQueue.as_port mq;
    idempotency_service = record {
      is_processed = λ id. idle (ok false);
      mark_as_processed = λ id. idle none;
      store_webhook_message_id = λ id w ttl. idle none;
    };
    webhook_client = record { send_message = λ content to. idle (ok none) };
    platform = platform;
  };
}

abbrev pub services : Services World
services = over_adapters mongo mq bare

idle-Keeps :
    {A : Type 0} (New : Bytes → Type 0) (a : A) → Keeps (growth docs_in waiting_in New) (idle a)
idle-Keeps New a = record { keeps = λ w. (growth docs_in waiting_in New).refl w }

pub adapters-AdapterLaws : AdapterLaws topology_in docs_in waiting_in mongo mq bare
adapters-AdapterLaws = record {
  driver = record {
    find_one_lem = λ f. record { unchanged = λ w. refl };
    find_lem = λ f limit. record { unchanged = λ w. refl };
    all_lem = λ c. record { unchanged = λ w. refl };
    close_cursor_lem = λ c. record { unchanged = λ w. refl };
    update_one_lem = λ id u w. collection-CollectionLaws.update_one_lem id u w.0;
    insert_one_lem = λ m w. collection-CollectionLaws.insert_one_lem m w.0;
  };
  finds = record {
    found_lem = λ f limit w cursor ms e h. finding-FindLaws.found_lem f limit w.0 cursor ms e h;
  };
  breaker = closed_breaker-BreakerLaws _;
  clock = record { unchanged = λ w. refl };
  clock_aside = record { unchanged = λ w. refl };
  find_one_aside = λ f. record { unchanged = λ w. refl };
  find_aside = λ f limit. record { unchanged = λ w. refl };
  all_aside = λ c. record { unchanged = λ w. refl };
  close_cursor_aside = λ c. record { unchanged = λ w. refl };
  update_one_aside = λ f u. record { unchanged = λ w. refl };
  insert_one_aside = λ m. record { unchanged = λ w. refl };
  broker = record {
    exchange_declare_lem = λ name kind durable w. inl refl;
    queue_declare_lem = λ name durable args w. inl refl;
    queue_bind_lem = λ queue key exchange w. inl refl;
    publish_lem = λ exchange key m w. (refl, inr (λ q. refl));
  };
  publish_docs = λ exchange key m. record { unchanged = λ w. refl };
  stamp = idle-Keeps Nothing 1000;
  sender_clock = idle-Keeps Nothing 1000;
  is_processed_lem = λ id. idle-Keeps Nothing (ok false);
  mark_as_processed_lem = λ id. idle-Keeps Nothing none;
  store_webhook_message_id_lem = λ id text ttl. idle-Keeps Nothing none;
  send_message_lem = λ content to. idle-Keeps Nothing (ok none);
  now_lem = idle-Keeps Nothing 1000;
  ack_lem = λ d multiple. idle-Keeps Nothing none;
  nack_lem = λ d multiple requeue. idle-Keeps (λ b. b ≡ d.body) none;
  body_lem = λ q b h. ground (arith, queued_of_test q);
  marshal_lem = λ q b h. ground (arith, queued_of_test q);
  sender_hex = λ id. ap ok (text_length-unary id);
  worker_hex = λ id. ap ok (text_length-unary id);
}

pub services-QueueLaws : QueueLaws docs_in waiting_in services
services-QueueLaws =
    over_adapters-QueueLaws topology_in docs_in waiting_in mongo mq bare adapters-AdapterLaws

-- One message is stored and unsent, the queues are set up, and neither a message nor a key is there.
abbrev pub start : World
start = (with_unsent, (set_up (topology_of fresh_broker), λ q. []), λ k. none)

abbrev pub after_round : World
after_round = perform services round start

abbrev pub handed : Delivery
handed = handed_out handover (published (7 ∷ []) 1000)
