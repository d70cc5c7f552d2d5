-- ===== src/Tests/SystemRuns.antt =====
-- The worker over a collection and a Redis that work, in a world that holds the keys and the
-- messages.
use reliable_messaging_syste.Prelude.{
  ◌≡◌, ◌⊎◌, refl, inl, none, some, [], ◌∷◌, pos, ◌==◌, if◌then◌else◌, arith,
}
use reliable_messaging_syste.Effects.{ok, Exec, returns}
use reliable_messaging_syste.Models.{Message, sent}
use reliable_messaging_syste.Contracts.{QueueMessage}
use reliable_messaging_syste.Store.Evolution.{Docs}
use reliable_messaging_syste.Processor.Service.{
  ProcessorService, process_message, handle_message_processing, handle_queue_message,
  deliver_message, record_webhook_response,
}
use reliable_messaging_syste.Adapters.Drivers.{Collection}
use reliable_messaging_syste.Adapters.Breaker.Contract.{Reads}
use reliable_messaging_syste.Adapters.MessageRepository
use reliable_messaging_syste.Adapters.MessageRepository.{MongoMessageRepository}
use reliable_messaging_syste.Adapters.MessageRepository.Contract.{CollectionLaws}
use reliable_messaging_syste.Adapters.IdempotencyService as RedisInbox
use reliable_messaging_syste.Adapters.IdempotencyService.{RedisIdempotencyService}
use reliable_messaging_syste.Adapters.IdempotencyService.Contract.{Keys, RedisLaws}
use reliable_messaging_syste.System.Stores.{StoreLaws, Marked}
use reliable_messaging_syste.System.Recording.{process_message-Recorded}
use reliable_messaging_syste.Tests.Simulation.{processor, delivery, message_at}
use reliable_messaging_syste.Tests.Stores.{
  closed_breaker, closed_breaker-BreakerLaws, same_docs, collection, collection-CollectionLaws,
  redis, redis-RedisLaws, redis-CodecLaws,
}

abbrev World : Type 0
World = Keys × Docs

abbrev keys_of : World → Keys
keys_of w = w.0

abbrev docs_of : World → Docs
docs_of w = w.1

abbrev on_keys : {A : Type 0} → Exec Keys A → Exec World A
on_keys m w = let (r, k) = m w.0 in (r, (k, w.1))

abbrev on_docs : {A : Type 0} → Exec Docs A → Exec World A
on_docs m w = let (r, d) = m w.1 in (r, (w.0, d))

on_docs-Reads : {A : Type 0} {m : Exec Docs A} → Reads same_docs m → Reads docs_of (on_docs m)
on_docs-Reads h = record { unchanged = λ w. h.unchanged w.1 }

abbrev lifted : Collection World
lifted = record {
  insert_one = λ m. on_docs (collection.insert_one m);
  find_one = λ f. on_docs (collection.find_one f);
  find = λ f limit. on_docs (collection.find f limit);
  all = λ c. on_docs (collection.all c);
  close_cursor = λ c. on_docs (collection.close_cursor c);
  update_one = λ f u. on_docs (collection.update_one f u);
}

lifted-CollectionLaws : CollectionLaws docs_of lifted
lifted-CollectionLaws = record {
  find_one_lem = λ f. on_docs-Reads (collection-CollectionLaws.find_one_lem f);
  find_lem = λ f limit. on_docs-Reads (collection-CollectionLaws.find_lem f limit);
  all_lem = λ c. on_docs-Reads (collection-CollectionLaws.all_lem c);
  close_cursor_lem = λ c. on_docs-Reads (collection-CollectionLaws.close_cursor_lem c);
  update_one_lem = λ id u w. collection-CollectionLaws.update_one_lem id u w.1;
  insert_one_lem = λ m w. collection-CollectionLaws.insert_one_lem m w.1;
}

abbrev mongo : MongoMessageRepository World
mongo = record { collection = lifted; cb = closed_breaker; now = λ w. (returns 1000, w) }

abbrev inbox : RedisIdempotencyService World
inbox = record {
  client = record {
    get = λ k. on_keys (redis.client.get k);
    set = λ k v ttl. on_keys (redis.client.set k v ttl);
  };
  cb = closed_breaker;
  codec = redis.codec;
  unix_time = λ w. (returns 1000, w);
}

inbox-RedisLaws : RedisLaws keys_of inbox.client
inbox-RedisLaws = record {
  get_reads = λ k. record { unchanged = λ w. refl };
  get_lem = λ k v w e. redis-RedisLaws.get_lem k v w.0 e;
  get_found_lem = λ k v w e. redis-RedisLaws.get_found_lem k v w.0 e;
  set_lem = λ k v ttl w. inl refl;
}

abbrev queued : QueueMessage
queued = record { id = "01"; content = "hello"; to = ""; retry = pos 0 }

abbrev idle : {A : Type 0} → A → Exec World A
idle a w = (returns a, w)

abbrev worker : ProcessorService World
worker = record {
  processor = processor;
  repository = MessageRepository.as_port mongo;
  queue = record {
    publish_message = λ m. idle none;
    consume_messages = λ q. idle none;
    move_to_dead_letter = λ d. idle none;
    move_to_retry_queue = λ d. idle none;
    get_dlq_message_count = idle (ok (pos 0));
    close = idle tt;
  };
  idempotency_service = RedisInbox.as_port inbox;
  webhook_client = record {
    send_message = λ c to. idle (ok (some (record { message = "ok"; message_id = "w1" })));
  };
  platform = record {
    now = idle 1000;
    ack = λ d multiple. idle none;
    nack = λ d multiple requeue. idle none;
    marshal = λ q. ok (7 ∷ []);
    unmarshal = λ b. ok queued;
    hex = λ id. "01";
    object_id_from_hex = λ text. ok 1;
  };
}

abbrev start : World
start = (λ k. none, λ id. if id == 1 then some (message_at 1 (pos 0)) else none)

abbrev sent_message : Message
sent_message = record (message_at 1 (pos 0)) { status = sent; updated_at = 0 }

worker-StoreLaws : StoreLaws keys_of docs_of inbox mongo worker
worker-StoreLaws = record {
  redis = inbox-RedisLaws;
  inbox_breaker = closed_breaker-BreakerLaws keys_of;
  codec = redis-CodecLaws;
  unix_time = record { unchanged = λ w. refl };
  driver = lifted-CollectionLaws;
  breaker = closed_breaker-BreakerLaws docs_of;
  clock = record { unchanged = λ w. refl };
  breaker_keys = closed_breaker-BreakerLaws keys_of;
  clock_keys = record { unchanged = λ w. refl };
  update_keys = λ f u. record { unchanged = λ w. refl };
  ack_keys = λ d. record { unchanged = λ w. refl };
}

abbrev IsMarkedIn : World → Type 0
IsMarkedIn = Marked keys_of docs_of inbox mongo worker worker-StoreLaws "01"

process_message-Recorded_example :
    IsMarkedIn (process_message worker delivery start).1
    × (IsMarkedIn start ⊎ (sent_message.status ≡ sent))
unfolding process_message handle_message_processing handle_queue_message deliver_message
    record_webhook_response RedisInbox.is_processed RedisInbox.mark_as_processed
    RedisInbox.store_webhook_message_id MessageRepository.update_status MessageRepository.get_by_id
process_message-Recorded_example =
    process_message-Recorded keys_of docs_of inbox mongo worker worker-StoreLaws delivery queued 1
      sent_message start (omega arith) refl refl refl refl
