-- ===== src/System/Liveness/Implementation.antt =====
-- Both services over the MongoDB repository, the RabbitMQ queue and the Redis inbox, while the
-- libraries under them are available.
use mathlib.Core.Path.{subst}
use reliable_messaging_syste.Prelude.{◌≡◌, ◌≢◌, sym, String, Option, false, [], ◌∷◌, ℤ, ℕ, arith}
use reliable_messaging_syste.Effects.{ok, panics}
use reliable_messaging_syste.Models.{ObjectId, Bytes, Message, processing}
use reliable_messaging_syste.Contracts.{QueueMessage, Delivery}
use reliable_messaging_syste.Store.Evolution.{Docs}
use reliable_messaging_syste.Store.Keeps.{evolution}
use reliable_messaging_syste.Adapters.Drivers.{Filter, id_is, Update}
use reliable_messaging_syste.Adapters.Breaker.Contract.{Reads, IsClosed-BreakerLaws}
use reliable_messaging_syste.Adapters.MessageRepository
use reliable_messaging_syste.Adapters.MessageRepository.{MongoMessageRepository}
use reliable_messaging_syste.Adapters.MessageRepository.Changes.{
  DriverKeeps, changes-RepositoryLaws,
}
use reliable_messaging_syste.Adapters.MessageRepository.Writes.{driver-DriverKeeps}
use reliable_messaging_syste.Adapters.MessageRepository.Finding.{FindLaws}
use reliable_messaging_syste.Adapters.MessageQueue
use reliable_messaging_syste.Adapters.MessageQueue.{RabbitMqAdapter}
use reliable_messaging_syste.Adapters.MessageQueue.Contract.{Topology, Waiting}
use reliable_messaging_syste.Adapters.IdempotencyService as RedisInbox
use reliable_messaging_syste.Adapters.IdempotencyService.{
  RedisIdempotencyService, inbox_key, says_processed,
}
use reliable_messaging_syste.Adapters.IdempotencyService.Contract.{Keys}
use reliable_messaging_syste.System.{Services}
use reliable_messaging_syste.System.Stores.{StoreLaws}
use reliable_messaging_syste.System.Liveness.{Advances, advance, RoundLaws, AnswerLaws}
use reliable_messaging_syste.System.Liveness.Adapters.{
  AvailableLaws, update_status_returns, as_port-RepositoryAnswers,
}
use reliable_messaging_syste.System.Liveness.Queue.{
  broker_of, Ready, aside-advances, Reads-advances, BrokerAvailable, publish_message-advances,
  publish_message-ne-panics, publish_message-IsWaiting,
}
use reliable_messaging_syste.System.Liveness.Inbox.{
  InboxAvailable, is_processed_docs, mark_as_processed_docs, store_webhook_message_id-ne-panics,
  store_webhook_message_id_docs,
}
use reliable_messaging_syste.System.Liveness.Completion.{EncodingLaws}

abbrev pub over_libraries :
    {W : Type 0}
    → MongoMessageRepository W
    → RabbitMqAdapter W
    → RedisIdempotencyService W
    → Services W
    → Services W
over_libraries mongo mq inbox s = record {
  sender = record s.sender {
    repository = MessageRepository.as_port mongo;
    queue = MessageQueue.as_port mq;
  };
  worker = record s.worker {
    repository = MessageRepository.as_port mongo;
    queue = MessageQueue.as_port mq;
    idempotency_service = RedisInbox.as_port inbox;
  };
}

-- The driver of the collection and its clock leave the view alone.
pub record LeavesAlone {W V : Type 0} (view : W → V) (r : MongoMessageRepository W) : Type 0 where
  pub find_one_lem : (f : Filter) → Reads view (r.collection.find_one f)
  pub find_lem : (f : Filter) (limit : Option ℤ) → Reads view (r.collection.find f limit)
  pub all_lem : (cursor : ℕ) → Reads view (r.collection.all cursor)
  pub close_cursor_lem : (cursor : ℕ) → Reads view (r.collection.close_cursor cursor)
  pub update_one_lem : (f : Filter) (u : Update) → Reads view (r.collection.update_one f u)
  pub insert_one_lem : (m : Message) → Reads view (r.collection.insert_one m)
  pub now_lem : Reads view r.now

-- The collection, the broker and Redis are available, and each leaves the others alone. So do the
-- clocks, an acknowledgement and the call of the webhook, as far as the worker relies on it. What is
-- encoded is decoded, and the text of an id is read as the id.
pub record LibraryLaws {W : Type 0} (topology : W → Topology) (docs : W → Docs)
    (waiting : W → Waiting) (keys : W → Keys) (mongo : MongoMessageRepository W)
    (mq : RabbitMqAdapter W) (inbox : RedisIdempotencyService W) (s : Services W) : Type 1 where
  pub collection : AvailableLaws docs mongo
  pub finds : FindLaws docs mongo.collection
  pub collection_broker : LeavesAlone (broker_of topology docs waiting) mongo
  pub collection_keys : LeavesAlone keys mongo
  pub broker : BrokerAvailable topology docs waiting mq
  pub redis : InboxAvailable keys docs inbox
  pub sender_clock_docs : Reads docs s.sender.platform.now
  pub sender_clock_broker : Reads (broker_of topology docs waiting) s.sender.platform.now
  pub ack_ends : (d : Delivery) (w : W) → (s.worker.platform.ack d false w).0 ≢ panics
  pub ack_docs : (d : Delivery) → Reads docs (s.worker.platform.ack d false)
  pub ack_keys : (d : Delivery) → Reads keys (s.worker.platform.ack d false)
  pub now_ends : (w : W) → (s.worker.platform.now w).0 ≢ panics
  pub now_docs : Reads docs s.worker.platform.now
  pub send_message_docs :
      (content to : String) → Reads docs (s.worker.webhook_client.send_message content to)
  pub decode_lem :
      (q : QueueMessage) (b : Bytes) → mq.marshal q ≡ ok b → s.worker.platform.unmarshal b ≡ ok q
  pub hex_lem :
      (id : ObjectId) → s.worker.platform.object_id_from_hex (s.sender.platform.hex id) ≡ ok id

module _ {W : Type 0} (topology : W → Topology) (docs : W → Docs) (waiting : W → Waiting)
    (keys : W → Keys) (mongo : MongoMessageRepository W) (mq : RabbitMqAdapter W)
    (inbox : RedisIdempotencyService W) (s : Services W)
    (laws : LibraryLaws topology docs waiting keys mongo mq inbox s) where
  abbrev pub both : Services W
  both = over_libraries mongo mq inbox s

  abbrev pub IsReady : W → Type 0
  IsReady = Ready topology docs waiting

  collection-DriverKeeps : DriverKeeps (advance docs waiting IsReady) mongo
  collection-DriverKeeps =
      let evolves : DriverKeeps (evolution docs) mongo =
        driver-DriverKeeps docs mongo laws.collection.driver
          (IsClosed-BreakerLaws docs mongo.cb laws.collection.closed) laws.collection.clock in
      let aside = laws.collection_broker in
      record {
        find_one_lem = λ f.
            aside-advances topology docs waiting (evolves.find_one_lem f) (aside.find_one_lem f);
        find_lem = λ f limit.
            aside-advances topology docs waiting (evolves.find_lem f limit)
              (aside.find_lem f limit);
        all_lem = λ c. aside-advances topology docs waiting (evolves.all_lem c) (aside.all_lem c);
        close_cursor_lem = λ c.
            aside-advances topology docs waiting (evolves.close_cursor_lem c)
              (aside.close_cursor_lem c);
        update_one_lem = λ id u later.
            aside-advances topology docs waiting (evolves.update_one_lem id u later)
              (aside.update_one_lem (id_is id ∷ []) u);
        insert_one_lem = λ m.
            aside-advances topology docs waiting (evolves.insert_one_lem m)
              (aside.insert_one_lem m);
        now_lem = Reads-advances topology docs waiting laws.collection.clock aside.now_lem;
        execute_lem = λ A m h. record {
          keeps = λ w.
              subst (λ x. Advances docs waiting IsReady w x.1)
                (sym (laws.collection.closed.execute_lem m w)) (h.keeps w);
        };
      }

  pub both-RoundLaws : RoundLaws docs waiting IsReady mq.marshal both.sender
  both-RoundLaws = record {
    repository = changes-RepositoryLaws (advance docs waiting IsReady) mongo collection-DriverKeeps;
    clock = Reads-advances topology docs waiting laws.sender_clock_docs laws.sender_clock_broker;
    update_status_lem = λ id w p.
        absurd
          (ground (arith, p, update_status_returns docs mongo laws.collection id processing w));
    publish_keeps = publish_message-advances topology docs waiting mq laws.broker;
    publish_ends = publish_message-ne-panics topology docs waiting mq laws.broker;
    publish_lem = publish_message-IsWaiting topology docs waiting mq laws.broker;
  }

  pub both-AnswerLaws : AnswerLaws docs both.worker
  both-AnswerLaws = record {
    repository = as_port-RepositoryAnswers docs mongo laws.collection;
    ack_lem = laws.ack_ends;
    ack_docs = laws.ack_docs;
    is_processed_docs = is_processed_docs keys docs inbox laws.redis;
    now_lem = laws.now_ends;
    now_docs = laws.now_docs;
    send_message_docs = laws.send_message_docs;
    store_webhook_message_id_lem = store_webhook_message_id-ne-panics keys docs inbox laws.redis;
    store_webhook_message_id_docs = store_webhook_message_id_docs keys docs inbox laws.redis;
    mark_as_processed_docs = mark_as_processed_docs keys docs inbox laws.redis;
  }

  pub both-EncodingLaws : EncodingLaws mq.marshal both
  both-EncodingLaws = record { decode_lem = laws.decode_lem; hex_lem = λ m. laws.hex_lem m.id }

  pub both-StoreLaws : StoreLaws keys docs inbox mongo both.worker
  both-StoreLaws = record {
    redis = laws.redis.redis;
    inbox_breaker = IsClosed-BreakerLaws keys inbox.cb laws.redis.closed;
    codec = laws.redis.codec;
    unix_time = laws.redis.clock;
    driver = laws.collection.driver;
    breaker = IsClosed-BreakerLaws docs mongo.cb laws.collection.closed;
    clock = laws.collection.clock;
    breaker_keys = IsClosed-BreakerLaws keys mongo.cb laws.collection.closed;
    clock_keys = laws.collection_keys.now_lem;
    update_keys = laws.collection_keys.update_one_lem;
    ack_keys = laws.ack_keys;
  }
