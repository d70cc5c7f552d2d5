-- ===== src/System/Queues/Implementation.antt =====
-- The MongoDB repository and the RabbitMQ queue keep the queue laws.
use reliable_messaging_syste.Prelude.{
  ◌≡◌, inl, inr, arith, List, String, Bool, Option, [], ◌∷◌, ℤ, ℕ, All, All-of_All,
}
use reliable_messaging_syste.Effects.{ok, returns, Outcome-cases}
use reliable_messaging_syste.Models.{ObjectId, Duration, Bytes, Message}
use reliable_messaging_syste.Contracts.{QueueMessage, Delivery}
use reliable_messaging_syste.Store.Evolution.{Docs}
use reliable_messaging_syste.Store.Keeps.{Keeps, evolution}
use reliable_messaging_syste.Store.Laws.{RepositoryLaws}
use reliable_messaging_syste.Adapters.Drivers.{Publishing, Filter, id_is, Update}
use reliable_messaging_syste.Adapters.Breaker.Contract.{Reads, BreakerLaws}
use reliable_messaging_syste.Adapters.MessageQueue
use reliable_messaging_syste.Adapters.MessageQueue.{RabbitMqAdapter}
use reliable_messaging_syste.Adapters.MessageQueue.Contract.{Topology, Waiting, ChannelLaws}
use reliable_messaging_syste.Adapters.MessageRepository
use reliable_messaging_syste.Adapters.MessageRepository.{MongoMessageRepository}
use reliable_messaging_syste.Adapters.MessageRepository.Contract.{CollectionLaws}
use reliable_messaging_syste.Adapters.MessageRepository.Changes.{
  DriverKeeps, changes-RepositoryLaws,
}
use reliable_messaging_syste.Adapters.MessageRepository.Writes.{driver-DriverKeeps}
use reliable_messaging_syste.Adapters.MessageRepository.Finding.{
  FindLaws, find_unsent_messages-IsFound, find_stale_processing_messages-IsFound,
}
use reliable_messaging_syste.System.{Services}
use reliable_messaging_syste.System.Queues.{Nothing, growth, IsStored, QueueLaws}
use reliable_messaging_syste.System.Queues.Adapters.{
  aside-Keeps, Reads-Keeps, stores_of, execute-Keeps, docs-BreakerLaws, move_to_dead_letter-Keeps,
  move_to_retry_queue-Keeps, publish_message-Keeps,
}

-- Both services over the same collection and the same broker.
abbrev pub over_adapters :
    {W : Type 0} → MongoMessageRepository W → RabbitMqAdapter W → Services W → Services W
over_adapters mongo mq s = record {
  sender = record s.sender {
    repository = MessageRepository.as_port mongo;
    queue = MessageQueue.as_port mq;
  };
  worker = record s.worker {
    repository = MessageRepository.as_port mongo;
    queue = MessageQueue.as_port mq;
  };
}

-- The collection, the breaker, the broker and the clocks keep their contracts, the collection leaves
-- the queues alone and a publication the messages, the other calls of the services add no body to a
-- queue but that of a delivery that is returned, and the encodings are faithful.
pub record AdapterLaws {W : Type 0} (topology : W → Topology) (docs : W → Docs)
    (waiting : W → Waiting) (mongo : MongoMessageRepository W) (mq : RabbitMqAdapter W)
    (s : Services W) : Type 1 where
  pub driver : CollectionLaws docs mongo.collection
  pub finds : FindLaws docs mongo.collection
  pub breaker : BreakerLaws (stores_of docs waiting) mongo.cb
  pub clock : Reads docs mongo.now
  pub clock_aside : Reads waiting mongo.now
  pub find_one_aside : (f : Filter) → Reads waiting (mongo.collection.find_one f)
  pub find_aside : (f : Filter) (limit : Option ℤ) → Reads waiting (mongo.collection.find f limit)
  pub all_aside : (cursor : ℕ) → Reads waiting (mongo.collection.all cursor)
  pub close_cursor_aside : (cursor : ℕ) → Reads waiting (mongo.collection.close_cursor cursor)
  pub update_one_aside : (f : Filter) (u : Update) → Reads waiting (mongo.collection.update_one f u)
  pub insert_one_aside : (m : Message) → Reads waiting (mongo.collection.insert_one m)
  pub broker : ChannelLaws topology waiting mq.channel
  pub publish_docs :
      (exchange key : String) (m : Publishing) → Reads docs (mq.channel.publish exchange key m)
  pub stamp : Keeps (growth docs waiting Nothing) mq.now
  pub sender_clock : Keeps (growth docs waiting Nothing) s.sender.platform.now
  pub is_processed_lem :
      (id : String)
      → Keeps (growth docs waiting Nothing) (s.worker.idempotency_service.is_processed id)
  pub mark_as_processed_lem :
      (id : String)
      → Keeps (growth docs waiting Nothing) (s.worker.idempotency_service.mark_as_processed id)
  pub store_webhook_message_id_lem :
      (id text : String) (ttl : Duration)
      → Keeps
          (growth docs waiting Nothing)
          (s.worker.idempotency_service.store_webhook_message_id id text ttl)
  pub send_message_lem :
      (content to : String)
      → Keeps (growth docs waiting Nothing) (s.worker.webhook_client.send_message content to)
  pub now_lem : Keeps (growth docs waiting Nothing) s.worker.platform.now
  pub ack_lem :
      (d : Delivery) (multiple : Bool)
      → Keeps (growth docs waiting Nothing) (s.worker.platform.ack d multiple)
  pub nack_lem :
      (d : Delivery) (multiple requeue : Bool)
      → Keeps (growth docs waiting (λ b. b ≡ d.body)) (s.worker.platform.nack d multiple requeue)
  pub body_lem :
      (q : QueueMessage) (b : Bytes) → mq.marshal q ≡ ok b → s.worker.platform.unmarshal b ≡ ok q
  pub marshal_lem :
      (q : QueueMessage) (b : Bytes)
      → s.worker.platform.marshal q ≡ ok b
      → s.worker.platform.unmarshal b ≡ ok q
  pub sender_hex :
      (id : ObjectId) → s.worker.platform.object_id_from_hex (s.sender.platform.hex id) ≡ ok id
  pub worker_hex :
      (id : ObjectId) → s.worker.platform.object_id_from_hex (s.worker.platform.hex id) ≡ ok id

module _ {W : Type 0} (topology : W → Topology) (docs : W → Docs) (waiting : W → Waiting)
    (mongo : MongoMessageRepository W) (mq : RabbitMqAdapter W) (s : Services W)
    (laws : AdapterLaws topology docs waiting mongo mq s) where
  open laws use {driver, finds, breaker, clock, broker, publish_docs, stamp}

  collection-DriverKeeps : DriverKeeps (growth docs waiting Nothing) mongo
  collection-DriverKeeps =
      let evolves : DriverKeeps (evolution docs) mongo =
        driver-DriverKeeps docs mongo driver (docs-BreakerLaws docs waiting mongo breaker) clock in
      record {
        find_one_lem =
            λ f. aside-Keeps docs waiting (evolves.find_one_lem f) (laws.find_one_aside f);
        find_lem = λ f limit.
            aside-Keeps docs waiting (evolves.find_lem f limit) (laws.find_aside f limit);
        all_lem = λ c. aside-Keeps docs waiting (evolves.all_lem c) (laws.all_aside c);
        close_cursor_lem =
            λ c. aside-Keeps docs waiting (evolves.close_cursor_lem c) (laws.close_cursor_aside c);
        update_one_lem = λ id u later.
            aside-Keeps docs waiting (evolves.update_one_lem id u later)
              (laws.update_one_aside (id_is id ∷ []) u);
        insert_one_lem =
            λ m. aside-Keeps docs waiting (evolves.insert_one_lem m) (laws.insert_one_aside m);
        now_lem = Reads-Keeps docs waiting clock laws.clock_aside;
        execute_lem = execute-Keeps docs waiting mongo breaker;
      }

  repository-RepositoryLaws :
      RepositoryLaws (growth docs waiting Nothing) (MessageRepository.as_port mongo)
  repository-RepositoryLaws =
      changes-RepositoryLaws (growth docs waiting Nothing) mongo collection-DriverKeeps

  unsent-IsStored :
      (n : ℤ) (w : W) (ms : List Message)
      → (MessageRepository.find_unsent_messages mongo n w).0 ≡ returns (ok ms)
      → All (IsStored docs waiting w) ms
  unsent-IsStored n w ms h =
      All-of_All ms (λ m found. found.0)
        (find_unsent_messages-IsFound docs mongo finds (docs-BreakerLaws docs waiting mongo breaker)
          n w ms h).0

  stale-IsStored :
      (age : Duration) (w : W) (ms : List Message)
      → (MessageRepository.find_stale_processing_messages mongo age w).0 ≡ returns (ok ms)
      → All (IsStored docs waiting w) ms
  unfolding MessageRepository.find_stale_processing_messages
  stale-IsStored age w ms h = elim (Outcome-cases (mongo.now w).0) [
    | inr p ↦ absurd (ground (arith, p))
    | inl (at, now) ↦
        All-of_All ms (λ m found. found.0)
          (find_stale_processing_messages-IsFound docs mongo finds clock age w at ms now h)
  ]

  -- If the collection, the breaker, the broker and the clocks keep their contracts, then both
  -- services over the MongoDB repository and the RabbitMQ queue keep the queue laws.
  pub over_adapters-QueueLaws : QueueLaws docs waiting (over_adapters mongo mq s)
  over_adapters-QueueLaws = record {
    sender_repository = repository-RepositoryLaws;
    sender_clock = laws.sender_clock;
    publish_lem = λ q.
        publish_message-Keeps docs waiting topology mq broker stamp publish_docs q
          (λ b. s.worker.platform.unmarshal b ≡ ok q) (laws.body_lem q);
    worker_repository = repository-RepositoryLaws;
    worker_others = record {
      move_to_dead_letter_lem = λ d h. absurd h;
      move_to_retry_queue_lem = λ d h. absurd h;
      is_processed_lem = laws.is_processed_lem;
      mark_as_processed_lem = laws.mark_as_processed_lem;
      store_webhook_message_id_lem = laws.store_webhook_message_id_lem;
      send_message_lem = laws.send_message_lem;
      now_lem = laws.now_lem;
      ack_lem = laws.ack_lem;
      nack_lem = λ d multiple requeue h. absurd h;
    };
    dead_letter_lem = move_to_dead_letter-Keeps docs waiting topology mq broker stamp publish_docs;
    retry_lem = move_to_retry_queue-Keeps docs waiting topology mq broker stamp publish_docs;
    returned_lem = laws.nack_lem;
    unsent_lem = unsent-IsStored;
    stale_lem = stale-IsStored;
    marshal_lem = laws.marshal_lem;
    sender_hex = laws.sender_hex;
    worker_hex = laws.worker_hex;
  }
