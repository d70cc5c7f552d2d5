-- ===== src/System/Liveness.antt =====
-- When the calls through the ports work: what becomes of an unsent message, from a round of the
-- sender to the handling of a delivery by the worker.
pub mod Rounds
pub mod Handling
pub mod Completion
pub mod Adapters
pub mod Queue
pub mod Inbox
pub mod Implementation
pub mod Listed
use reliable_messaging_syste.Prelude.{◌≡◌, ◌≢◌, ◌<◌, false, Option, none, some, String, leb_ℤ}
use reliable_messaging_syste.Effects.{Result, ok, returns, panics}
use reliable_messaging_syste.Models.{ObjectId, Time, Duration, Bytes, Message, processing, sent}
use reliable_messaging_syste.Contracts.{QueueMessage, Delivery}
use reliable_messaging_syste.Ports.{MessageRepository, WebhookResponse}
use reliable_messaging_syste.Store.Evolution.{Docs, Evolves, Evolves-refl, Evolves-trans}
use reliable_messaging_syste.Store.Keeps.{Preorder, Keeps}
use reliable_messaging_syste.Store.Laws.{RepositoryLaws}
use reliable_messaging_syste.Processor.Domain.{since_exceeds}
use reliable_messaging_syste.Processor.Service.{ProcessorService}
use reliable_messaging_syste.Sender.Service.{SenderService}
use reliable_messaging_syste.Adapters.Breaker.Contract.{Reads}
use reliable_messaging_syste.Adapters.MessageQueue.Contract.{Waiting}
use reliable_messaging_syste.System.Queues.{IsWaiting}

-- `Ready` says that the queues are set up.
module _ {W : Type 0} (docs : W → Docs) (waiting : W → Waiting) (Ready : W → Type 0) where
  -- The stored messages evolve, what waits still waits, and the queues stay set up.
  abbrev pub Advances : W → W → Type 0
  Advances v w =
      Evolves (docs v) (docs w)
      × ((b : Bytes) → IsWaiting docs waiting b v → IsWaiting docs waiting b w)
      × (Ready v → Ready w)

  pub advance : Preorder Advances
  advance = record {
    refl = λ w. (Evolves-refl (docs w), λ b h. h, λ r. r);
    trans = λ u v w h k. (
      Evolves-trans (docs u) (docs v) (docs w) h.0 k.0,
      λ b waits. k.1 b (h.1 b waits),
      λ r. k.2 (h.2 r),
    );
  }

  -- The calls of a round return, none of them takes a message out of a queue, and what encodes is
  -- published while the queues are set up.
  pub record RoundLaws (encode : QueueMessage → Result Bytes) (s : SenderService W) : Type 0 where
    pub repository : RepositoryLaws advance s.repository
    pub clock : Keeps advance s.platform.now
    pub update_status_lem :
        (id : ObjectId) (w : W) → (s.repository.update_status id processing w).0 ≢ panics
    pub publish_keeps : (q : QueueMessage) → Keeps advance (s.queue.publish_message q)
    pub publish_ends : (q : QueueMessage) (w : W) → (s.queue.publish_message q w).0 ≢ panics
    pub publish_lem :
        (q : QueueMessage) (b : Bytes) (w : W)
        → encode q ≡ ok b
        → Ready w
        → ((s.queue.publish_message q w).0 ≡ returns none)
          × IsWaiting docs waiting b (s.queue.publish_message q w).1

-- The message `m`, set to `sent` at this time.
abbrev pub sent_at : Time → Message → Message
sent_at at m = record m { status = sent; updated_at = at }

-- The repository answers: a read gives what is stored, and `sent` is written for a message that is
-- stored.
pub record RepositoryAnswers {W : Type 0} (docs : W → Docs) (r : MessageRepository W) : Type 0 where
  pub get_by_id_lem : (id : ObjectId) (w : W) → (r.get_by_id id w).0 ≡ returns (ok (docs w id))
  pub get_by_id_docs : (id : ObjectId) → Reads docs (r.get_by_id id)
  pub update_status_lem :
      (id : ObjectId) (m : Message) (w : W)
      → docs w id ≡ some m
      → ((r.update_status id sent w).0 ≡ returns none)
        × ((at : Time) × (docs (r.update_status id sent w).1 id ≡ some (sent_at at m)))

-- The stores of the worker answer, and the calls beside those of the repository leave the collection
-- alone.
pub record AnswerLaws {W : Type 0} (docs : W → Docs) (s : ProcessorService W) : Type 0 where
  pub repository : RepositoryAnswers docs s.repository
  pub ack_lem : (d : Delivery) (w : W) → (s.platform.ack d false w).0 ≢ panics
  pub ack_docs : (d : Delivery) → Reads docs (s.platform.ack d false)
  pub is_processed_docs : (id : String) → Reads docs (s.idempotency_service.is_processed id)
  pub now_lem : (w : W) → (s.platform.now w).0 ≢ panics
  pub now_docs : Reads docs s.platform.now
  pub send_message_docs :
      (content to : String) → Reads docs (s.webhook_client.send_message content to)
  pub store_webhook_message_id_lem :
      (id text : String) (ttl : Duration) (w : W)
      → (s.idempotency_service.store_webhook_message_id id text ttl w).0 ≢ panics
  pub store_webhook_message_id_docs :
      (id text : String) (ttl : Duration)
      → Reads docs (s.idempotency_service.store_webhook_message_id id text ttl)
  pub mark_as_processed_docs :
      (id : String) → Reads docs (s.idempotency_service.mark_as_processed id)

-- In the world `w` the delivery has a tag and its id is not marked. The message has attempts left and
-- is not stale, the webhook accepts it, and Redis takes the mark.
pub record IsDue {W : Type 0} (s : ProcessorService W) (d : Delivery) (queue_id : String)
    (m : Message) (w : W) : Type 0 where
  pub tagged : 0 < d.delivery_tag
  pub is_new :
      (s.idempotency_service.is_processed queue_id (s.platform.ack d false w).1).0
      ≡ returns (ok false)
  pub attempts_left : leb_ℤ s.processor.max_retries m.retry_count ≡ false
  pub not_stale :
      (at : Time) (u : W)
      → (s.platform.now u).0 ≡ returns at
      → since_exceeds at m.updated_at s.processor.stale_duration ≡ false
  pub accepts :
      (u : W)
      → (r : Option WebhookResponse) × ((s.webhook_client.send_message m.content m.to u).0
          ≡ returns (ok r))
  pub marks : (u : W) → (s.idempotency_service.mark_as_processed queue_id u).0 ≡ returns none
