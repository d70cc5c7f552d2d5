-- ===== src/System/Liveness/Listed.antt =====
-- From a round of the sender to the end of the delivery, over the adapters and the libraries.
use mathlib.Core.List.{Memᴰ}
use reliable_messaging_syste.Prelude.{
  ◌≡◌, ◌<◌, ap, ◌∙◌, String, Option, true, false, none, some, List, [], ◌∷◌, leb_ℤ, All-Memᴰ, arith,
}
use reliable_messaging_syste.Effects.{ok, returns}
use reliable_messaging_syste.Models.{Time, Bytes, Message, unsent, sent}
use reliable_messaging_syste.Contracts.{QueueMessage, Delivery}
use reliable_messaging_syste.Ports.{WebhookResponse}
use reliable_messaging_syste.Store.Evolution.{Docs, Evolves}
use reliable_messaging_syste.Sender.Service.{queue_message_of}
use reliable_messaging_syste.Processor.Domain.{since_exceeds}
use reliable_messaging_syste.Processor.Service.{process_message}
use reliable_messaging_syste.Adapters.Drivers.{status_is}
use reliable_messaging_syste.Adapters.Breaker.Contract.{IsClosed-BreakerLaws}
use reliable_messaging_syste.Adapters.MessageRepository
use reliable_messaging_syste.Adapters.MessageRepository.{MongoMessageRepository}
use reliable_messaging_syste.Adapters.MessageRepository.Finding.{
  IsFound, find_unsent_messages-IsFound,
}
use reliable_messaging_syste.Adapters.MessageQueue.{RabbitMqAdapter}
use reliable_messaging_syste.Adapters.MessageQueue.Contract.{Topology, Waiting}
use reliable_messaging_syste.Adapters.IdempotencyService.{
  RedisIdempotencyService, inbox_key, says_processed,
}
use reliable_messaging_syste.Adapters.IdempotencyService.Contract.{Keys}
use reliable_messaging_syste.System.{Services, round, delivery, perform}
use reliable_messaging_syste.System.Recording.{process_message-Recorded}
use reliable_messaging_syste.System.Queues.{IsWaiting}
use reliable_messaging_syste.System.Liveness.{IsDue}
use reliable_messaging_syste.System.Liveness.Queue.{Ready}
use reliable_messaging_syste.System.Liveness.Inbox.{is_processed_new, mark_as_processed_returns}
use reliable_messaging_syste.System.Liveness.Rounds.{round-advances}
use reliable_messaging_syste.System.Liveness.Completion.{unsent_becomes_sent}
use reliable_messaging_syste.System.Liveness.Implementation.{
  over_libraries, LibraryLaws, both-RoundLaws, both-AnswerLaws, both-EncodingLaws, both-StoreLaws,
}

module _ {W : Type 0} (topology : W → Topology) (docs : W → Docs) (waiting : W → Waiting)
    (keys : W → Keys) (mongo : MongoMessageRepository W) (mq : RabbitMqAdapter W)
    (inbox : RedisIdempotencyService W) (s : Services W)
    (laws : LibraryLaws topology docs waiting keys mongo mq inbox s) where
  abbrev both : Services W
  both = over_libraries mongo mq inbox s

  abbrev IsReady : W → Type 0
  IsReady = Ready topology docs waiting

  -- The worker would send this version of the message now.
  pub record IsSendable (n : Message) : Type 0 where
    pub attempts_left : leb_ℤ s.worker.processor.max_retries n.retry_count ≡ false
    pub not_stale :
        (at : Time) (u : W)
        → (s.worker.platform.now u).0 ≡ returns at
        → since_exceeds at n.updated_at s.worker.processor.stale_duration ≡ false

  listed-stored :
      (ms : List Message) (m : Message) (w : W)
      → (MessageRepository.find_unsent_messages mongo s.sender.sender.batch_size w).0
        ≡ returns (ok ms)
      → Memᴰ m ms
      → docs w m.id ≡ some m
  listed-stored ms m w found listed =
      let all' =
        find_unsent_messages-IsFound docs mongo laws.finds
          (IsClosed-BreakerLaws docs mongo.cb laws.collection.closed) s.sender.sender.batch_size w
          ms found in
      (All-Memᴰ (IsFound docs (status_is unsent ∷ []) (docs w)) ms all'.0 listed).0

  -- What is stored of a listed message in a later world.
  later_version :
      (ms : List Message) (m n : Message) (w v : W)
      → (both.sender.repository.find_unsent_messages s.sender.sender.batch_size w).0
        ≡ returns (ok ms)
      → Memᴰ m ms
      → Evolves (docs (perform both round w)) (docs v)
      → docs v m.id ≡ some n
      → (n.to ≡ m.to) × (n.content ≡ m.content)
  unfolding perform
  later_version ms m n w v found listed between there =
      let stored = listed-stored ms m w found listed in
      let taken =
        (round-advances docs waiting IsReady mq.marshal both.sender
            (both-RoundLaws topology docs waiting keys mongo mq inbox s laws)).keeps
          w in
      let (n₁, there₁, later₁) = taken.0 m.id m stored in
      let (n₂, there₂, later₂) = between m.id n₁ there₁ in
      ground (
        arith,
        there,
        there₂,
        later₂.same_to ∙ later₁.same_to,
        later₂.same_content ∙ later₁.same_content,
      )

  IsDue-if_sendable :
      (m n : Message) (d : Delivery) (v : W)
      → n.to ≡ m.to
      → n.content ≡ m.content
      → 0 < d.delivery_tag
      → keys v (inbox_key (s.sender.platform.hex m.id)) ≡ none
      → IsSendable n
      → ((u : W)
          → (r : Option WebhookResponse) × ((s.worker.webhook_client.send_message m.content m.to
                u).0
              ≡ returns (ok r)))
      → IsDue both.worker d (s.sender.platform.hex m.id) n v
  IsDue-if_sendable m n d v same_to same_content tag fresh sendable accepts = record {
    tagged = tag;
    is_new =
        is_processed_new keys docs inbox laws.redis (s.sender.platform.hex m.id)
          (s.worker.platform.ack d false v).1
          (ap (λ (k : Keys). k (inbox_key (s.sender.platform.hex m.id)))
              ((laws.ack_keys d).unchanged v)
            ∙ fresh);
    attempts_left = sendable.attempts_left;
    not_stale = sendable.not_stale;
    accepts = λ u. rw (same_to, same_content) (accepts u);
    marks = mark_as_processed_returns keys docs inbox laws.redis (s.sender.platform.hex m.id);
  }

  -- If the collection, the broker and Redis are available, and the breakers are closed: when a round
  -- lists a message whose queue message encodes as `b`, and the queues are set up, then `b` waits in
  -- a queue after the round. Take any world in which the stored messages have evolved from there, in
  -- which Redis holds nothing under the inbox key of the id, and what is stored of the message has
  -- attempts left and is not stale whenever the clock is read. If the webhook accepts the text and
  -- the recipient, the worker handles a delivery with a tag and this body without an error, and then
  -- the message is stored as `sent`, with the text and the recipient that it had, and its id is
  -- marked in Redis.
  pub listed_becomes_sent :
      (ms : List Message) (m : Message) (b : Bytes) (d : Delivery) (w v : W)
      → (both.sender.repository.find_unsent_messages s.sender.sender.batch_size w).0
        ≡ returns (ok ms)
      → Memᴰ m ms
      → mq.marshal (queue_message_of both.sender m) ≡ ok b
      → IsReady w
      → Evolves (docs (perform both round w)) (docs v)
      → d.body ≡ b
      → 0 < d.delivery_tag
      → keys v (inbox_key (s.sender.platform.hex m.id)) ≡ none
      → ((n : Message) → docs v m.id ≡ some n → IsSendable n)
      → ((u : W)
          → (r : Option WebhookResponse) × ((s.worker.webhook_client.send_message m.content m.to
                u).0
              ≡ returns (ok r)))
      → IsWaiting docs waiting b (perform both round w)
        × ((process_message both.worker d v).0 ≡ returns none)
        × ((n : Message) × (docs (perform both (delivery d) v) m.id ≡ some n)
            × (n.status ≡ sent)
            × (n.to ≡ m.to)
            × (n.content ≡ m.content))
        × ((mark : String) × (keys
                (perform both (delivery d) v)
                (inbox_key (s.sender.platform.hex m.id))
              ≡ some mark)
            × (says_processed inbox.codec mark ≡ true))
  unfolding perform
  listed_becomes_sent ms m b d w v found listed encoded ready between body tag fresh sendable
        accepts =
      let q : QueueMessage = queue_message_of both.sender m in
      let stored = listed-stored ms m w found listed in
      let due : (n : Message) → docs v m.id ≡ some n → IsDue both.worker d q.id n v = λ n there.
        let (same_to, same_content) = later_version ms m n w v found listed between there in
        IsDue-if_sendable m n d v same_to same_content tag fresh (sendable n there) accepts in
      let (waits, ended, (n, written, as_sent, same_to, same_content)) =
        unsent_becomes_sent docs waiting IsReady mq.marshal both
          (both-RoundLaws topology docs waiting keys mongo mq inbox s laws)
          (both-AnswerLaws topology docs waiting keys mongo mq inbox s laws)
          (both-EncodingLaws topology docs waiting keys mongo mq inbox s laws) ms m b d w v found
          listed stored encoded ready between body due in
      let (marked, _) =
        process_message-Recorded keys docs inbox mongo both.worker
          (both-StoreLaws topology docs waiting keys mongo mq inbox s laws) d q m.id n v tag
          (ap s.worker.platform.unmarshal body ∙ laws.decode_lem q b encoded) (laws.hex_lem m.id)
          ended written in
      (waits, ended, (n, written, as_sent, same_to, same_content), marked)
