-- ===== src/System/Recording.antt =====
-- The worker over the MongoDB repository and the Redis inbox: what is recorded when the handling of
-- a delivery reports no error.
use mathlib.Core.Path.{subst}
use reliable_messaging_syste.Prelude.{
  ◌≡◌, ◌<◌, ◌⊎◌, sym, ap, ◌∙◌, inl, inr, String, true, false, not, Option, none, some, leb_ℤ, ◌*◌,
  lt→ltb, arith,
}
use reliable_messaging_syste.Effects.{
  try, Error, ok, err, Exec, Err, pure, ◌>>◌, fail, returns, Outcome-cases, error_text, errorf,
}
use reliable_messaging_syste.Models.{ObjectId, Message, processing, sent, failed, duplicate, hour}
use reliable_messaging_syste.Contracts.{QueueMessage, Delivery}
use reliable_messaging_syste.Ports.{WebhookResponse}
use reliable_messaging_syste.Store.Evolution.{Docs}
use reliable_messaging_syste.Processor.Domain.{should_process_message}
use reliable_messaging_syste.Processor.Service
use reliable_messaging_syste.Adapters.MessageRepository
use reliable_messaging_syste.Adapters.MessageRepository.{MongoMessageRepository}
use reliable_messaging_syste.Adapters.IdempotencyService as RedisInbox
use reliable_messaging_syste.Adapters.IdempotencyService.{RedisIdempotencyService, inbox_key}
use reliable_messaging_syste.Adapters.IdempotencyService.Contract.{Keys}
use reliable_messaging_syste.Adapters.IdempotencyService.Marks.{IsMarked, IsMarked-of_is_processed}
use reliable_messaging_syste.System.Successes.{
  Succeeds, fail-Succeeds, bind-Succeeds, then-Succeeds, try-Succeeds, try_err-Succeeds,
  deref-Succeeds, if-Succeeds,
}
use reliable_messaging_syste.System.Stores.{
  IsSent, StoreLaws, over_stores, Recorded, Marked-of_eq, update_status_keys, mark_then_sent,
  is_processed_keys,
}

module _ {W : Type 0} (keys : W → Keys) (docs : W → Docs) (inbox : RedisIdempotencyService W)
    (mongo : MongoMessageRepository W) (s : Service.ProcessorService W)
    (laws : StoreLaws keys docs inbox mongo s) where
  open laws use {redis, inbox_breaker, codec, unix_time, ack_keys}

  abbrev service : Service.ProcessorService W
  service = over_stores inbox mongo s

  abbrev Marked : String → W → Type 0
  Marked = IsMarked keys inbox redis inbox_breaker codec unix_time

  abbrev Done : String → ObjectId → W → Type 0
  Done = Recorded keys docs inbox mongo s laws

  handle_successful_processing-Succeeds :
      (q : QueueMessage) (id : ObjectId)
      → Succeeds (Done q.id id) (Service.handle_successful_processing service q id)
  unfolding Service.handle_successful_processing
  handle_successful_processing-Succeeds q id = record {
    holds = λ w h. elim (Outcome-cases (RedisInbox.mark_as_processed inbox q.id w).0) [
      | inr p ↦ absurd (ground (arith, p))
      | inl (some e, em) ↦ absurd (ground (arith, em))
      | inl (none, em) ↦
          elim (Outcome-cases
            (MessageRepository.update_status mongo id sent
              (RedisInbox.mark_as_processed inbox q.id w).1).0) [
                | inr p ↦ absurd (ground (arith, em, p))
                | inl (some e, eu) ↦ absurd (ground (arith, em, eu))
                | inl (none, eu) ↦
                    let last : W =
                      (MessageRepository.update_status mongo id sent
                        (RedisInbox.mark_as_processed inbox q.id w).1).1 in
                    let same : (Service.handle_successful_processing service q id w).1 ≡ last =
                      ground (arith, em, eu) in
                    subst (Done q.id id) (sym same)
                      (mark_then_sent keys docs inbox mongo s laws q id w em eu)
              ]
    ];
  }

  failed-Succeeds :
      (q : QueueMessage) (id : ObjectId) (e : Error)
      → Succeeds (Done q.id id) (pure {A = Err} (some e))
  failed-Succeeds q id e = fail-Succeeds (Done q.id id) e

  response-Succeeds :
      (q : QueueMessage) (id : ObjectId) (o : Option String)
      → Succeeds (Done q.id id) (elim o as (λ _. Exec W Err) [
        | none ↦ Service.handle_successful_processing service q id
        | some x ↦
            RedisInbox.store_webhook_message_id inbox q.id x (24 * hour)
            >> Service.handle_successful_processing service q id
      ])
  response-Succeeds q id none = handle_successful_processing-Succeeds q id
  response-Succeeds q id (some x) =
      then-Succeeds (Done q.id id) (RedisInbox.store_webhook_message_id inbox q.id x (24 * hour))
        (handle_successful_processing-Succeeds q id)

  record_webhook_response-Succeeds :
      (q : QueueMessage) (id : ObjectId) (r : Option WebhookResponse)
      → Succeeds (Done q.id id) (Service.record_webhook_response service q id r)
  unfolding Service.record_webhook_response
  record_webhook_response-Succeeds q id r = response-Succeeds q id (Service.has_message_id r)

  refusal-Succeeds :
      (q : QueueMessage) (id : ObjectId) (d : Delivery) (m : Message) (e : Error)
      → Succeeds (Done q.id id) (
          s.queue.move_to_dead_letter d
          >> MessageRepository.update_status mongo m.id failed
          >> fail e)
  refusal-Succeeds q id d m e = then-Succeeds (Done q.id id) (s.queue.move_to_dead_letter d) (
      then-Succeeds (Done q.id id) (MessageRepository.update_status mongo m.id failed)
        (failed-Succeeds q id e))

  handle_webhook_error-Succeeds :
      (q : QueueMessage) (id : ObjectId) (d : Delivery) (m : Message) (e : Error)
      → Succeeds (Done q.id id) (Service.handle_webhook_error service d m e)
  unfolding Service.handle_webhook_error
  handle_webhook_error-Succeeds q id d m e =
      try_err-Succeeds (Done q.id id) (MessageRepository.increment_retry_count mongo m.id)
        (failed-Succeeds q id)
        (try_err-Succeeds (Done q.id id) (MessageRepository.update_status mongo m.id processing)
          (failed-Succeeds q id)
          (try-Succeeds (Done q.id id) (MessageRepository.get_by_id mongo m.id)
            (failed-Succeeds q id)
            λ u. deref-Succeeds (Done q.id id) u λ n.
              if-Succeeds (Done q.id id) (leb_ℤ s.processor.max_retries n.retry_count)
                (refusal-Succeeds q id d m (errorf "message reached max retry count" e))
                (try_err-Succeeds (Done q.id id) (s.queue.move_to_retry_queue d)
                  (failed-Succeeds q id) (failed-Succeeds q id e))))

  deliver_message-Succeeds :
      (d : Delivery) (q : QueueMessage) (id : ObjectId) (m : Option Message)
      → Succeeds (Done q.id id) (Service.deliver_message service d q id m)
  unfolding Service.deliver_message Service.handle_stale_message Service.handle_max_retries_reached
  deliver_message-Succeeds d q id m =
      bind-Succeeds (Done q.id id) (should_process_message s.platform.now s.processor m) _ λ result.
        deref-Succeeds (Done q.id id) m λ n.
          if-Succeeds (Done q.id id) (not result.success)
            (if-Succeeds (Done q.id id) result.is_stale
              (refusal-Succeeds q id d n (error_text "message is stale"))
              (refusal-Succeeds q id d n (error_text "message reached max retry count")))
            (try-Succeeds (Done q.id id) (s.webhook_client.send_message n.content n.to)
              (handle_webhook_error-Succeeds q id d n) (record_webhook_response-Succeeds q id))

  found-Succeeds :
      (d : Delivery) (q : QueueMessage) (id : ObjectId)
      → Succeeds (Done q.id id) (
          try
            (MessageRepository.get_by_id mongo id)
            (λ e. s.platform.nack d false true >> fail e)
            (Service.deliver_message service d q id))
  found-Succeeds d q id =
      try-Succeeds (Done q.id id) (MessageRepository.get_by_id mongo id)
        (λ e. then-Succeeds (Done q.id id) (s.platform.nack d false true) (failed-Succeeds q id e))
        (deliver_message-Succeeds d q id)

  -- What a handling that reports no error leaves behind, if it started in `w`.
  abbrev Handled : String → ObjectId → W → W → Type 0
  Handled queue_id id w w' = Marked queue_id w' × (Marked queue_id w ⊎ IsSent id (docs w'))

  duplicate-Handled :
      (d : Delivery) (q : QueueMessage) (id : ObjectId) (w : W)
      → s.platform.object_id_from_hex q.id ≡ ok id
      → (RedisInbox.is_processed inbox q.id w).0 ≡ returns (ok true)
      → (Service.handle_queue_message service d q w).0 ≡ returns none
      → Handled q.id id w (Service.handle_queue_message service d q w).1
  unfolding Service.handle_queue_message
  duplicate-Handled d q id w hex yes' h =
      let marked : Marked q.id w =
        IsMarked-of_is_processed keys inbox redis inbox_breaker codec unix_time q.id w yes' in
      let v : W = (RedisInbox.is_processed inbox q.id w).1 in
      (
        Marked-of_eq keys docs inbox mongo s laws q.id w
            (Service.handle_queue_message service d q w).1
            (ground (
              arith,
              yes',
              hex,
              (is_processed_keys keys docs inbox mongo s laws q.id).unchanged w,
              (update_status_keys keys docs inbox mongo s laws id duplicate).unchanged v,
            ))
            marked,
        inl marked,
      )

  handle_queue_message-Handled :
      (d : Delivery) (q : QueueMessage) (id : ObjectId) (w : W)
      → s.platform.object_id_from_hex q.id ≡ ok id
      → (Service.handle_queue_message service d q w).0 ≡ returns none
      → Handled q.id id w (Service.handle_queue_message service d q w).1
  unfolding Service.handle_queue_message
  handle_queue_message-Handled d q id w hex h =
      elim (Outcome-cases (RedisInbox.is_processed inbox q.id w).0) [
        | inr p ↦ absurd (ground (arith, p))
        | inl (err e, ep) ↦ absurd (ground (arith, ep))
        | inl (ok true, ep) ↦ duplicate-Handled d q id w hex ep h
        | inl (ok false, ep) ↦
            let v : W = (RedisInbox.is_processed inbox q.id w).1 in
            let same : Service.handle_queue_message service d q w
                ≡ try (MessageRepository.get_by_id mongo id)
                    (λ e. s.platform.nack d false true >> fail e)
                    (Service.deliver_message service d q id) v =
              ground (arith, ep, hex) in
            let (marked, set) = (found-Succeeds d q id).holds v (sym (ap (λ x. x.0) same) ∙ h) in
            subst (λ x. Handled q.id id w x.1) (sym same) (marked, inr set)
      ]

  -- If the stores keep their contracts, and an acknowledgement and the repository leave the keys of
  -- Redis alone: when the handling of a delivery with a tag, whose body decodes to a queue message
  -- with the id of a message that is stored afterwards, ends without an error, then the id is marked
  -- in Redis, and either it was marked before, or the message is `sent`.
  pub process_message-Recorded :
      (d : Delivery) (q : QueueMessage) (id : ObjectId) (m : Message) (w : W)
      → 0 < d.delivery_tag
      → s.platform.unmarshal d.body ≡ ok q
      → s.platform.object_id_from_hex q.id ≡ ok id
      → (Service.process_message service d w).0 ≡ returns none
      → docs (Service.process_message service d w).1 id ≡ some m
      → Marked q.id (Service.process_message service d w).1 × (Marked q.id w ⊎ (m.status ≡ sent))
  unfolding Service.process_message Service.handle_message_processing
  process_message-Recorded d q id m w tag decoded hex h stored =
      let v : W = (s.platform.ack d false w).1 in
      let w' : W = (Service.handle_queue_message service d q v).1 in
      let ended : (Service.handle_queue_message service d q v).0 ≡ returns none =
        ground (arith, lt→ltb 0 d.delivery_tag tag, decoded) in
      let same : (Service.process_message service d w).1 ≡ w' =
        ground (arith, lt→ltb 0 d.delivery_tag tag, decoded) in
      let (marked, before) = handle_queue_message-Handled d q id v hex ended in
      (
        subst (Marked q.id) (sym same) marked,
        elim before [
          | inl old ↦ inl (
              Marked-of_eq keys docs inbox mongo s laws q.id v w (sym ((ack_keys d).unchanged w))
                old)
          | inr is_sent ↦ inr (is_sent m (sym (ap (λ x. docs x id) same) ∙ stored))
        ],
      )
