-- ===== src/Store/Services/Processor.antt =====
-- The processor service: the worker and the stale check.
use reliable_messaging_syste.Prelude.{
  All-of_each, ◌≡◌, refl, Option, none, some, true, false, not, leb_ℤ, ◌*◌, ltb, String,
}
use reliable_messaging_syste.Effects.{
  Error, error_text, errorf, Result, ok, err, Exec, Err, pure, ◌>>◌, fail, nil, try, try_err,
}
use reliable_messaging_syste.Models.{
  Bytes, ObjectId, Message, processing, sent, failed, duplicate, minute, hour,
}
use reliable_messaging_syste.Contracts.{QueueMessage, Delivery, delivery_of}
use reliable_messaging_syste.Ports.{WebhookResponse}
use reliable_messaging_syste.Store.Keeps.{
  Preorder, Keeps, pure-Keeps, bind-Keeps, then-Keeps, try-Keeps, try_err-Keeps, deref-Keeps,
  if-Keeps, for_each-Keeps,
}
use reliable_messaging_syste.Store.Laws.{RepositoryLaws, OtherLaws}
use reliable_messaging_syste.Processor.Domain.{should_process_message}
use reliable_messaging_syste.Processor.Service

module _ {W : Type 0} {R : W → W → Type 0} (o : Preorder R) (s : Service.ProcessorService W)
    (repo : RepositoryLaws o s.repository) (InHand : Delivery → Type 0)
    (other : OtherLaws o InHand s.queue s.idempotency_service s.webhook_client s.platform) where
  fail-Keeps : (e : Error) → Keeps o (pure {A = Err} (some e))
  fail-Keeps e = pure-Keeps o (some e)

  dead_letter-Keeps :
      (d : Delivery) (id : ObjectId) (e : Error)
      → InHand d
      → Keeps o (s.queue.move_to_dead_letter d >> s.repository.update_status id failed >> fail e)
  dead_letter-Keeps d id e h =
      then-Keeps o (other.move_to_dead_letter_lem d h)
        (then-Keeps o (repo.update_status_lem id failed (λ q. cc)) (fail-Keeps e))

  should_process_message-Keeps :
      (m : Option Message) → Keeps o (should_process_message s.platform.now s.processor m)
  unfolding should_process_message
  should_process_message-Keeps m = deref-Keeps o m λ n.
      if-Keeps o (leb_ℤ s.processor.max_retries n.retry_count) (pure-Keeps o _)
        (bind-Keeps o s.platform.now _ other.now_lem λ at. pure-Keeps o _)

  handle_webhook_error-Keeps :
      (d : Delivery) (m : Message) (e : Error)
      → InHand d
      → Keeps o (Service.handle_webhook_error s d m e)
  unfolding Service.handle_webhook_error
  handle_webhook_error-Keeps d m e h =
      try_err-Keeps o (repo.increment_retry_count_lem m.id) fail-Keeps (
        try_err-Keeps o (repo.update_status_lem m.id processing (λ q. cc)) fail-Keeps (
          try-Keeps o (repo.get_by_id_lem m.id) fail-Keeps λ u. deref-Keeps o u λ n.
            if-Keeps o (leb_ℤ s.processor.max_retries n.retry_count)
              (dead_letter-Keeps d m.id (errorf "message reached max retry count" e) h)
              (try_err-Keeps o (other.move_to_retry_queue_lem d h) fail-Keeps (fail-Keeps e))))

  handle_successful_processing-Keeps :
      (q : QueueMessage) (id : ObjectId) → Keeps o (Service.handle_successful_processing s q id)
  unfolding Service.handle_successful_processing
  handle_successful_processing-Keeps q id =
      try_err-Keeps o (other.mark_as_processed_lem q.id) fail-Keeps
        (try_err-Keeps o (repo.update_status_lem id sent (λ e. cc)) fail-Keeps (pure-Keeps o none))

  record_id-Keeps :
      (q : QueueMessage) (id : ObjectId) (x : Option String)
      → Keeps o (elim x as (λ _. Exec W Err) [
        | none ↦ Service.handle_successful_processing s q id
        | some w ↦
            s.idempotency_service.store_webhook_message_id q.id w (24 * hour)
            >> Service.handle_successful_processing s q id
      ])
  record_id-Keeps q id none = handle_successful_processing-Keeps q id
  record_id-Keeps q id (some w) =
      then-Keeps o (other.store_webhook_message_id_lem q.id w (24 * hour))
        (handle_successful_processing-Keeps q id)

  record_webhook_response-Keeps :
      (q : QueueMessage) (id : ObjectId) (r : Option WebhookResponse)
      → Keeps o (Service.record_webhook_response s q id r)
  unfolding Service.record_webhook_response
  record_webhook_response-Keeps q id r = record_id-Keeps q id (Service.has_message_id r)

  handle_stale_message-Keeps :
      (d : Delivery) (m : Message) → InHand d → Keeps o (Service.handle_stale_message s d m)
  unfolding Service.handle_stale_message
  handle_stale_message-Keeps d m h = dead_letter-Keeps d m.id (error_text "message is stale") h

  handle_max_retries_reached-Keeps :
      (d : Delivery) (m : Message) → InHand d → Keeps o (Service.handle_max_retries_reached s d m)
  unfolding Service.handle_max_retries_reached
  handle_max_retries_reached-Keeps d m h =
      dead_letter-Keeps d m.id (error_text "message reached max retry count") h

  deliver_message-Keeps :
      (d : Delivery) (q : QueueMessage) (id : ObjectId) (m : Option Message)
      → InHand d
      → Keeps o (Service.deliver_message s d q id m)
  unfolding Service.deliver_message
  deliver_message-Keeps d q id m h = bind-Keeps o _ _ (should_process_message-Keeps m) λ result.
      deref-Keeps o m λ n.
        if-Keeps o (not result.success)
          (if-Keeps o result.is_stale (handle_stale_message-Keeps d n h)
            (handle_max_retries_reached-Keeps d n h))
          (try-Keeps o (other.send_message_lem n.content n.to)
            (λ e. handle_webhook_error-Keeps d n e h) (record_webhook_response-Keeps q id))

  duplicate-Keeps :
      (r : Result ObjectId)
      → Keeps o (elim r as (λ _. Exec W Err) [
        | err e ↦ fail e
        | ok id ↦ s.repository.update_status id duplicate >> nil
      ])
  duplicate-Keeps (err e) = fail-Keeps e
  duplicate-Keeps (ok id) =
      then-Keeps o (repo.update_status_lem id duplicate (λ e. cc)) (pure-Keeps o none)

  nack-Keeps :
      (d : Delivery) (e : Error) → InHand d → Keeps o (s.platform.nack d false true >> fail e)
  nack-Keeps d e h = then-Keeps o (other.nack_lem d false true h) (fail-Keeps e)

  found-Keeps :
      (d : Delivery) (q : QueueMessage) (r : Result ObjectId)
      → InHand d
      → Keeps o (elim r as (λ _. Exec W Err) [
        | err e ↦ s.queue.move_to_dead_letter d >> fail e
        | ok id ↦
            try
              (s.repository.get_by_id id)
              (λ e. s.platform.nack d false true >> fail e)
              (Service.deliver_message s d q id)
      ])
  found-Keeps d q (err e) h = then-Keeps o (other.move_to_dead_letter_lem d h) (fail-Keeps e)
  found-Keeps d q (ok id) h =
      try-Keeps o (repo.get_by_id_lem id) (λ e. nack-Keeps d e h)
        (λ m. deliver_message-Keeps d q id m h)

  handle_queue_message-Keeps :
      (d : Delivery) (q : QueueMessage) → InHand d → Keeps o (Service.handle_queue_message s d q)
  unfolding Service.handle_queue_message
  handle_queue_message-Keeps d q h =
      try-Keeps o (other.is_processed_lem q.id) (λ e. nack-Keeps d e h)
        λ processed.
          if-Keeps o processed (duplicate-Keeps (s.platform.object_id_from_hex q.id))
            (found-Keeps d q (s.platform.object_id_from_hex q.id) h)

  decoded-Keeps :
      (d : Delivery) (r : Result QueueMessage)
      → InHand d
      → Keeps o (elim r as (λ _. Exec W Err) [
        | err e ↦ s.queue.move_to_dead_letter d >> fail e
        | ok q ↦ Service.handle_queue_message s d q
      ])
  decoded-Keeps d (err e) h = then-Keeps o (other.move_to_dead_letter_lem d h) (fail-Keeps e)
  decoded-Keeps d (ok q) h = handle_queue_message-Keeps d q h

  pub process_message-Keeps : (d : Delivery) → InHand d → Keeps o (Service.process_message s d)
  unfolding Service.process_message Service.handle_message_processing
  process_message-Keeps d h =
      let handled =
        try_err-Keeps o (decoded-Keeps d (s.platform.unmarshal d.body) h)
          (λ e. fail-Keeps (errorf "failed to process message" e)) (pure-Keeps o none) in
      if-Keeps o (ltb 0 d.delivery_tag) (then-Keeps o (other.ack_lem d false) handled) handled

  encoded-Keeps :
      (m : Message) (r : Result Bytes)
      → ((body : Bytes) → r ≡ ok body → InHand (delivery_of body))
      → Keeps o (elim r as (λ _. Exec W Err) [
        | err e ↦ fail (errorf "failed to marshal message for DLQ" e)
        | ok body ↦
            try_err
              (s.queue.move_to_dead_letter (delivery_of body))
              (λ e. fail (errorf "failed to move stale message to DLQ" e))
              (try_err
                (s.repository.update_status m.id failed)
                (λ e. fail (errorf "failed to update stale message status to failed" e))
                nil)
      ])
  encoded-Keeps m (err e) h = fail-Keeps (errorf "failed to marshal message for DLQ" e)
  encoded-Keeps m (ok body) h =
      try_err-Keeps o (other.move_to_dead_letter_lem (delivery_of body) (h body refl))
        (λ e. fail-Keeps (errorf "failed to move stale message to DLQ" e))
        (try_err-Keeps o (repo.update_status_lem m.id failed (λ q. cc))
          (λ e. fail-Keeps (errorf "failed to update stale message status to failed" e))
          (pure-Keeps o none))

  -- The queue message that stands for a stale message.
  abbrev pub stale_queue_message : Message → QueueMessage
  stale_queue_message m = record {
    id = s.platform.hex m.id;
    content = m.content;
    to = "";
    retry = m.retry_count;
  }

  -- The dead letter that stands for this message may be moved.
  abbrev pub MayBeMoved : Message → Type 0
  MayBeMoved m =
      (body : Bytes)
      → s.platform.marshal (stale_queue_message m) ≡ ok body
      → InHand (delivery_of body)

  pub recovery-Keeps :
      (m : Message) → MayBeMoved m → Keeps o (Service.handle_stale_message_recovery s m)
  unfolding Service.handle_stale_message_recovery
  recovery-Keeps m h = encoded-Keeps m (s.platform.marshal (stale_queue_message m)) h

  pub check_stale_messages-Keeps :
      ((m : Message) → MayBeMoved m) → Keeps o (Service.check_stale_messages s)
  unfolding Service.check_stale_messages
  check_stale_messages-Keeps h =
      try-Keeps o (repo.find_stale_lem (4 * minute)) (λ e. fail-Keeps _)
        λ ms.
          then-Keeps o (for_each-Keeps o ms _ (All-of_each (λ m. recovery-Keeps m (h m)) ms))
            (pure-Keeps o none)
