-- ===== src/Store/Services/Handling.antt =====
-- The handling of a delivery for a stored message does not panic.
use reliable_messaging_syste.Prelude.{
  ◌≡◌, ◌≢◌, ◌∙◌, Option, none, some, true, false, not, leb_ℤ, ◌*◌, ltb, String,
}
use reliable_messaging_syste.Effects.{
  Error, error_text, errorf, ok, Exec, Err, returns, panics, pure, ◌>>◌, fail,
}
use reliable_messaging_syste.Models.{
  ObjectId, Duration, Message, MessageStatus, unsent, processing, sent, failed, duplicate, hour,
}
use reliable_messaging_syste.Contracts.{QueueMessage, empty_queue_message, Delivery}
use reliable_messaging_syste.Ports.{WebhookResponse}
use reliable_messaging_syste.Store.Evolution.{Docs, Evolves}
use reliable_messaging_syste.Store.Keeps.{Preorder, Keeps}
use reliable_messaging_syste.Store.Laws.{RepositoryLaws, OtherLaws}
use reliable_messaging_syste.Store.Returns.{
  Returns, pure-Returns, bind-Returns, then-Returns, try-Returns, try_err-Returns, if-Returns,
  found-Returns,
}
use reliable_messaging_syste.Processor.Domain.{should_process_message}
use reliable_messaging_syste.Processor.Service

-- No call that the worker makes through a port panics, and a read by id gives what is stored.
pub record ReturnLaws {W : Type 0} (docs : W → Docs) (s : Service.ProcessorService W) : Type 0 where
  pub get_by_id_lem : (id : ObjectId) (w : W) → (s.repository.get_by_id id w).0 ≢ panics
  pub read_lem :
      (id : ObjectId) (w : W) (o : Option Message)
      → (s.repository.get_by_id id w).0 ≡ returns (ok o)
      → o ≡ docs w id
  pub update_status_lem :
      (id : ObjectId) (st : MessageStatus) (w : W) → (s.repository.update_status id st w).0 ≢ panics
  pub increment_retry_count_lem :
      (id : ObjectId) (w : W) → (s.repository.increment_retry_count id w).0 ≢ panics
  pub move_to_dead_letter_lem :
      (d : Delivery) (w : W) → (s.queue.move_to_dead_letter d w).0 ≢ panics
  pub move_to_retry_queue_lem :
      (d : Delivery) (w : W) → (s.queue.move_to_retry_queue d w).0 ≢ panics
  pub is_processed_lem :
      (id : String) (w : W) → (s.idempotency_service.is_processed id w).0 ≢ panics
  pub mark_as_processed_lem :
      (id : String) (w : W) → (s.idempotency_service.mark_as_processed id w).0 ≢ panics
  pub store_webhook_message_id_lem :
      (id text : String) (ttl : Duration) (w : W)
      → (s.idempotency_service.store_webhook_message_id id text ttl w).0 ≢ panics
  pub send_message_lem :
      (content to : String) (w : W) → (s.webhook_client.send_message content to w).0 ≢ panics
  pub now_lem : (w : W) → (s.platform.now w).0 ≢ panics
  pub ack_lem : (d : Delivery) (w : W) → (s.platform.ack d false w).0 ≢ panics
  pub nack_lem : (d : Delivery) (w : W) → (s.platform.nack d false true w).0 ≢ panics

-- Under the allowed changes the stored messages evolve.
module _ {W : Type 0} {R : W → W → Type 0} (o : Preorder R) (docs : W → Docs)
    (evolves : (v w : W) → R v w → Evolves (docs v) (docs w)) (s : Service.ProcessorService W)
    (repo : RepositoryLaws o s.repository) (InHand : Delivery → Type 0)
    (other : OtherLaws o InHand s.queue s.idempotency_service s.webhook_client s.platform)
    (live : ReturnLaws docs s) (id : ObjectId) where
  -- The message with this id is stored, under its own id.
  abbrev pub Stands : W → Type 0
  Stands w = (n : Message) × (docs w id ≡ some n) × (n.id ≡ id)

  call-Returns :
      {A : Type 0} {m : Exec W A} → Keeps o m → ((w : W) → (m w).0 ≢ panics) → Returns Stands m
  call-Returns h ends = record {
    ends = λ w stands.
        let (n, there, named) = stands in
        let (n', there', later) = evolves w _ (h.keeps w) id n there in
        (ends w, (n', there', later.same_id ∙ named));
  }

  fail-Returns : (e : Error) → Returns Stands (pure {A = Err} (some e))
  fail-Returns e = pure-Returns Stands (some e)

  update-Returns :
      (id' : ObjectId) (st : MessageStatus)
      → st ≢ unsent
      → Returns Stands (s.repository.update_status id' st)
  update-Returns id' st taken =
      call-Returns (repo.update_status_lem id' st taken) (live.update_status_lem id' st)

  dead_letter-Returns :
      (d : Delivery) (id' : ObjectId) (e : Error)
      → InHand d
      → Returns Stands
          (s.queue.move_to_dead_letter d >> s.repository.update_status id' failed >> fail e)
  dead_letter-Returns d id' e mine =
      then-Returns Stands
        (call-Returns (other.move_to_dead_letter_lem d mine) (live.move_to_dead_letter_lem d))
        (then-Returns Stands (update-Returns id' failed (λ q. cc)) (fail-Returns e))

  nack-Returns :
      (d : Delivery) (e : Error)
      → InHand d
      → Returns Stands (s.platform.nack d false true >> fail e)
  nack-Returns d e mine =
      then-Returns Stands (call-Returns (other.nack_lem d false true mine) (live.nack_lem d))
        (fail-Returns e)

  handle_webhook_error-Returns :
      (d : Delivery) (m : Message) (e : Error)
      → InHand d
      → m.id ≡ id
      → Returns Stands (Service.handle_webhook_error s d m e)
  unfolding Service.handle_webhook_error
  handle_webhook_error-Returns d m e mine named =
      try_err-Returns Stands
        (call-Returns (repo.increment_retry_count_lem m.id) (live.increment_retry_count_lem m.id))
        fail-Returns
        (try_err-Returns Stands (update-Returns m.id processing (λ q. cc)) fail-Returns (
          found-Returns Stands _ (λ u. Unit)
            (call-Returns (repo.get_by_id_lem m.id) (live.get_by_id_lem m.id))
            (λ w u stands e'.
              let (n, there, _) = stands in (n, live.read_lem m.id w u e' ∙ rw named there, tt))
            fail-Returns
            λ u _.
              if-Returns Stands (leb_ℤ s.processor.max_retries u.retry_count)
                (dead_letter-Returns d m.id (errorf "message reached max retry count" e) mine)
                (try_err-Returns Stands
                  (call-Returns (other.move_to_retry_queue_lem d mine)
                    (live.move_to_retry_queue_lem d))
                  fail-Returns (fail-Returns e))))

  handle_successful_processing-Returns :
      (q : QueueMessage) (id' : ObjectId)
      → Returns Stands (Service.handle_successful_processing s q id')
  unfolding Service.handle_successful_processing
  handle_successful_processing-Returns q id' =
      try_err-Returns Stands
        (call-Returns (other.mark_as_processed_lem q.id) (live.mark_as_processed_lem q.id))
        fail-Returns
        (try_err-Returns Stands (update-Returns id' sent (λ e. cc)) fail-Returns
          (pure-Returns Stands none))

  recorded-Returns :
      (q : QueueMessage) (id' : ObjectId) (x : Option String)
      → Returns Stands (elim x as (λ _. Exec W Err) [
        | none ↦ Service.handle_successful_processing s q id'
        | some w ↦
            s.idempotency_service.store_webhook_message_id q.id w (24 * hour)
            >> Service.handle_successful_processing s q id'
      ])
  recorded-Returns q id' none = handle_successful_processing-Returns q id'
  recorded-Returns q id' (some w) =
      then-Returns Stands
        (call-Returns (other.store_webhook_message_id_lem q.id w (24 * hour))
          (live.store_webhook_message_id_lem q.id w (24 * hour)))
        (handle_successful_processing-Returns q id')

  record_webhook_response-Returns :
      (q : QueueMessage) (id' : ObjectId) (r : Option WebhookResponse)
      → Returns Stands (Service.record_webhook_response s q id' r)
  unfolding Service.record_webhook_response
  record_webhook_response-Returns q id' r = recorded-Returns q id' (Service.has_message_id r)

  should_process_message-Returns :
      (m : Message) → Returns Stands (should_process_message s.platform.now s.processor (some m))
  unfolding should_process_message
  should_process_message-Returns m =
      if-Returns Stands (leb_ℤ s.processor.max_retries m.retry_count) (pure-Returns Stands _) (
        bind-Returns Stands s.platform.now _ (call-Returns other.now_lem live.now_lem)
          λ at. pure-Returns Stands _)

  deliver_message-Returns :
      (d : Delivery) (q : QueueMessage) (id' : ObjectId) (m : Message)
      → InHand d
      → m.id ≡ id
      → Returns Stands (Service.deliver_message s d q id' (some m))
  unfolding Service.deliver_message Service.handle_stale_message Service.handle_max_retries_reached
  deliver_message-Returns d q id' m mine named =
      bind-Returns Stands _ _ (should_process_message-Returns m) λ result.
        if-Returns Stands (not result.success)
          (if-Returns Stands result.is_stale
            (dead_letter-Returns d m.id (error_text "message is stale") mine)
            (dead_letter-Returns d m.id (error_text "message reached max retry count") mine))
          (try-Returns Stands
            (call-Returns (other.send_message_lem m.content m.to)
              (live.send_message_lem m.content m.to))
            (λ e. handle_webhook_error-Returns d m e mine named)
            (record_webhook_response-Returns q id'))

  handle_queue_message-Returns :
      (d : Delivery) (q : QueueMessage)
      → InHand d
      → s.platform.object_id_from_hex q.id ≡ ok id
      → Returns Stands (Service.handle_queue_message s d q)
  unfolding Service.handle_queue_message Service.handle_duplicate_message
  handle_queue_message-Returns d q mine hex =
      try-Returns Stands (call-Returns (other.is_processed_lem q.id) (live.is_processed_lem q.id))
        (λ e. nack-Returns d e mine)
        λ processed.
          if-Returns Stands processed
            (rw (hex, Service.handle_duplicate_message)
              (then-Returns Stands (update-Returns id duplicate (λ e. cc))
                (pure-Returns Stands none)))
            (rw hex (
              found-Returns Stands _ (λ m. m.id ≡ id)
                (call-Returns (repo.get_by_id_lem id) (live.get_by_id_lem id))
                (λ w u stands e.
                  let (n, there, named) = stands in (n, live.read_lem id w u e ∙ there, named))
                (λ e. nack-Returns d e mine)
                (λ m named. deliver_message-Returns d q id m mine named)))

  -- The delivery decodes to a queue message with this id.
  pub process_message-Returns :
      (d : Delivery) (q : QueueMessage)
      → InHand d
      → s.platform.unmarshal d.body ≡ ok q
      → s.platform.object_id_from_hex q.id ≡ ok id
      → Returns Stands (Service.process_message s d)
  unfolding Service.process_message Service.handle_message_processing
  process_message-Returns d q mine decoded hex =
      let handled : Returns Stands (Service.handle_message_processing s d empty_queue_message) =
        rw (decoded, Service.handle_message_processing)
          (handle_queue_message-Returns d q mine hex) in
      let logged =
        try_err-Returns Stands handled (λ e. fail-Returns (errorf "failed to process message" e))
          (pure-Returns Stands none) in
      if-Returns Stands (ltb 0 d.delivery_tag)
        (then-Returns Stands (call-Returns (other.ack_lem d false) (live.ack_lem d)) logged) logged
