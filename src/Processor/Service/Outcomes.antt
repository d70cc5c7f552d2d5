-- ===== src/Processor/Service/Outcomes.antt =====
-- How the handling of one delivery ends, and where the delivery is then.
use reliable_messaging_syste.Prelude.{
  refl, ◌⊎◌, ◌≡◌, ◌≢◌, String, true, Option, none, some, [], ◌∷◌, arith,
}
use reliable_messaging_syste.Effects.{
  Error, ok, err, Err, Exec, Outcome, returns, panics, errorf, try_err, fail, nil,
}
use reliable_messaging_syste.Models.{ObjectId, Message, sent, failed, duplicate}
use reliable_messaging_syste.Contracts.{QueueMessage, empty_queue_message, Delivery}
use reliable_messaging_syste.Ports.{WebhookResponse}
use reliable_messaging_syste.Processor.Domain.{MessageProcessor}
use reliable_messaging_syste.Processor.Service.{
  handle_webhook_error, record_webhook_response, deliver_message, handle_queue_message,
  handle_message_processing, process_message,
}
use reliable_messaging_syste.Processor.Service.Traced.{traced_service}
use reliable_messaging_syste.Trace.{
  Env, Trace, Event, acked, nacked, checked, marked, fetched, status_set, retry_counted,
  dead_lettered, moved_to_retry,
}

module _ (env : Env) where
  -- The body of the delivery decodes to a queue message with this id.
  abbrev IsQueueId : Delivery → String → Type 0
  IsQueueId d queue_id = elim (env.unmarshal d.body) [ ok q ↦ q.id ≡ queue_id | err e ↦ ⊥ ]

  -- This id, in turn, is the text of the object id.
  abbrev IsIdOf : Delivery → String → ObjectId → Type 0
  IsIdOf d queue_id id = IsQueueId d queue_id × (env.object_id_from_hex queue_id ≡ ok id)

  -- A write was refused, or the delivery's id is marked as processed although it is no object id.
  abbrev WriteFailed : Delivery → Event → Type 0
  WriteFailed d (retry_counted _ (some _)) = Unit
  WriteFailed d (status_set _ _ (some _)) = Unit
  WriteFailed d (marked queue_id (some _)) = IsQueueId d queue_id
  WriteFailed d (checked queue_id (ok true)) =
      IsQueueId d queue_id
      × (elim (env.object_id_from_hex queue_id) [ ok id ↦ ⊥ | err e ↦ Unit {0} ])
  WriteFailed d _ = ⊥

  -- The inbox or the repository could not tell of the delivery's id.
  abbrev ReadFailed : Delivery → Trace → Type 0
  ReadFailed d (checked queue_id (err _) ∷ t) = IsQueueId d queue_id
  ReadFailed d (fetched id (err _) ∷ checked queue_id _ ∷ t) = IsIdOf d queue_id id
  ReadFailed d _ = ⊥

  -- The delivery was offered to the dead-letter queue or the retry queue, which may have refused it.
  abbrev Offered : Delivery → Trace → Type 0
  Offered d (dead_lettered d' _ ∷ t) = d' ≡ d
  Offered d (moved_to_retry d' _ ∷ t) = d' ≡ d
  Offered d _ = ⊥

  abbrev EndsErr : Delivery → Trace → Type 0
  EndsErr d (nacked d' requeue _ ∷ t) = (d' ≡ d) × (requeue ≡ true) × ReadFailed d t
  EndsErr d (status_set id st r ∷ t) = ((st ≡ failed) × Offered d t) ⊎ (r ≢ none)
  EndsErr d (fetched id (err _) ∷ t) = Unit
  EndsErr d (e ∷ t) = WriteFailed d e ⊎ Offered d (e ∷ t)
  EndsErr d [] = ⊥

  abbrev EndsOk : Delivery → Trace → Type 0
  EndsOk d (status_set id st r ∷ marked queue_id r' ∷ t) =
      (st ≡ sent) × (r ≡ none) × (r' ≡ none) × IsIdOf d queue_id id
  EndsOk d (status_set id st _ ∷ checked queue_id r ∷ t) =
      (st ≡ duplicate) × (r ≡ ok true) × IsIdOf d queue_id id
  EndsOk d _ = ⊥

  abbrev EndsPanic : Trace → Type 0
  EndsPanic (fetched _ r ∷ t) = r ≡ ok none
  EndsPanic _ = ⊥

  abbrev pub Ends : Delivery → Outcome Err → Trace → Type 0
  Ends d (returns none) t = EndsOk d t
  Ends d (returns (some _)) t = EndsErr d t
  Ends d panics t = EndsPanic t

module _ (env : Env) (p : MessageProcessor) where
  handle_webhook_error-Ends :
      (d : Delivery) (m : Message) (e : Error) (t : Trace)
      → let (out, t') = handle_webhook_error (traced_service env p) d m e t in Ends env d out t'
  unfolding handle_webhook_error
  handle_webhook_error-Ends d m e t = ground arith

  record_webhook_response-Ends :
      (d : Delivery) (q : QueueMessage) (id : ObjectId) (r : Option WebhookResponse) (t : Trace)
      → env.unmarshal d.body ≡ ok q
      → env.object_id_from_hex q.id ≡ ok id
      → let (out, t') = record_webhook_response (traced_service env p) q id r t in Ends env d out t'
  unfolding record_webhook_response
  record_webhook_response-Ends d q id r t decoded hex = ground arith

  deliver_message-Ends :
      (d : Delivery) (q : QueueMessage) (id : ObjectId) (t : Trace) (r : Option Message)
      → env.unmarshal d.body ≡ ok q
      → env.object_id_from_hex q.id ≡ ok id
      → let (out, t') = deliver_message (traced_service env p) d q id r (fetched id (ok r) ∷ t) in
        Ends env d out t'
  unfolding deliver_message
  deliver_message-Ends d q id t none decoded hex = refl
  deliver_message-Ends d q id t (some m) decoded hex =
      grind (arith, handle_webhook_error-Ends, record_webhook_response-Ends)

  handle_queue_message-Ends :
      (d : Delivery) (q : QueueMessage) (t : Trace)
      → env.unmarshal d.body ≡ ok q
      → let (out, t') = handle_queue_message (traced_service env p) d q t in Ends env d out t'
  unfolding handle_queue_message
  handle_queue_message-Ends d q t decoded = grind (arith, deliver_message-Ends)

  handle_message_processing-Ends :
      (d : Delivery) (q : QueueMessage) (t : Trace)
      → let (out, t') = handle_message_processing (traced_service env p) d q t in Ends env d out t'
  unfolding handle_message_processing
  handle_message_processing-Ends d q t = grind (arith, handle_queue_message-Ends)

  wrapped-Ends :
      (d : Delivery) (text : String) (m : Exec Trace Err) (t : Trace)
      → let (out, t') = m t in
        Ends env d out t'
        → let (out, t') = try_err m (λ e. fail (errorf text e)) nil t in Ends env d out t'
  wrapped-Ends d text m t h = ground arith

  -- How the handling of a delivery ends, whatever the stores answered. Without an error: its last
  -- two calls marked the delivery's queue id and set the object of this id to `sent`, both without
  -- an error, or found the queue id processed and set the object to `duplicate`. With an error: its
  -- last call was a Nack with requeue after a reading that failed; or it offered the delivery to the
  -- dead-letter or the retry queue, taken or not, perhaps just before the status `failed` was set; or
  -- it was a read or a write that failed, or found a queue id processed that is no object id. With a
  -- panic: it found no message.
  pub process_message-Ends :
      (d : Delivery) (t : Trace)
      → let (r, t') = process_message (traced_service env p) d t in Ends env d r t'
  unfolding process_message
  process_message-Ends d t = ground (
    arith,
    wrapped-Ends d "failed to process message"
        (handle_message_processing (traced_service env p) d empty_queue_message) t
        (handle_message_processing-Ends d empty_queue_message t),
    wrapped-Ends d "failed to process message"
        (handle_message_processing (traced_service env p) d empty_queue_message)
        (acked d (env.ack t d) ∷ t)
        (handle_message_processing-Ends d empty_queue_message (acked d (env.ack t d) ∷ t)),
  )
