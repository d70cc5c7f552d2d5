-- ===== src/Processor/Service/WebhookIds.antt =====
-- The ids that the webhook gives its messages.
use reliable_messaging_syste.Prelude.{
  ◌≡◌, ◌≢◌, ◌*◌, String, Option, none, some, Option-cases, inl, inr, List, [], ◌∷◌, arith,
}
use reliable_messaging_syste.Effects.{ok}
use reliable_messaging_syste.Models.{hour, ObjectId, Message}
use reliable_messaging_syste.Contracts.{QueueMessage, empty_queue_message, Delivery}
use reliable_messaging_syste.Ports.{WebhookResponse}
use reliable_messaging_syste.Processor.Domain.{MessageProcessor}
use reliable_messaging_syste.Processor.Service.{
  Input, handle_webhook_error, record_webhook_response, deliver_message, handle_queue_message,
  handle_message_processing, process_message, serve, has_message_id,
}
use reliable_messaging_syste.Processor.Service.Loops.{serve_inv}
use reliable_messaging_syste.Processor.Service.Traced.{traced_service}
use text.Mathlib.TextEquality.{eq_iff}
use reliable_messaging_syste.Trace.{
  Env, Trace, webhook_called, webhook_id_stored, marked, acked, fetched,
}

-- The webhook's response has this id, which is not empty.
abbrev GivesId : String → Option WebhookResponse → Type 0
GivesId webhook_id none = ⊥
GivesId webhook_id (some r) = (r.message_id ≡ webhook_id) × (webhook_id ≢ "")

-- It has no id, or an empty one.
abbrev GivesNoId : Option WebhookResponse → Type 0
GivesNoId none = Unit
GivesNoId (some r) = r.message_id ≡ ""

-- The webhook's id was offered to the inbox for a day under this queue id, directly after the call
-- that gave it; or the call before gave none.
abbrev IdOffered : String → Trace → Type 0
IdOffered queue_id (webhook_id_stored queue_id' webhook_id ttl _ ∷ webhook_called _ _ (ok r) ∷ t) =
    (queue_id' ≡ queue_id) × (ttl ≡ 24 * hour) × GivesId webhook_id r
IdOffered queue_id (webhook_called _ _ (ok r) ∷ t) = GivesNoId r
IdOffered queue_id _ = ⊥

abbrev pub IdsOffered : Trace → Type 0
IdsOffered [] = Unit
IdsOffered (marked queue_id _ ∷ t) = IdOffered queue_id t × IdsOffered t
IdsOffered (_ ∷ t) = IdsOffered t

GivesId-of_has_message_id :
    (webhook_id : String) (r : Option WebhookResponse)
    → has_message_id r ≡ some webhook_id
    → GivesId webhook_id r
GivesId-of_has_message_id webhook_id none h = cc
GivesId-of_has_message_id webhook_id (some r) h = ground (arith, h, eq_iff r.message_id "")

GivesNoId-of_has_message_id : (r : Option WebhookResponse) → has_message_id r ≡ none → GivesNoId r
GivesNoId-of_has_message_id none h = tt
GivesNoId-of_has_message_id (some r) h = ground (arith, h, eq_iff r.message_id "")

module _ (env : Env) (p : MessageProcessor) where
  record_webhook_response-IdsOffered :
      (q : QueueMessage) (id : ObjectId) (r : Option WebhookResponse) (content to : String)
      (t : Trace)
      → IdsOffered t
      → let t' : Trace = webhook_called content to (ok r) ∷ t in
        IdsOffered (record_webhook_response (traced_service env p) q id r t').1
  unfolding record_webhook_response
  record_webhook_response-IdsOffered q id r content to t h =
      elim (Option-cases (has_message_id r)) [
        | inl e ↦ ground (arith, e, GivesNoId-of_has_message_id r e)
        | inr (w, e) ↦ ground (arith, e, GivesId-of_has_message_id w r e)
      ]

  deliver_message-IdsOffered :
      (d : Delivery) (q : QueueMessage) (id : ObjectId) (r : Option Message) (t : Trace)
      → IdsOffered t
      → IdsOffered (deliver_message (traced_service env p) d q id r (fetched id (ok r) ∷ t)).1
  unfolding deliver_message handle_webhook_error
  deliver_message-IdsOffered d q id r t h = grind (arith, record_webhook_response-IdsOffered)

  handle_queue_message-IdsOffered :
      (d : Delivery) (q : QueueMessage) (t : Trace)
      → IdsOffered t
      → IdsOffered (handle_queue_message (traced_service env p) d q t).1
  unfolding handle_queue_message
  handle_queue_message-IdsOffered d q t h = grind (arith, deliver_message-IdsOffered)

  handle_message_processing-IdsOffered :
      (d : Delivery) (q : QueueMessage) (t : Trace)
      → IdsOffered t
      → IdsOffered (handle_message_processing (traced_service env p) d q t).1
  unfolding handle_message_processing
  handle_message_processing-IdsOffered d q t h = grind (arith, handle_queue_message-IdsOffered)

  process_message-IdsOffered :
      (d : Delivery) (t : Trace)
      → IdsOffered t
      → IdsOffered (process_message (traced_service env p) d t).1
  unfolding process_message
  process_message-IdsOffered d t h = ground (
    arith,
    handle_message_processing-IdsOffered d empty_queue_message t,
    handle_message_processing-IdsOffered d empty_queue_message (acked d (env.ack t d) ∷ t),
  )

  -- In every run of the worker, before each marking of a queue id as processed the webhook answered
  -- with success; and if its answer has an id that is not empty, then this id was handed to the
  -- inbox under the queue id for a day, directly between the answer and the marking.
  pub serve-IdsOffered :
      (inputs : List Input) → IdsOffered (serve (traced_service env p) inputs []).1
  serve-IdsOffered inputs =
      serve_inv (traced_service env p) IdsOffered process_message-IdsOffered inputs [] tt
