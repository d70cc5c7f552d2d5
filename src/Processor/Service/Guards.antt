-- ===== src/Processor/Service/Guards.antt =====
-- The checks before a call of the webhook.
use reliable_messaging_syste.Prelude.{◌≡◌, String, false, some, List, [], ◌∷◌, leb_ℤ, arith}
use reliable_messaging_syste.Effects.{ok}
use reliable_messaging_syste.Models.{ObjectId, Time}
use reliable_messaging_syste.Contracts.{Delivery}
use reliable_messaging_syste.Processor.Domain.{MessageProcessor, since_exceeds}
use reliable_messaging_syste.Processor.Service.{
  Input, handle_webhook_error, record_webhook_response, deliver_message, handle_queue_message,
  handle_message_processing, process_message, serve,
}
use reliable_messaging_syste.Processor.Service.Loops.{serve_inv}
use reliable_messaging_syste.Processor.Service.Traced.{traced_service}
use reliable_messaging_syste.Trace.{Env, Trace, clock_read, checked, fetched, webhook_called}

module _ (env : Env) (p : MessageProcessor) where
  -- The inbox answered that the queue id of this object is not processed.
  abbrev CheckedFresh : ObjectId → Trace → Type 0
  CheckedFresh id (checked queue_id (ok false) ∷ t) = env.object_id_from_hex queue_id ≡ ok id
  CheckedFresh id _ = ⊥

  -- The message was read after that, with attempts left, not stale at `now`, and with this text.
  abbrev FetchedAt : Time → String → String → Trace → Type 0
  FetchedAt now content to (fetched id (ok (some m)) ∷ t) =
      CheckedFresh id t
      × (m.content ≡ content)
      × (m.to ≡ to)
      × (leb_ℤ p.max_retries m.retry_count ≡ false)
      × (since_exceeds now m.updated_at p.stale_duration ≡ false)
  FetchedAt now content to _ = ⊥

  abbrev MayCall : String → String → Trace → Type 0
  MayCall content to (clock_read now ∷ t) = FetchedAt now content to t
  MayCall content to _ = ⊥

  abbrev pub CallsGuarded : Trace → Type 0
  CallsGuarded [] = Unit
  CallsGuarded (webhook_called content to r ∷ t) = MayCall content to t × CallsGuarded t
  CallsGuarded (_ ∷ t) = CallsGuarded t

  process_message-CallsGuarded :
      (d : Delivery) (t : Trace)
      → CallsGuarded t
      → CallsGuarded (process_message (traced_service env p) d t).1
  unfolding process_message handle_message_processing handle_queue_message deliver_message
      handle_webhook_error record_webhook_response
  process_message-CallsGuarded d t h = ground arith

  -- In every run of the worker, each call of the webhook comes directly after a reading of the
  -- clock, that after the reading of the message from the repository, and that after an answer of
  -- the inbox that its queue id is not processed. The message that was read has the text and the
  -- recipient of the call and attempts left, and it is not stale at the time that was read.
  pub serve-CallsGuarded :
      (inputs : List Input) → CallsGuarded (serve (traced_service env p) inputs []).1
  serve-CallsGuarded inputs =
      serve_inv (traced_service env p) CallsGuarded process_message-CallsGuarded inputs [] tt
