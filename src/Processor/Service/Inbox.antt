-- ===== src/Processor/Service/Inbox.antt =====
-- Idempotency: the marks of the inbox and the calls of the webhook.
use reliable_messaging_syste.Prelude.{◌≡◌, ◌⊎◌, String, false, none, some, List, [], ◌∷◌, arith}
use reliable_messaging_syste.Effects.{ok}
use reliable_messaging_syste.Contracts.{Delivery}
use reliable_messaging_syste.Processor.Domain.{MessageProcessor}
use reliable_messaging_syste.Processor.Service.{
  Input, handle_webhook_error, record_webhook_response, deliver_message, handle_queue_message,
  handle_message_processing, process_message, serve,
}
use reliable_messaging_syste.Processor.Service.Loops.{serve_inv}
use reliable_messaging_syste.Processor.Service.Traced.{traced_service}
use reliable_messaging_syste.Trace.{
  Env, Trace, clock_read, checked, fetched, webhook_called, marked,
}

-- The id has been marked without an error.
abbrev pub Marked : String → Trace → Type 0
Marked id [] = ⊥
Marked id (marked other none ∷ t) = (other ≡ id) ⊎ Marked id t
Marked id (_ ∷ t) = Marked id t

-- What the port promises: a marked id is not reported as new.
abbrev pub KeepsMarks : Env → Type 0
KeepsMarks env = (t : Trace) (id : String) → env.is_processed t id ≡ ok false → ¬ Marked id t

module _ (env : Env) where
  -- A message with this text was fetched, and the id that the inbox was asked about just before is
  -- its queue id and had not been marked by then.
  abbrev CallIsFresh : String → String → Trace → Type 0
  CallIsFresh content to (clock_read _ ∷ fetched id (ok (some m)) ∷ checked queue_id _ ∷ t) =
      (¬ Marked queue_id t)
      × (env.object_id_from_hex queue_id ≡ ok id)
      × (m.content ≡ content)
      × (m.to ≡ to)
  CallIsFresh content to _ = ⊥

  abbrev pub NoCallAfterMark : Trace → Type 0
  NoCallAfterMark [] = Unit
  NoCallAfterMark (webhook_called content to _ ∷ t) = CallIsFresh content to t × NoCallAfterMark t
  NoCallAfterMark (_ ∷ t) = NoCallAfterMark t

  -- The same of the inbox's answer at that time.
  abbrev CallIsChecked : String → String → Trace → Type 0
  CallIsChecked content to (clock_read _ ∷ fetched id (ok (some m)) ∷ checked queue_id _ ∷ t) =
      (env.is_processed t queue_id ≡ ok false)
      × (env.object_id_from_hex queue_id ≡ ok id)
      × (m.content ≡ content)
      × (m.to ≡ to)
  CallIsChecked content to _ = ⊥

  abbrev CallsChecked : Trace → Type 0
  CallsChecked [] = Unit
  CallsChecked (webhook_called content to _ ∷ t) = CallIsChecked content to t × CallsChecked t
  CallsChecked (_ ∷ t) = CallsChecked t

  process_message-CallsChecked :
      (p : MessageProcessor) (d : Delivery) (t : Trace)
      → CallsChecked t
      → CallsChecked (process_message (traced_service env p) d t).1
  unfolding process_message handle_message_processing handle_queue_message deliver_message
      handle_webhook_error record_webhook_response
  process_message-CallsChecked p d t h = ground arith

  module _ (keeps : KeepsMarks env) where
    CallIsFresh-of_checked :
        (content to : String) (t : Trace) → CallIsChecked content to t → CallIsFresh content to t
    CallIsFresh-of_checked content to
          (clock_read _ ∷ fetched id (ok (some m)) ∷ checked queue_id _ ∷ t) h =
        (keeps t queue_id h.0, h.1, h.2, h.3)
    CallIsFresh-of_checked content to _ h = absurd h

    NoCallAfterMark-of_checked : (t : Trace) → CallsChecked t → NoCallAfterMark t
    NoCallAfterMark-of_checked [] h = tt
    NoCallAfterMark-of_checked (webhook_called content to _ ∷ t) h =
        (CallIsFresh-of_checked content to t h.0, NoCallAfterMark-of_checked t h.1)
    NoCallAfterMark-of_checked (_ ∷ t) h = NoCallAfterMark-of_checked t h

    -- While the inbox keeps its marks, each webhook call in a run of the worker is for the text and
    -- recipient of the message that was fetched two calls before. The queue id that the inbox was
    -- asked about just before that is the id of this message, and it had not been marked as
    -- processed without an error by then.
    pub serve-NoCallAfterMark :
        (p : MessageProcessor) (inputs : List Input)
        → NoCallAfterMark (serve (traced_service env p) inputs []).1
    serve-NoCallAfterMark p inputs =
        NoCallAfterMark-of_checked (serve (traced_service env p) inputs []).1 (
          serve_inv (traced_service env p) CallsChecked (process_message-CallsChecked p) inputs []
            tt)
