-- ===== src/Processor/Service/Completion.antt =====
-- The order in which a success is recorded.
use reliable_messaging_syste.Prelude.{◌≡◌, String, none, [], ◌∷◌, arith, List}
use reliable_messaging_syste.Effects.{ok}
use reliable_messaging_syste.Models.{ObjectId, sent}
use reliable_messaging_syste.Contracts.{Delivery}
use reliable_messaging_syste.Processor.Domain.{MessageProcessor}
use reliable_messaging_syste.Processor.Service.{
  Input, handle_webhook_error, record_webhook_response, deliver_message, handle_queue_message,
  handle_message_processing, process_message, serve,
}
use reliable_messaging_syste.Processor.Service.Loops.{serve_inv}
use reliable_messaging_syste.Processor.Service.Traced.{traced_service}
use reliable_messaging_syste.Trace.{
  Env, Trace, clock_read, checked, fetched, webhook_called, webhook_id_stored, marked, status_set,
}

module _ (env : Env) where
  -- The webhook accepted the message that the inbox and the repository were asked about.
  abbrev CalledFor : String → Trace → Type 0
  CalledFor queue_id (webhook_called _ _ (ok _) ∷ clock_read _ ∷ fetched id _ ∷ checked q _ ∷ t) =
      (q ≡ queue_id) × (env.object_id_from_hex queue_id ≡ ok id)
  CalledFor queue_id _ = ⊥

  abbrev MayMark : String → Trace → Type 0
  MayMark queue_id (webhook_id_stored q _ _ _ ∷ t) = (q ≡ queue_id) × CalledFor queue_id t
  MayMark queue_id (webhook_called c to r ∷ t) = CalledFor queue_id (webhook_called c to r ∷ t)
  MayMark queue_id _ = ⊥

  abbrev MaySetSent : ObjectId → Trace → Type 0
  MaySetSent id (marked queue_id none ∷ t) = env.object_id_from_hex queue_id ≡ ok id
  MaySetSent id _ = ⊥

  abbrev pub CompletionOrdered : Trace → Type 0
  CompletionOrdered [] = Unit
  CompletionOrdered (marked queue_id r ∷ t) = MayMark queue_id t × CompletionOrdered t
  CompletionOrdered (status_set id sent r ∷ t) = MaySetSent id t × CompletionOrdered t
  CompletionOrdered (_ ∷ t) = CompletionOrdered t

  process_message-CompletionOrdered :
      (p : MessageProcessor) (d : Delivery) (t : Trace)
      → CompletionOrdered t
      → CompletionOrdered (process_message (traced_service env p) d t).1
  unfolding process_message handle_message_processing handle_queue_message deliver_message
      handle_webhook_error record_webhook_response
  process_message-CompletionOrdered p d t h = ground arith

  -- In every run of the worker, an id is marked in the inbox only directly after the webhook has
  -- accepted its message, with at most the storing of the webhook's id between, and a message is set
  -- to `sent` only directly after the inbox has taken the mark of its id without an error.
  pub serve-CompletionOrdered :
      (p : MessageProcessor) (inputs : List Input)
      → CompletionOrdered (serve (traced_service env p) inputs []).1
  serve-CompletionOrdered p inputs =
      serve_inv (traced_service env p) CompletionOrdered (process_message-CompletionOrdered p)
        inputs [] tt
