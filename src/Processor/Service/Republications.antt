-- ===== src/Processor/Service/Republications.antt =====
-- How many messages the handling of deliveries puts into the queues.
use reliable_messaging_syste.Prelude.{ℕ, suc, ◌+◌, ◌≤◌, List, [], ◌∷◌, length, arith}
use reliable_messaging_syste.Contracts.{Delivery}
use reliable_messaging_syste.Processor.Domain.{MessageProcessor}
use reliable_messaging_syste.Processor.Service.{
  Input, message, channel_closed, zero_delivery, handle_webhook_error, record_webhook_response,
  deliver_message, handle_queue_message, handle_message_processing, process_message, serve,
}
use reliable_messaging_syste.Processor.Service.Traced.{traced_service}
use reliable_messaging_syste.Trace.{Env, Trace, dead_lettered, moved_to_retry}

-- The messages that were published again, to the retry or the dead-letter queue.
abbrev pub republished : Trace → ℕ
republished [] = 0
republished (dead_lettered _ _ ∷ t) = suc (republished t)
republished (moved_to_retry _ _ ∷ t) = suc (republished t)
republished (_ ∷ t) = republished t

module _ (env : Env) (p : MessageProcessor) where
  process_message-republished-le :
      (d : Delivery) (t : Trace)
      → republished (process_message (traced_service env p) d t).1 ≤ suc (republished t)
  unfolding process_message handle_message_processing handle_queue_message deliver_message
      handle_webhook_error record_webhook_response
  process_message-republished-le d t = ground arith

  serve_from :
      (inputs : List Input) (t : Trace)
      → republished (serve (traced_service env p) inputs t).1 ≤ length inputs + republished t
  unfolding serve
  serve_from [] t = omega arith
  serve_from (message d ∷ rest) t = ground (
    arith,
    process_message-republished-le d t,
    serve_from rest (process_message (traced_service env p) d t).1,
  )
  serve_from (channel_closed ∷ rest) t = ground (
    arith,
    process_message-republished-le zero_delivery t,
    serve_from rest (process_message (traced_service env p) zero_delivery t).1,
  )
  serve_from (Input.done ∷ rest) t = ground arith

  -- Whatever the stores and the broker answer, a run of the worker publishes at most as many
  -- messages again, to the retry or the dead-letter queue, as it was given inputs.
  pub serve-republished-le :
      (inputs : List Input) → republished (serve (traced_service env p) inputs []).1 ≤ length inputs
  serve-republished-le inputs = omega (arith, serve_from inputs [])
