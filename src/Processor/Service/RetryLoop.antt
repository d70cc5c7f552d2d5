-- ===== src/Processor/Service/RetryLoop.antt =====
-- The loop through the retry queue: how often a message goes round.
use reliable_messaging_syste.Prelude.{
  ℕ, ◌+◌, ◌≡◌, ◌≤◌, Bool, false, Option, none, some, List, [], ◌∷◌, pos, ◌==◌, if◌then◌else◌, arith,
}
use reliable_messaging_syste.Effects.{ok, err}
use reliable_messaging_syste.Models.{ObjectId}
use reliable_messaging_syste.Contracts.{Delivery}
use reliable_messaging_syste.Processor.Domain.{MessageProcessor}
use reliable_messaging_syste.Processor.Service.{
  Input, handle_webhook_error, record_webhook_response, deliver_message, handle_queue_message,
  handle_message_processing, process_message, serve,
}
use reliable_messaging_syste.Processor.Service.Loops.{serve_inv}
use reliable_messaging_syste.Processor.Service.Retries.{
  retries, CountsRetries, FindsById, serve-retries-le,
}
use reliable_messaging_syste.Processor.Service.Traced.{traced_service}
use reliable_messaging_syste.Trace.{
  Env, Trace, clock_read, fetched, webhook_called, retry_counted, status_set, moved_to_retry,
}

module _ (env : Env) where
  -- The stored message that a delivery is about, if its body decodes and its id is an object id.
  abbrev pub message_of : Delivery → Option ObjectId
  message_of d = elim (env.unmarshal d.body) [
    | err _ ↦ none
    | ok q ↦ elim (env.object_id_from_hex q.id) [ err _ ↦ none | ok id ↦ some id ]
  ]

  abbrev is_about : ObjectId → Option ObjectId → Bool
  is_about id none = false
  is_about id (some j) = j == id

  -- The moves to the retry queue of deliveries about this message.
  abbrev pub retry_moves : ObjectId → Trace → ℕ
  retry_moves id [] = 0
  retry_moves id (moved_to_retry d _ ∷ t) =
      (if is_about id (message_of d) then 1 else 0) + retry_moves id t
  retry_moves id (_ ∷ t) = retry_moves id t

  -- The count of the same message was raised, without an error, for this move and no other.
  abbrev MayMove : Delivery → Trace → Type 0
  MayMove d
        (fetched _ _
          ∷ status_set _ _ _
          ∷ retry_counted j none
          ∷ webhook_called _ _ _
          ∷ clock_read _
          ∷ fetched id (ok (some m))
          ∷ t) =
      (env.get_by_id t id ≡ ok (some m)) × (message_of d ≡ some id) × (j ≡ m.id)
  MayMove d _ = ⊥

  abbrev MovesCounted : Trace → Type 0
  MovesCounted [] = Unit
  MovesCounted (moved_to_retry d _ ∷ t) = MayMove d t × MovesCounted t
  MovesCounted (_ ∷ t) = MovesCounted t

  process_message-MovesCounted :
      (p : MessageProcessor) (d : Delivery) (t : Trace)
      → MovesCounted t
      → MovesCounted (process_message (traced_service env p) d t).1
  unfolding process_message handle_message_processing handle_queue_message deliver_message
      handle_webhook_error record_webhook_response
  process_message-MovesCounted p d t h = ground arith

  module _ (finds : FindsById env) where
    retry_moves-le : (id : ObjectId) (t : Trace) → MovesCounted t → retry_moves id t ≤ retries id t
    retry_moves-le id [] h = omega arith
    retry_moves-le id
          (moved_to_retry d _
            ∷ fetched _ _
            ∷ status_set _ _ _
            ∷ retry_counted j none
            ∷ webhook_called _ _ _
            ∷ clock_read _
            ∷ fetched k (ok (some m))
            ∷ t)
          h =
        ground (arith, finds t k m h.0.0, retry_moves-le id t h.1)
    retry_moves-le id (moved_to_retry d r ∷ t) h = absurd h.0
    retry_moves-le id (retry_counted j none ∷ t) h = ground (arith, retry_moves-le id t h)
    retry_moves-le id (_ ∷ t) h = retry_moves-le id t h

    -- If the limit is `n`, a message that is read has the id that was asked for, and its retry count
    -- is at least the number of successful increments, then every run of the worker moves deliveries
    -- about one message to the retry queue at most `n` times, so that the loop of a message through
    -- the retry queue ends.
    pub serve-retry_moves-le :
        (p : MessageProcessor) (n : ℕ)
        → p.max_retries ≡ pos n
        → CountsRetries env
        → (inputs : List Input) (id : ObjectId)
        → retry_moves id (serve (traced_service env p) inputs []).1 ≤ n
    serve-retry_moves-le p n limit counts inputs id =
        let t : Trace = (serve (traced_service env p) inputs []).1 in
        let counted : MovesCounted t =
          serve_inv (traced_service env p) MovesCounted (process_message-MovesCounted p) inputs []
            tt in
        omega (
          arith,
          retry_moves-le id t counted,
          serve-retries-le env p n limit counts finds inputs id,
        )
