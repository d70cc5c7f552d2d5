-- ===== src/Processor/Service/Retries.antt =====
-- Retries: the counting of failed calls, and the retry queue.
use reliable_messaging_syste.Prelude.{
  ℕ, suc, ◌≡◌, ◌≤◌, ◌<◌, true, false, none, some, List, [], ◌∷◌, ℤ, pos, leb_ℤ, ◌==◌, if◌then◌else◌,
  arith,
}
use reliable_messaging_syste.Effects.{ok, err}
use reliable_messaging_syste.Models.{ObjectId, Message, processing}
use reliable_messaging_syste.Contracts.{Delivery}
use reliable_messaging_syste.Processor.Domain.{MessageProcessor}
use reliable_messaging_syste.Processor.Service.{
  Input, handle_webhook_error, record_webhook_response, deliver_message, handle_queue_message,
  handle_message_processing, process_message, serve,
}
use reliable_messaging_syste.Processor.Service.Loops.{serve_inv}
use reliable_messaging_syste.Processor.Service.Traced.{traced_service}
use reliable_messaging_syste.Trace.{
  Env, Trace, clock_read, fetched, webhook_called, retry_counted, status_set, moved_to_retry,
}

-- The increments of the retry count of a message that succeeded.
abbrev pub retries : ObjectId → Trace → ℕ
retries id [] = 0
retries id (retry_counted other none ∷ t) = if other == id then suc (retries id t) else retries id t
retries id (_ ∷ t) = retries id t

-- What the port promises: the count that is read is at least the increments that succeeded.
abbrev pub CountsRetries : Env → Type 0
CountsRetries env =
    (t : Trace) (id : ObjectId) (m : Message)
    → env.get_by_id t id ≡ ok (some m)
    → leb_ℤ (pos (retries id t)) m.retry_count ≡ true

-- A message that is found has the id that was asked for.
abbrev pub FindsById : Env → Type 0
FindsById env =
    (t : Trace) (id : ObjectId) (m : Message) → env.get_by_id t id ≡ ok (some m) → m.id ≡ id

lt_of_leb_ℤ : (a n : ℕ) (i : ℤ) → leb_ℤ (pos a) i ≡ true → leb_ℤ (pos n) i ≡ false → a < n
lt_of_leb_ℤ a n i h k = ground arith

module _ (env : Env) (p : MessageProcessor) where
  -- A retry is counted only after a failed call for this message, when the message that was read
  -- had attempts left.
  abbrev MayCount : ObjectId → Trace → Type 0
  MayCount id (webhook_called _ _ (err _) ∷ clock_read _ ∷ fetched other (ok (some m)) ∷ t) =
      (env.get_by_id t other ≡ ok (some m))
      × (m.id ≡ id)
      × (leb_ℤ p.max_retries m.retry_count ≡ false)
  MayCount id _ = ⊥

  abbrev RetriesCounted : Trace → Type 0
  RetriesCounted [] = Unit
  RetriesCounted (retry_counted id r ∷ t) = MayCount id t × RetriesCounted t
  RetriesCounted (_ ∷ t) = RetriesCounted t

  process_message-RetriesCounted :
      (d : Delivery) (t : Trace)
      → RetriesCounted t
      → RetriesCounted (process_message (traced_service env p) d t).1
  unfolding process_message handle_message_processing handle_queue_message deliver_message
      handle_webhook_error record_webhook_response
  process_message-RetriesCounted d t h = ground arith

  -- Before a delivery goes to the retry queue, the count has been raised, the status has been set,
  -- and the message has been read again with attempts left.
  abbrev MayRetry : Trace → Type 0
  MayRetry
        (fetched id (ok (some m)) ∷ status_set id' processing none ∷ retry_counted id'' none ∷ t) =
      leb_ℤ p.max_retries m.retry_count ≡ false
  MayRetry _ = ⊥

  abbrev pub RetriesGuarded : Trace → Type 0
  RetriesGuarded [] = Unit
  RetriesGuarded (moved_to_retry _ _ ∷ t) = MayRetry t × RetriesGuarded t
  RetriesGuarded (_ ∷ t) = RetriesGuarded t

  process_message-RetriesGuarded :
      (d : Delivery) (t : Trace)
      → RetriesGuarded t
      → RetriesGuarded (process_message (traced_service env p) d t).1
  unfolding process_message handle_message_processing handle_queue_message deliver_message
      handle_webhook_error record_webhook_response
  process_message-RetriesGuarded d t h = ground arith

  -- In every run of the worker, a delivery is moved to the retry queue only directly after a retry
  -- was counted, a status was set to `processing`, both without an error, and a message was read
  -- whose retry count is below the limit.
  pub serve-RetriesGuarded :
      (inputs : List Input) → RetriesGuarded (serve (traced_service env p) inputs []).1
  serve-RetriesGuarded inputs =
      serve_inv (traced_service env p) RetriesGuarded process_message-RetriesGuarded inputs [] tt

  module _ (n : ℕ) (limit : p.max_retries ≡ pos n) (counts : CountsRetries env)
      (finds : FindsById env) where
    retries-lt_of_MayCount : (id : ObjectId) (t : Trace) → MayCount id t → retries id t < n
    retries-lt_of_MayCount id
          (webhook_called _ _ (err _) ∷ clock_read _ ∷ fetched other (ok (some m)) ∷ t) h =
        ground (
          arith,
          limit,
          finds t other m h.0,
          counts t other m h.0,
          lt_of_leb_ℤ (retries id t) n m.retry_count,
        )
    retries-lt_of_MayCount id _ h = absurd h

    retries-le : (id : ObjectId) (t : Trace) → RetriesCounted t → retries id t ≤ n
    retries-le id [] h = omega arith
    retries-le id (retry_counted other none ∷ t) h =
        ground (arith, retries-lt_of_MayCount id t, retries-le id t h.1)
    retries-le id (retry_counted other (some _) ∷ t) h = retries-le id t h.1
    retries-le id (_ ∷ t) h = retries-le id t h

    -- If the limit is `n`, a message that is read has the id that was asked for, and its retry count
    -- is at least the number of successful increments, then no run of the worker raises the retry
    -- count of any message more than `n` times.
    pub serve-retries-le :
        (inputs : List Input) (id : ObjectId)
        → retries id (serve (traced_service env p) inputs []).1 ≤ n
    serve-retries-le inputs id = retries-le id (serve (traced_service env p) inputs []).1 (
        serve_inv (traced_service env p) RetriesCounted process_message-RetriesCounted inputs [] tt)
