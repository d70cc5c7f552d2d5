-- ===== src/Processor/Service/Sweeps.antt =====
-- A stale check against a description of what it does to the history.
use reliable_messaging_syste.Prelude.{
  ◌≡◌, ◌≢◌, ◌*◌, refl, inl, inr, none, some, List, [], ◌∷◌, arith,
}
use reliable_messaging_syste.Effects.{
  Result, ok, err, Err, returns, panics, Outcome, Result-cases, errorf, for_each,
}
use reliable_messaging_syste.Models.{Bytes, Message, failed, minute}
use reliable_messaging_syste.Contracts.{Delivery, delivery_of}
use reliable_messaging_syste.Processor.Domain.{MessageProcessor}
use reliable_messaging_syste.Processor.Service.{handle_stale_message_recovery, check_stale_messages}
use reliable_messaging_syste.Processor.Service.Stale.{stale_queue_message}
use reliable_messaging_syste.Processor.Service.Traced.{traced_service}
use reliable_messaging_syste.Trace.{Env, Trace, dead_lettered, status_set, stale_listed}

module _ (env : Env) (p : MessageProcessor) where
  -- The status is set only if the broker took the dead letter.
  abbrev after_dead_letter : Message → Err → Trace → Trace
  after_dead_letter m none t = status_set m.id failed (env.update_status t m.id failed) ∷ t
  after_dead_letter m (some _) t = t

  -- A message that cannot be encoded is passed over.
  abbrev letter_trace : Message → Result Bytes → Trace → Trace
  letter_trace m (err _) t = t
  letter_trace m (ok body) t =
      let d : Delivery = delivery_of body in
      let r : Err = env.move_to_dead_letter t d in after_dead_letter m r (dead_lettered d r ∷ t)

  abbrev recoveries_trace : List Message → Trace → Trace
  recoveries_trace [] t = t
  recoveries_trace (m ∷ ms) t =
      recoveries_trace ms (letter_trace m (env.marshal (stale_queue_message env m)) t)

  -- What a check adds to the history, and its result.
  abbrev pub sweep : Result (List Message) → Trace → Outcome Err × Trace
  sweep (err e) t = (returns (some (errorf "failed to find stale messages" e)), t)
  sweep (ok ms) t = (returns none, recoveries_trace ms t)

  recovery-trace :
      (m : Message) (t : Trace)
      → let (r, t') = handle_stale_message_recovery (traced_service env p) m t in
        (r ≢ panics) × (t' ≡ letter_trace m (env.marshal (stale_queue_message env m)) t)
  unfolding handle_stale_message_recovery
  recovery-trace m t = ground arith

  for_each-trace :
      (ms : List Message) (t : Trace)
      → for_each ms (handle_stale_message_recovery (traced_service env p)) t
        ≡ (returns tt, recoveries_trace ms t)
  unfolding for_each
  for_each-trace [] t = refl
  for_each-trace (m ∷ ms) t = ground (
    arith,
    recovery-trace m t,
    for_each-trace ms (letter_trace m (env.marshal (stale_queue_message env m)) t),
  )

  -- Whatever the repository, the codec and the broker answer, a stale check asks once for the
  -- messages that have been stale for four minutes. If that fails, it reports the error and does
  -- nothing else. If not, it tries one dead letter for each message that was found and that can be
  -- encoded, with the id, the text and the retry count but no recipient, in this order, sets each
  -- message whose dead letter the broker took to `failed` before it goes on to the next, whatever
  -- failed before, and reports no error.
  pub check_stale_messages-eq-sweep :
      (t : Trace)
      → let found : Result (List Message) = env.find_stale_processing_messages t (4 * minute) in
        check_stale_messages (traced_service env p) t
        ≡ sweep found (stale_listed (4 * minute) found ∷ t)
  unfolding check_stale_messages
  check_stale_messages-eq-sweep t =
      let age = 4 * minute in
      elim (Result-cases (env.find_stale_processing_messages t age)) [
        | inr (e, unread) ↦ ground (arith, unread)
        | inl (ms, found) ↦ ground (arith, found, for_each-trace ms (stale_listed age (ok ms) ∷ t))
      ]
