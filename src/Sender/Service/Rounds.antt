-- ===== src/Sender/Service/Rounds.antt =====
-- A round of the scheduler against a description of what it does to the history.
use reliable_messaging_syste.Prelude.{◌≡◌, refl, inl, inr, none, some, List, [], ◌∷◌, arith}
use reliable_messaging_syste.Effects.{
  Result, ok, err, Err, returns, Outcome, Result-cases, errorf, for_each,
}
use reliable_messaging_syste.Models.{Message, processing}
use reliable_messaging_syste.Sender.Domain.{MessageSender}
use reliable_messaging_syste.Sender.Service.{
  queue_message_of, handle_message, process_unsent_messages,
}
use reliable_messaging_syste.Sender.Service.Traced.{traced_service}
use reliable_messaging_syste.Trace.{Env, Trace, published, status_set, unsent_listed}

module _ (env : Env) (sender : MessageSender) where
  -- The status is set only if the queue took the message.
  abbrev after_publication : Message → Err → Trace → Trace
  after_publication m none t = status_set m.id processing (env.update_status t m.id processing) ∷ t
  after_publication m (some _) t = t

  abbrev message_trace : Message → Trace → Trace
  message_trace m t =
      let q = queue_message_of (traced_service env sender) m in
      let r : Err = env.publish_message t q in after_publication m r (published q r ∷ t)

  -- One message after the other, in the order of the list.
  abbrev messages_trace : List Message → Trace → Trace
  messages_trace [] t = t
  messages_trace (m ∷ ms) t = messages_trace ms (message_trace m t)

  -- What a round adds to the history, and its result.
  abbrev pub round : Result (List Message) → Trace → Outcome Err × Trace
  round (err e) t = (returns (some (errorf "failed to find unsent messages" e)), t)
  round (ok ms) t = (returns none, messages_trace ms t)

  for_each-trace :
      (ms : List Message) (t : Trace)
      → for_each ms (handle_message (traced_service env sender)) t
        ≡ (returns tt, messages_trace ms t)
  unfolding for_each handle_message
  for_each-trace [] t = refl
  for_each-trace (m ∷ ms) t = ground (arith, for_each-trace ms (message_trace m t))

  -- Whatever the repository and the queue answer, a round asks once for the unsent messages, up to
  -- the size of a batch. If that fails, it reports the error and does nothing else. If not, it
  -- publishes each message that was found, in this order, sets each that the queue took to
  -- `processing` before it goes on to the next, whatever failed before, and reports no error.
  pub process_unsent_messages-eq-round :
      (t : Trace)
      → let found : Result (List Message) = env.find_unsent_messages t sender.batch_size in
        process_unsent_messages (traced_service env sender) t
        ≡ round found (unsent_listed sender.batch_size found ∷ t)
  unfolding process_unsent_messages
  process_unsent_messages-eq-round t =
      let n = sender.batch_size in
      elim (Result-cases (env.find_unsent_messages t n)) [
        | inr (e, unread) ↦ ground (arith, unread)
        | inl (ms, found) ↦ ground (arith, found, for_each-trace ms (unsent_listed n (ok ms) ∷ t))
      ]
