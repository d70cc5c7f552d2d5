-- ===== src/Processor/Service/Spinning.antt =====
-- The loop of the worker on a channel of deliveries that is closed.
use reliable_messaging_syste.Prelude.{ℕ, zero, suc, ◌≡◌, refl, some, List, [], ◌∷◌, arith}
use reliable_messaging_syste.Effects.{Error, errorf, err, returns}
use reliable_messaging_syste.Processor.Domain.{MessageProcessor}
use reliable_messaging_syste.Processor.Service.{
  Input, channel_closed, zero_delivery, handle_malformed_message, handle_message_processing,
  process_message, serve,
}
use reliable_messaging_syste.Processor.Service.Traced.{traced_service}
use reliable_messaging_syste.Trace.{Env, Trace, dead_lettered}

-- So many receives from the closed channel.
abbrev pub closed_receives : ℕ → List Input
closed_receives zero = []
closed_receives (suc n) = channel_closed ∷ closed_receives n

-- The history after `n` dead letters, each of the zero delivery, and no other call.
abbrev pub letters_trace : Env → ℕ → Trace → Trace
letters_trace env zero t = t
letters_trace env (suc n) t =
    letters_trace env n (dead_lettered zero_delivery (env.move_to_dead_letter t zero_delivery) ∷ t)

module _ (env : Env) (p : MessageProcessor) where
  process_message-zero_delivery :
      (e : Error) (t : Trace)
      → env.unmarshal [] ≡ err e
      → process_message (traced_service env p) zero_delivery t ≡ (
        returns (some (errorf "failed to process message" e)),
        dead_lettered zero_delivery (env.move_to_dead_letter t zero_delivery) ∷ t,
      )
  unfolding process_message handle_message_processing handle_malformed_message
  process_message-zero_delivery e t malformed = ground (arith, malformed)

  -- Once the channel of deliveries is closed, and if an empty body does not decode, then whatever
  -- the broker answers, each turn of the loop is one dead letter of the zero delivery and no other
  -- call, for any number of turns: the loop does not end by itself.
  pub serve-closed_receives :
      (e : Error) (n : ℕ) (t : Trace)
      → env.unmarshal [] ≡ err e
      → serve (traced_service env p) (closed_receives n) t ≡ (returns tt, letters_trace env n t)
  unfolding serve
  serve-closed_receives e zero t malformed = refl
  serve-closed_receives e (suc n) t malformed = ground (
    arith,
    process_message-zero_delivery e t malformed,
    serve-closed_receives e n
        (dead_lettered zero_delivery (env.move_to_dead_letter t zero_delivery) ∷ t) malformed,
  )
