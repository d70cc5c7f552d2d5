-- ===== src/Sender/Service/Outbox.antt =====
-- The outbox: what a round of the scheduler publishes, and when it sets a message to `processing`.
use reliable_messaging_syste.Prelude.{
  ℕ, suc, ◌+◌, ◌≡◌, ◌≢◌, inl, inr, none, List, [], ◌∷◌, length, arith,
}
use reliable_messaging_syste.Effects.{ok, Result-cases, returns, panics, for_each, for_each_inv}
use reliable_messaging_syste.Models.{ObjectId, Message, processing}
use reliable_messaging_syste.Sender.Domain.{MessageSender}
use reliable_messaging_syste.Sender.Service.{
  Wake, tick, done, handle_message, process_unsent_messages, run,
}
use reliable_messaging_syste.Sender.Service.Traced.{traced_service}
use reliable_messaging_syste.Trace.{Env, Trace, published, status_set, unsent_listed}

-- The publications that were tried.
abbrev pub publications : Trace → ℕ
publications [] = 0
publications (published _ _ ∷ t) = suc (publications t)
publications (_ ∷ t) = publications t

module _ (env : Env) where
  -- The queue took the message with this id.
  abbrev PublishedLast : ObjectId → Trace → Type 0
  PublishedLast id (published q r ∷ t) = (r ≡ none) × (q.id ≡ env.hex id)
  PublishedLast id _ = ⊥

  abbrev pub StatusAfterPublication : Trace → Type 0
  StatusAfterPublication [] = Unit
  StatusAfterPublication (status_set id st _ ∷ t) =
      (st ≡ processing) × PublishedLast id t × StatusAfterPublication t
  StatusAfterPublication (_ ∷ t) = StatusAfterPublication t

module _ (env : Env) (sender : MessageSender) where
  handle_message-StatusAfterPublication :
      (m : Message) (t : Trace)
      → StatusAfterPublication env t
      → StatusAfterPublication env (handle_message (traced_service env sender) m t).1
  unfolding handle_message
  handle_message-StatusAfterPublication m t h = ground arith

  process-StatusAfterPublication :
      (t : Trace)
      → StatusAfterPublication env t
      → StatusAfterPublication env (process_unsent_messages (traced_service env sender) t).1
  unfolding process_unsent_messages
  process-StatusAfterPublication t h =
      elim (Result-cases (env.find_unsent_messages t sender.batch_size)) [
        | inr (e, unread) ↦ ground arith
        | inl (ms, found) ↦ ground (
          arith,
          for_each_inv (StatusAfterPublication env) (handle_message (traced_service env sender))
              handle_message-StatusAfterPublication ms (unsent_listed sender.batch_size (ok ms) ∷ t)
              h,
        )
      ]

  run-StatusAfterPublication_from :
      (wakes : List Wake) (t : Trace)
      → StatusAfterPublication env t
      → StatusAfterPublication env (run (traced_service env sender) wakes t).1
  unfolding run
  run-StatusAfterPublication_from [] t h = h
  run-StatusAfterPublication_from (tick ∷ rest) t h = ground (
    arith,
    process-StatusAfterPublication t h,
    run-StatusAfterPublication_from rest (process_unsent_messages (traced_service env sender) t).1,
  )
  run-StatusAfterPublication_from (done ∷ rest) t h = h

  -- Over any number of rounds, and whatever the stores answer, the only status that the scheduler
  -- sets is `processing`, and only directly after the queue took a message under the same id.
  pub run-StatusAfterPublication :
      (wakes : List Wake) → StatusAfterPublication env (run (traced_service env sender) wakes []).1
  run-StatusAfterPublication wakes = run-StatusAfterPublication_from wakes [] tt

  handle_message_publishes :
      (m : Message) (t : Trace)
      → let (r, t') = handle_message (traced_service env sender) m t in
        (r ≢ panics) × (publications t' ≡ suc (publications t))
  unfolding handle_message
  handle_message_publishes m t = ground arith

  for_each_publishes :
      (ms : List Message) (t : Trace)
      → let (r, t') = for_each ms (handle_message (traced_service env sender)) t in
        (r ≡ returns tt) × (publications t' ≡ length ms + publications t)
  unfolding for_each
  for_each_publishes [] t = ground arith
  for_each_publishes (m ∷ ms) t =
      let t' : Trace = (handle_message (traced_service env sender) m t).1 in
      ground (arith, handle_message_publishes m t, for_each_publishes ms t')

  -- If the repository lists the unsent messages, the round reports no error and tries as many
  -- publications as there are messages in the list, whatever the queue and the repository answer on
  -- the way.
  pub process_unsent_messages_complete :
      (t : Trace) (ms : List Message)
      → env.find_unsent_messages t sender.batch_size ≡ ok ms
      → let (r, t') = process_unsent_messages (traced_service env sender) t in
        (r ≡ returns none) × (publications t' ≡ length ms + publications t)
  unfolding process_unsent_messages
  process_unsent_messages_complete t ms found =
      ground (arith, for_each_publishes ms (unsent_listed sender.batch_size (ok ms) ∷ t))
