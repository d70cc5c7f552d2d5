-- ===== src/Processor/Service/Stale.antt =====
-- The recovery of stale messages: what `checkStaleMessages` writes to the dead-letter queue and
-- which messages it sets to `failed`.
use reliable_messaging_syste.Prelude.{◌*◌, ◌≡◌, refl, inl, inr, none, List, [], ◌∷◌, arith}
use reliable_messaging_syste.Effects.{ok, Result-cases, for_each_inv}
use reliable_messaging_syste.Models.{ObjectId, Message, failed, minute}
use reliable_messaging_syste.Contracts.{QueueMessage}
use reliable_messaging_syste.Processor.Domain.{MessageProcessor}
use reliable_messaging_syste.Processor.Service.{
  Wake, handle_stale_message_recovery, check_stale_messages, monitor_stale_messages,
}
use reliable_messaging_syste.Processor.Service.Loops.{monitor_inv}
use reliable_messaging_syste.Processor.Service.Traced.{traced_service}
use reliable_messaging_syste.Trace.{Env, Trace, dead_lettered, status_set, stale_listed}

module _ (env : Env) where
  -- The queue message that stands for a stale message: it has no recipient.
  abbrev pub stale_queue_message : Message → QueueMessage
  stale_queue_message m = record {
    id = env.hex m.id;
    content = m.content;
    to = "";
    retry = m.retry_count;
  }

  -- The broker took a dead letter that encodes the message with this id.
  abbrev DeadLettered : ObjectId → Trace → Type 0
  DeadLettered id (dead_lettered d r ∷ t) =
      (r ≡ none) × ((m : Message) × (m.id ≡ id) × (env.marshal (stale_queue_message m) ≡ ok d.body))
  DeadLettered id _ = ⊥

  abbrev pub FailedAfterDeadLetter : Trace → Type 0
  FailedAfterDeadLetter [] = Unit
  FailedAfterDeadLetter (status_set id st _ ∷ t) =
      (st ≡ failed) × DeadLettered id t × FailedAfterDeadLetter t
  FailedAfterDeadLetter (_ ∷ t) = FailedAfterDeadLetter t

module _ (env : Env) (p : MessageProcessor) where
  recovery-FailedAfterDeadLetter :
      (m : Message) (t : Trace)
      → FailedAfterDeadLetter env t
      → FailedAfterDeadLetter env (handle_stale_message_recovery (traced_service env p) m t).1
  unfolding handle_stale_message_recovery
  recovery-FailedAfterDeadLetter m t h =
      elim (Result-cases (env.marshal (stale_queue_message env m))) [
        | inr (e, refused) ↦ ground arith
        | inl (body, encoded) ↦
            let letter : (n : Message) × (n.id ≡ m.id)
                × (env.marshal (stale_queue_message env n) ≡ ok body) =
              (m, refl, encoded) in
            ground (arith, letter)
      ]

  check_stale_messages-FailedAfterDeadLetter :
      (t : Trace)
      → FailedAfterDeadLetter env t
      → FailedAfterDeadLetter env (check_stale_messages (traced_service env p) t).1
  unfolding check_stale_messages
  check_stale_messages-FailedAfterDeadLetter t h =
      elim (Result-cases (env.find_stale_processing_messages t (4 * minute))) [
        | inr (e, unread) ↦ ground arith
        | inl (ms, found) ↦ ground (
          arith,
          for_each_inv (FailedAfterDeadLetter env)
              (handle_stale_message_recovery (traced_service env p)) recovery-FailedAfterDeadLetter
              ms (stale_listed (4 * minute) (ok ms) ∷ t) h,
        )
      ]

  -- Over any number of stale checks, and whatever the stores answer, the only status that they set
  -- is `failed`, and only directly after the broker took a dead letter that encodes a message with
  -- this id.
  pub monitor-FailedAfterDeadLetter :
      (wakes : List Wake)
      → FailedAfterDeadLetter env (monitor_stale_messages (traced_service env p) wakes []).1
  monitor-FailedAfterDeadLetter wakes =
      monitor_inv (traced_service env p) (FailedAfterDeadLetter env)
        check_stale_messages-FailedAfterDeadLetter wakes [] tt
