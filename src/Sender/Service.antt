-- ===== src/Sender/Service.antt =====
-- sender_service/internal/application/service/sender_service.go, but for the scheduler's own state,
-- which is Scheduler.
pub mod Traced
pub mod Outbox
pub mod Rounds
pub mod Creation
use reliable_messaging_syste.Prelude.{String, none, some, List, [], ◌∷◌}
use reliable_messaging_syste.Effects.{
  errorf, Result, Exec, Err, pure, ◌>>=◌, ◌>>◌, try, try_err, fail, nil, for_each,
}
use reliable_messaging_syste.Models.{ObjectId, nil_object_id, Message, processing}
use reliable_messaging_syste.Contracts.{QueueMessage}
use reliable_messaging_syste.Ports.{MessageRepository, MessageQueue, Platform}
use reliable_messaging_syste.Sender.Domain.{MessageSender, get_batch_size, prepare_message}

-- The fields of `SenderService` that its methods and its scheduler's rounds use.
pub record SenderService (W : Type 0) : Type 0 where
  pub sender : MessageSender
  pub repository : MessageRepository W
  pub queue : MessageQueue W
  pub platform : Platform W

-- What the `select` of `run` takes next.
pub data Wake : Type 0 where
  tick done : Wake

module _ {W : Type 0} (s : SenderService W) where
  open s use {sender, repository, queue, platform}

  -- Both results are given, also with an error. The repository is handed a pointer, so the id is
  -- read from the message as the repository leaves it.
  unfoldable pub create_message : String → String → Exec W (ObjectId × Err)
  unfolding prepare_message
  create_message content to = do
    msg ← prepare_message platform.now content to
    (e, msg') ← repository.create_message msg
    elim e [
      | some e' ↦ pure (nil_object_id, some (errorf "failed to create message" e'))
      | none ↦ pure (msg'.id, none)
    ]

  unfoldable pub list_messages : Exec W (Result (List Message))
  list_messages = repository.list_messages

  abbrev pub queue_message_of : Message → QueueMessage
  queue_message_of msg = record {
    id = platform.hex msg.id;
    content = msg.content;
    to = msg.to;
    retry = msg.retry_count;
  }

  unfoldable pub handle_message : Message → Exec W Err
  handle_message msg =
      try_err (queue.publish_message (queue_message_of msg))
        (λ e. fail (errorf "failed to publish message" e))
        (try_err (repository.update_status msg.id processing)
          (λ e. fail (errorf "failed to update message status" e)) nil)

  unfoldable pub process_unsent_messages : Exec W Err
  process_unsent_messages =
      try (repository.find_unsent_messages (get_batch_size sender))
        (λ e. fail (errorf "failed to find unsent messages" e))
        λ messages. do for_each messages handle_message; nil

  -- The loop of `run`, on what its `select` takes.
  unfoldable pub run : List Wake → Exec W (Unit {0})
  run [] = pure tt
  run (tick ∷ rest) = process_unsent_messages >> run rest
  run (done ∷ rest) = pure tt
