-- ===== src/Store/Services/Sender.antt =====
-- The sender service: a new message, and the rounds of the scheduler.
use reliable_messaging_syste.Prelude.{All-of_each, String, none, some}
use reliable_messaging_syste.Effects.{errorf, Err, Exec, pure}
use reliable_messaging_syste.Models.{ObjectId, Message, processing, nil_object_id}
use reliable_messaging_syste.Store.Keeps.{
  Preorder, Keeps, pure-Keeps, bind-Keeps, then-Keeps, try-Keeps, try_err-Keeps, for_each-Keeps,
}
use reliable_messaging_syste.Store.Laws.{RepositoryLaws}
use reliable_messaging_syste.Sender.Service

module _ {W : Type 0} {R : W → W → Type 0} (o : Preorder R) (s : Service.SenderService W)
    (repo : RepositoryLaws o s.repository) (clock : Keeps o s.platform.now) where
  abbrev Publishes : Message → Type 0
  Publishes m = Keeps o (s.queue.publish_message (Service.queue_message_of s m))

  pub handle_message-Keeps : (m : Message) → Publishes m → Keeps o (Service.handle_message s m)
  unfolding Service.handle_message
  handle_message-Keeps m publish =
      try_err-Keeps o publish (λ e. pure-Keeps o _)
        (try_err-Keeps o (repo.update_status_lem m.id processing (λ q. cc)) (λ e. pure-Keeps o _)
          (pure-Keeps o none))

  pub process_unsent_messages-Keeps :
      ((m : Message) → Publishes m) → Keeps o (Service.process_unsent_messages s)
  unfolding Service.process_unsent_messages
  process_unsent_messages-Keeps publish =
      try-Keeps o (repo.find_unsent_messages_lem s.sender.batch_size) (λ e. pure-Keeps o _)
        λ ms.
          then-Keeps o
            (for_each-Keeps o ms _ (All-of_each (λ m. handle_message-Keeps m (publish m)) ms))
            (pure-Keeps o none)

  told-Keeps :
      (r : Err × Message)
      → Keeps o (elim r.0 as (λ _. Exec W (ObjectId × Err)) [
        | some e ↦ pure (nil_object_id, some (errorf "failed to create message" e))
        | none ↦ pure (r.1.id, none)
      ])
  told-Keeps (some e, m) = pure-Keeps o (nil_object_id, some (errorf "failed to create message" e))
  told-Keeps (none, m) = pure-Keeps o (m.id, none)

  pub create_message-Keeps : (content to : String) → Keeps o (Service.create_message s content to)
  unfolding Service.create_message
  create_message-Keeps content to =
      bind-Keeps o _ _ (bind-Keeps o _ _ clock λ c. bind-Keeps o _ _ clock λ u. pure-Keeps o _)
        λ m. bind-Keeps o _ _ (repo.create_message_lem m) told-Keeps
