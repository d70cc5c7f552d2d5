-- ===== src/System/Queues/Weaker.antt =====
-- Calls that add no body add none but some given ones.
use reliable_messaging_syste.Prelude.{◌≡◌, ◌⊎◌, inl, inr}
use reliable_messaging_syste.Effects.{Exec}
use reliable_messaging_syste.Models.{Bytes}
use reliable_messaging_syste.Contracts.{Delivery}
use reliable_messaging_syste.Ports.{MessageRepository}
use reliable_messaging_syste.Store.Evolution.{Docs}
use reliable_messaging_syste.Store.Keeps.{Keeps}
use reliable_messaging_syste.Store.Laws.{RepositoryLaws, OtherLaws}
use reliable_messaging_syste.Adapters.MessageQueue.Contract.{Waiting}
use reliable_messaging_syste.System.{Services}
use reliable_messaging_syste.System.Queues.{growth, Nothing, QueueLaws}

module _ {W : Type 0} (docs : W → Docs) (waiting : W → Waiting) where
  sum_right : {A B C : Type 0} → (B → C) → A ⊎ B → A ⊎ C
  sum_right f (inl a) = inl a
  sum_right f (inr b) = inr (f b)

  pub weaker-Keeps :
      {Old New : Bytes → Type 0} {A : Type 0} {m : Exec W A}
      → ((b : Bytes) → Old b → New b)
      → Keeps (growth docs waiting Old) m
      → Keeps (growth docs waiting New) m
  weaker-Keeps f h = record {
    keeps = λ w.
        let (evolves, adds) = h.keeps w in (evolves, λ b waits. sum_right (f b) (adds b waits));
  }

  module _ (New : Bytes → Type 0) where
    pub quiet-Keeps :
        {A : Type 0} {m : Exec W A}
        → Keeps (growth docs waiting Nothing) m
        → Keeps (growth docs waiting New) m
    quiet-Keeps = weaker-Keeps (λ b h. absurd h)

    pub quiet-RepositoryLaws :
        (r : MessageRepository W)
        → RepositoryLaws (growth docs waiting Nothing) r
        → RepositoryLaws (growth docs waiting New) r
    quiet-RepositoryLaws r h = record {
      find_unsent_messages_lem = λ n. quiet-Keeps (h.find_unsent_messages_lem n);
      update_status_lem = λ id st taken. quiet-Keeps (h.update_status_lem id st taken);
      increment_retry_count_lem = λ id. quiet-Keeps (h.increment_retry_count_lem id);
      get_by_id_lem = λ id. quiet-Keeps (h.get_by_id_lem id);
      create_message_lem = λ m. quiet-Keeps (h.create_message_lem m);
      list_messages_lem = quiet-Keeps h.list_messages_lem;
      find_stale_lem = λ d. quiet-Keeps (h.find_stale_lem d);
    }

    moved-Keeps :
        {A : Type 0} {m : Exec W A} (d : Delivery)
        → New d.body
        → Keeps (growth docs waiting (λ b. b ≡ d.body)) m
        → Keeps (growth docs waiting New) m
    moved-Keeps d mine = weaker-Keeps (λ b e. rw e mine)

    -- The worker may move and return the deliveries whose body is one of these.
    pub quiet-OtherLaws :
        (s : Services W)
        → QueueLaws docs waiting s
        → OtherLaws
            (growth docs waiting New)
            (λ d. New d.body)
            s.worker.queue
            s.worker.idempotency_service
            s.worker.webhook_client
            s.worker.platform
    quiet-OtherLaws s laws = record {
      move_to_dead_letter_lem = λ d mine. moved-Keeps d mine (laws.dead_letter_lem d);
      move_to_retry_queue_lem = λ d mine. moved-Keeps d mine (laws.retry_lem d);
      is_processed_lem = λ id. quiet-Keeps (laws.worker_others.is_processed_lem id);
      mark_as_processed_lem = λ id. quiet-Keeps (laws.worker_others.mark_as_processed_lem id);
      store_webhook_message_id_lem =
          λ id w ttl. quiet-Keeps (laws.worker_others.store_webhook_message_id_lem id w ttl);
      send_message_lem = λ content to. quiet-Keeps (laws.worker_others.send_message_lem content to);
      now_lem = quiet-Keeps laws.worker_others.now_lem;
      ack_lem = λ d multiple. quiet-Keeps (laws.worker_others.ack_lem d multiple);
      nack_lem =
          λ d multiple requeue mine. moved-Keeps d mine (laws.returned_lem d multiple requeue);
    }
