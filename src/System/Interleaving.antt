-- ===== src/System/Interleaving.antt =====
-- Goroutines that interleave: before each call through a port, whatever runs beside it may change
-- the world.
use reliable_messaging_syste.Effects.{Exec}
use reliable_messaging_syste.Ports.{
  MessageRepository, MessageQueue, IdempotencyService, WebhookClient, Platform,
}
use reliable_messaging_syste.Sender.Service.{SenderService}
use reliable_messaging_syste.Processor.Service.{ProcessorService}
use reliable_messaging_syste.Contracts.{Delivery}
use reliable_messaging_syste.Store.Keeps.{Preorder, Keeps}
use reliable_messaging_syste.Store.Laws.{RepositoryLaws, OtherLaws}

module _ {W : Type 0} (others : W → W) where
  -- A call, after what the others did since the last one.
  abbrev pub amid : {A : Type 0} → Exec W A → Exec W A
  amid m w = m (others w)

  abbrev pub repository_amid : MessageRepository W → MessageRepository W
  repository_amid r = record {
    find_unsent_messages = λ n. amid (r.find_unsent_messages n);
    update_status = λ id st. amid (r.update_status id st);
    increment_retry_count = λ id. amid (r.increment_retry_count id);
    get_by_id = λ id. amid (r.get_by_id id);
    create_message = λ m. amid (r.create_message m);
    list_messages = amid r.list_messages;
    find_stale_processing_messages = λ d. amid (r.find_stale_processing_messages d);
  }

  abbrev pub queue_amid : MessageQueue W → MessageQueue W
  queue_amid q = record {
    publish_message = λ m. amid (q.publish_message m);
    consume_messages = λ n. amid (q.consume_messages n);
    move_to_dead_letter = λ d. amid (q.move_to_dead_letter d);
    move_to_retry_queue = λ d. amid (q.move_to_retry_queue d);
    get_dlq_message_count = amid q.get_dlq_message_count;
    close = amid q.close;
  }

  abbrev pub inbox_amid : IdempotencyService W → IdempotencyService W
  inbox_amid i = record {
    is_processed = λ id. amid (i.is_processed id);
    mark_as_processed = λ id. amid (i.mark_as_processed id);
    store_webhook_message_id = λ id w ttl. amid (i.store_webhook_message_id id w ttl);
  }

  abbrev pub webhook_amid : WebhookClient W → WebhookClient W
  webhook_amid c = record { send_message = λ content to. amid (c.send_message content to) }

  abbrev pub platform_amid : Platform W → Platform W
  platform_amid p = record p {
    now = amid p.now;
    ack = λ d multiple. amid (p.ack d multiple);
    nack = λ d multiple requeue. amid (p.nack d multiple requeue);
  }

  abbrev pub sender_amid : SenderService W → SenderService W
  sender_amid s = record s {
    repository = repository_amid s.repository;
    queue = queue_amid s.queue;
    platform = platform_amid s.platform;
  }

  abbrev pub worker_amid : ProcessorService W → ProcessorService W
  worker_amid s = record s {
    repository = repository_amid s.repository;
    queue = queue_amid s.queue;
    idempotency_service = inbox_amid s.idempotency_service;
    webhook_client = webhook_amid s.webhook_client;
    platform = platform_amid s.platform;
  }

  module _ {R : W → W → Type 0} (o : Preorder R) (fair : (w : W) → R w (others w)) where
    pub amid-Keeps : {A : Type 0} {m : Exec W A} → Keeps o m → Keeps o (amid m)
    amid-Keeps {m = m} h = record {
      keeps = λ w. o.trans w (others w) (m (others w)).1 (fair w) (h.keeps (others w));
    }

    pub repository_amid-RepositoryLaws :
        (r : MessageRepository W) → RepositoryLaws o r → RepositoryLaws o (repository_amid r)
    repository_amid-RepositoryLaws r h = record {
      find_unsent_messages_lem = λ n. amid-Keeps (h.find_unsent_messages_lem n);
      update_status_lem = λ id st taken. amid-Keeps (h.update_status_lem id st taken);
      increment_retry_count_lem = λ id. amid-Keeps (h.increment_retry_count_lem id);
      get_by_id_lem = λ id. amid-Keeps (h.get_by_id_lem id);
      create_message_lem = λ m. amid-Keeps (h.create_message_lem m);
      list_messages_lem = amid-Keeps h.list_messages_lem;
      find_stale_lem = λ d. amid-Keeps (h.find_stale_lem d);
    }

    pub worker_amid-OtherLaws :
        (InHand : Delivery → Type 0) (q : MessageQueue W) (i : IdempotencyService W)
        (c : WebhookClient W) (p : Platform W)
        → OtherLaws o InHand q i c p
        → OtherLaws o InHand (queue_amid q) (inbox_amid i) (webhook_amid c) (platform_amid p)
    worker_amid-OtherLaws InHand q i c p h = record {
      move_to_dead_letter_lem = λ d mine. amid-Keeps (h.move_to_dead_letter_lem d mine);
      move_to_retry_queue_lem = λ d mine. amid-Keeps (h.move_to_retry_queue_lem d mine);
      is_processed_lem = λ id. amid-Keeps (h.is_processed_lem id);
      mark_as_processed_lem = λ id. amid-Keeps (h.mark_as_processed_lem id);
      store_webhook_message_id_lem =
          λ id w ttl. amid-Keeps (h.store_webhook_message_id_lem id w ttl);
      send_message_lem = λ content to. amid-Keeps (h.send_message_lem content to);
      now_lem = amid-Keeps h.now_lem;
      ack_lem = λ d multiple. amid-Keeps (h.ack_lem d multiple);
      nack_lem = λ d multiple requeue mine. amid-Keeps (h.nack_lem d multiple requeue mine);
    }
