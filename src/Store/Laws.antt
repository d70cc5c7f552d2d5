-- ===== src/Store/Laws.antt =====
-- The laws of the ports: that each call makes an allowed change, such as that the stored messages
-- evolve.
use reliable_messaging_syste.Prelude.{String, Bool, ℤ, ◌≢◌}
use reliable_messaging_syste.Models.{ObjectId, Duration, MessageStatus, unsent, Message}
use reliable_messaging_syste.Contracts.{Delivery}
use reliable_messaging_syste.Ports.{
  MessageRepository, MessageQueue, IdempotencyService, WebhookClient, Platform,
}
use reliable_messaging_syste.Store.Keeps.{Preorder, Keeps}

module _ {W : Type 0} {R : W → W → Type 0} (o : Preorder R) where
  -- Whether or not a call reports an error, it makes an allowed change, if no status is set to
  -- `unsent`.
  pub record RepositoryLaws (r : MessageRepository W) : Type 0 where
    pub find_unsent_messages_lem : (n : ℤ) → Keeps o (r.find_unsent_messages n)
    pub update_status_lem :
        (id : ObjectId) (st : MessageStatus) → st ≢ unsent → Keeps o (r.update_status id st)
    pub increment_retry_count_lem : (id : ObjectId) → Keeps o (r.increment_retry_count id)
    pub get_by_id_lem : (id : ObjectId) → Keeps o (r.get_by_id id)
    pub create_message_lem : (m : Message) → Keeps o (r.create_message m)
    pub list_messages_lem : Keeps o r.list_messages
    pub find_stale_lem : (d : Duration) → Keeps o (r.find_stale_processing_messages d)

  -- The other ports, where only the deliveries that are in hand are moved or returned.
  pub record OtherLaws (InHand : Delivery → Type 0) (q : MessageQueue W) (i : IdempotencyService W)
      (c : WebhookClient W) (p : Platform W) : Type 0 where
    pub move_to_dead_letter_lem : (d : Delivery) → InHand d → Keeps o (q.move_to_dead_letter d)
    pub move_to_retry_queue_lem : (d : Delivery) → InHand d → Keeps o (q.move_to_retry_queue d)
    pub is_processed_lem : (id : String) → Keeps o (i.is_processed id)
    pub mark_as_processed_lem : (id : String) → Keeps o (i.mark_as_processed id)
    pub store_webhook_message_id_lem :
        (id w : String) (ttl : Duration) → Keeps o (i.store_webhook_message_id id w ttl)
    pub send_message_lem : (content to : String) → Keeps o (c.send_message content to)
    pub now_lem : Keeps o p.now
    pub ack_lem : (d : Delivery) (multiple : Bool) → Keeps o (p.ack d multiple)
    pub nack_lem :
        (d : Delivery) (multiple requeue : Bool) → InHand d → Keeps o (p.nack d multiple requeue)
