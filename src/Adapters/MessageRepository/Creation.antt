-- ===== src/Adapters/MessageRepository/Creation.antt =====
-- The id that the sender service reports when it runs over this repository.
use reliable_messaging_syste.Prelude.{◌≡◌, String, inl, inr, pos, arith}
use reliable_messaging_syste.Effects.{Err, returns, Outcome-cases}
use reliable_messaging_syste.Models.{ObjectId, nil_object_id, Message, unsent}
use reliable_messaging_syste.Ports.{MessageQueue, Platform}
use reliable_messaging_syste.Sender.Domain.{MessageSender, prepare_message}
use reliable_messaging_syste.Sender.Service
use reliable_messaging_syste.Adapters.MessageRepository.{
  MongoMessageRepository, create_message, as_port,
}
use reliable_messaging_syste.Adapters.MessageRepository.Contract.{LeavesDocument}

module _ {W : Type 0} (sender : MessageSender) (r : MongoMessageRepository W)
    (queue : MessageQueue W) (platform : Platform W) where
  abbrev pub sender_over_mongo : Service.SenderService W
  sender_over_mongo = record {
    sender = sender;
    repository = as_port r;
    queue = queue;
    platform = platform;
  }

  -- Since the driver does not write to the document that it is handed, the id that a caller of the
  -- sender service is told is the nil id, whatever else the driver does, and also when the message
  -- was stored.
  pub created_id_is_nil :
      (driver : LeavesDocument r.collection) (content to : String) (w : W) (id : ObjectId) (e : Err)
      → (Service.create_message sender_over_mongo content to w).0 ≡ returns (id, e)
      → id ≡ nil_object_id
  unfolding Service.create_message create_message prepare_message
  created_id_is_nil driver content to w id e h =
      let u : W = (platform.now w).1 in
      let v : W = (platform.now u).1 in
      elim (Outcome-cases (platform.now w).0) [
        | inr p ↦ absurd (ground (arith, p))
        | inl (at, read) ↦ elim (Outcome-cases (platform.now u).0) [
          | inr p ↦ absurd (ground (arith, read, p))
          | inl (at', read') ↦
              let m : Message = record {
                id = nil_object_id;
                to = to;
                content = content;
                status = unsent;
                retry_count = pos 0;
                created_at = at;
                updated_at = at';
              } in
              elim (Outcome-cases (r.collection.insert_one m v).0) [
                | inr p ↦ absurd (ground (arith, read, read', p))
                | inl ((e', m'), done) ↦
                    ground (arith, read, read', done, driver.insert_one_leaves m m' e' v done)
              ]
        ]
      ]
