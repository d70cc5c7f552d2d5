-- ===== src/System/Liveness/Completion.antt =====
-- From a round of the sender to the end of the handling by the worker.
use mathlib.Core.List.{Memᴰ}
use reliable_messaging_syste.Prelude.{◌≡◌, refl, ap, ◌∙◌, some, none, List}
use reliable_messaging_syste.Effects.{Result, ok, returns}
use reliable_messaging_syste.Models.{Bytes, Message, sent}
use reliable_messaging_syste.Contracts.{QueueMessage, Delivery}
use reliable_messaging_syste.Store.Evolution.{Docs, Evolves}
use reliable_messaging_syste.Sender.Service.{queue_message_of}
use reliable_messaging_syste.Processor.Service.{process_message}
use reliable_messaging_syste.Adapters.MessageQueue.Contract.{Waiting}
use reliable_messaging_syste.System.{Services, round, delivery, perform}
use reliable_messaging_syste.System.Queues.{IsWaiting}
use reliable_messaging_syste.System.Liveness.{RoundLaws, AnswerLaws, IsDue, sent_at}
use reliable_messaging_syste.System.Liveness.Rounds.{round-IsWaiting, round-advances}
use reliable_messaging_syste.System.Liveness.Handling.{process_message-Sends}

-- What the sender encodes, the worker decodes, and the text of an id is read as the id.
pub record EncodingLaws {W : Type 0} (encode : QueueMessage → Result Bytes) (s : Services W)
    : Type 0 where
  pub decode_lem :
      (q : QueueMessage) (b : Bytes) → encode q ≡ ok b → s.worker.platform.unmarshal b ≡ ok q
  pub hex_lem :
      (m : Message) → s.worker.platform.object_id_from_hex (s.sender.platform.hex m.id) ≡ ok m.id

module _ {W : Type 0} (docs : W → Docs) (waiting : W → Waiting) (Ready : W → Type 0)
    (encode : QueueMessage → Result Bytes) (s : Services W)
    (rounds : RoundLaws docs waiting Ready encode s.sender) (answers : AnswerLaws docs s.worker)
    (encoding : EncodingLaws encode s) where
  -- If the calls of a round return and what encodes is published, and the stores of the worker
  -- answer: when a round lists a stored message that encodes as `b` and the queues are set up, then
  -- `b` waits in a queue after the round. In any world in which the stored messages have evolved from
  -- there and a delivery with this body is due for what is stored of the message, the worker handles
  -- the delivery without an error, and then the message is stored with the recipient and the text
  -- that it had at first, and with the status `sent`.
  pub unsent_becomes_sent :
      (ms : List Message) (m : Message) (b : Bytes) (d : Delivery) (w v : W)
      → (s.sender.repository.find_unsent_messages s.sender.sender.batch_size w).0 ≡ returns (ok ms)
      → Memᴰ m ms
      → docs w m.id ≡ some m
      → encode (queue_message_of s.sender m) ≡ ok b
      → Ready w
      → Evolves (docs (perform s round w)) (docs v)
      → d.body ≡ b
      → ((n : Message) → docs v m.id ≡ some n → IsDue s.worker d (s.sender.platform.hex m.id) n v)
      → IsWaiting docs waiting b (perform s round w)
        × ((process_message s.worker d v).0 ≡ returns none)
        × ((n : Message) × (docs (perform s (delivery d) v) m.id ≡ some n)
            × (n.status ≡ sent)
            × (n.to ≡ m.to)
            × (n.content ≡ m.content))
  unfolding perform
  unsent_becomes_sent ms m b d w v found listed stored encoded ready between body due =
      let q : QueueMessage = queue_message_of s.sender m in
      let taken = (round-advances docs waiting Ready encode s.sender rounds).keeps w in
      let (n', there', later') = taken.0 m.id m stored in
      let (n, there, later) = between m.id n' there' in
      let (ended, (at, written)) =
        process_message-Sends docs s.worker answers m.id n d q v (due n there)
          (ap s.worker.platform.unmarshal body ∙ encoding.decode_lem q b encoded)
          (encoding.hex_lem m) there in
      (
        round-IsWaiting docs waiting Ready encode s.sender rounds ms m b w found listed encoded
            ready,
        ended,
        (
          sent_at at n,
          written,
          refl,
          later.same_to ∙ later'.same_to,
          later.same_content ∙ later'.same_content,
        ),
      )
