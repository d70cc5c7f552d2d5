-- ===== src/System/Liveness/Rounds.antt =====
-- A round of the sender, when its calls return: what it lists is published.
use mathlib.Core.Path.{subst}
use mathlib.Core.List.{Memᴰ}
use reliable_messaging_syste.Prelude.{
  ◌≡◌, ◌≢◌, sym, inl, inr, none, some, List, [], ◌∷◌, All-of_each, arith,
}
use reliable_messaging_syste.Effects.{Result, ok, returns, panics, Outcome-cases, for_each}
use reliable_messaging_syste.Models.{Bytes, Message, processing}
use reliable_messaging_syste.Contracts.{QueueMessage}
use reliable_messaging_syste.Store.Evolution.{Docs}
use reliable_messaging_syste.Store.Keeps.{Keeps, for_each-Keeps}
use reliable_messaging_syste.Store.Services.Sender.{
  handle_message-Keeps, process_unsent_messages-Keeps,
}
use reliable_messaging_syste.Sender.Service.{
  SenderService, queue_message_of, handle_message, process_unsent_messages,
}
use reliable_messaging_syste.Adapters.MessageQueue.Contract.{Waiting}
use reliable_messaging_syste.System.Queues.{IsWaiting}
use reliable_messaging_syste.System.Liveness.{advance, RoundLaws}

module _ {W : Type 0} (docs : W → Docs) (waiting : W → Waiting) (Ready : W → Type 0)
    (encode : QueueMessage → Result Bytes) (s : SenderService W)
    (laws : RoundLaws docs waiting Ready encode s) where
  handle_message-advances : (m : Message) → Keeps (advance docs waiting Ready) (handle_message s m)
  handle_message-advances m =
      handle_message-Keeps (advance docs waiting Ready) s laws.repository laws.clock m
        (laws.publish_keeps (queue_message_of s m))

  handle_message-ne-panics : (m : Message) (w : W) → (handle_message s m w).0 ≢ panics
  unfolding handle_message
  handle_message-ne-panics m w h =
      let u : W = (s.queue.publish_message (queue_message_of s m) w).1 in
      elim (Outcome-cases (s.queue.publish_message (queue_message_of s m) w).0) [
        | inr p ↦ laws.publish_ends (queue_message_of s m) w p
        | inl (some e, eq) ↦ absurd (ground (arith, eq))
        | inl (none, eq) ↦ elim (Outcome-cases (s.repository.update_status m.id processing u).0) [
          | inr p ↦ laws.update_status_lem m.id u p
          | inl (some e, eu) ↦ absurd (ground (arith, eq, eu))
          | inl (none, eu) ↦ absurd (ground (arith, eq, eu))
        ]
      ]

  handle_message-IsWaiting :
      (m : Message) (b : Bytes) (w : W)
      → encode (queue_message_of s m) ≡ ok b
      → Ready w
      → IsWaiting docs waiting b (handle_message s m w).1
  unfolding handle_message
  handle_message-IsWaiting m b w encoded ready =
      let (published, waits) = laws.publish_lem (queue_message_of s m) b w encoded ready in
      let u : W = (s.queue.publish_message (queue_message_of s m) w).1 in
      let v : W = (s.repository.update_status m.id processing u).1 in
      let same : (handle_message s m w).1 ≡ v =
        elim (Outcome-cases (s.repository.update_status m.id processing u).0) [
          | inr p ↦ absurd (laws.update_status_lem m.id u p)
          | inl (some e, eu) ↦ ground (arith, published, eu)
          | inl (none, eu) ↦ ground (arith, published, eu)
        ] in
      subst (IsWaiting docs waiting b) (sym same)
        (((laws.repository.update_status_lem m.id processing (λ q. cc)).keeps u).1 b waits)

  turn-waits :
      (x : Message) (xs : List Message) (b : Bytes) (w : W)
      → IsWaiting docs waiting b (for_each xs (handle_message s) (handle_message s x w).1).1
      → IsWaiting docs waiting b (for_each (x ∷ xs) (handle_message s) w).1
  unfolding for_each
  turn-waits x xs b w waits = elim (Outcome-cases (handle_message s x w).0) [
    | inr p ↦ absurd (handle_message-ne-panics x w p)
    | inl (r, ended) ↦ subst (IsWaiting docs waiting b) (ground (arith, ended)) waits
  ]

  -- The loop publishes each message of the list that encodes.
  for_each-IsWaiting :
      (ms : List Message) (m : Message) (b : Bytes) (w : W)
      → Memᴰ m ms
      → encode (queue_message_of s m) ≡ ok b
      → Ready w
      → IsWaiting docs waiting b (for_each ms (handle_message s) w).1
  for_each-IsWaiting [] m b w listed encoded ready = elim listed [ ]
  for_each-IsWaiting (x ∷ xs) m b w (Memᴰ.head e) encoded ready =
      let v : W = (handle_message s x w).1 in
      let rest =
        for_each-Keeps (advance docs waiting Ready) xs (handle_message s)
          (All-of_each handle_message-advances xs) in
      turn-waits x xs b w (
        (rest.keeps v).1 b (
          handle_message-IsWaiting x b w
            (subst (λ y. encode (queue_message_of s y) ≡ ok b) e encoded) ready))
  for_each-IsWaiting (x ∷ xs) m b w (Memᴰ.tail listed) encoded ready = turn-waits x xs b w (
      for_each-IsWaiting xs m b (handle_message s x w).1 listed encoded
        (((handle_message-advances x).keeps w).2 ready))

  pub round-IsWaiting :
      (ms : List Message) (m : Message) (b : Bytes) (w : W)
      → (s.repository.find_unsent_messages s.sender.batch_size w).0 ≡ returns (ok ms)
      → Memᴰ m ms
      → encode (queue_message_of s m) ≡ ok b
      → Ready w
      → IsWaiting docs waiting b (process_unsent_messages s w).1
  unfolding process_unsent_messages
  round-IsWaiting ms m b w found listed encoded ready =
      let v : W = (s.repository.find_unsent_messages s.sender.batch_size w).1 in
      let looped : W = (for_each ms (handle_message s) v).1 in
      let same : (process_unsent_messages s w).1 ≡ looped =
        elim (Outcome-cases (for_each ms (handle_message s) v).0) [
          | inr p ↦ ground (arith, found, p)
          | inl (r, e) ↦ ground (arith, found, e)
        ] in
      subst (IsWaiting docs waiting b) (sym same) (
        for_each-IsWaiting ms m b v listed encoded
          (((laws.repository.find_unsent_messages_lem s.sender.batch_size).keeps w).2 ready))

  -- The whole round, as a change of the stored messages and of what waits.
  pub round-advances : Keeps (advance docs waiting Ready) (process_unsent_messages s)
  round-advances =
      process_unsent_messages-Keeps (advance docs waiting Ready) s laws.repository laws.clock
        (λ m. laws.publish_keeps (queue_message_of s m))
