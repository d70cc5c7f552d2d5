-- ===== src/System/Queues.antt =====
-- What waits in the queues while both services run, as far as the bodies of the messages go.
pub mod Weaker
pub mod References
pub mod Handling
pub mod Adapters
pub mod Implementation
use reliable_messaging_syste.Prelude.{
  ◌≡◌, refl, ◌⊎◌, inl, inr, String, Bool, some, List, [], ◌∷◌, ◌++◌, ℤ, All,
}
use reliable_messaging_syste.Effects.{Result, ok, returns}
use reliable_messaging_syste.Models.{ObjectId, Duration, Bytes, Message}
use reliable_messaging_syste.Contracts.{QueueMessage, Delivery}
use reliable_messaging_syste.Store.Evolution.{Docs, Evolves, Evolves-refl, Evolves-trans}
use reliable_messaging_syste.Store.Keeps.{Preorder, Keeps}
use reliable_messaging_syste.Store.Laws.{RepositoryLaws, OtherLaws}
use reliable_messaging_syste.Adapters.Drivers.{Publishing}
use reliable_messaging_syste.Adapters.MessageQueue.Contract.{Waiting}
use reliable_messaging_syste.System.{Services, Activity, request, round, check, delivery, perform}

-- A message with this body is in the list.
abbrev pub Waits : Bytes → List Publishing → Type 0
Waits b [] = ⊥
Waits b (p ∷ ps) = (p.body ≡ b) ⊎ Waits b ps

pub Waits-append :
    (b : Bytes) (xs ys : List Publishing) → Waits b (xs ++ ys) → Waits b xs ⊎ Waits b ys
Waits-append b [] ys h = inr h
Waits-append b (x ∷ xs) ys (inl e) = inl (inl e)
Waits-append b (x ∷ xs) ys (inr h) = elim (Waits-append b xs ys h) [
  | inl old ↦ inl (inr old)
  | inr new ↦ inr new
]

pub Waits-append_left : (b : Bytes) (xs ys : List Publishing) → Waits b xs → Waits b (xs ++ ys)
Waits-append_left b (x ∷ xs) ys (inl e) = inl e
Waits-append_left b (x ∷ xs) ys (inr h) = inr (Waits-append_left b xs ys h)
Waits-append_left b [] ys h = absurd h

pub Waits-append_last : (xs : List Publishing) (p : Publishing) → Waits p.body (xs ++ p ∷ [])
Waits-append_last [] p = inl refl
Waits-append_last (x ∷ xs) p = inr (Waits-append_last xs p)

abbrev pub Nothing : Bytes → Type 0
Nothing b = ⊥

-- `docs` and `waiting` are what the world holds of the collection and of the queues. A message waits
-- until it is acknowledged.
module _ {W : Type 0} (docs : W → Docs) (waiting : W → Waiting) where
  abbrev pub IsWaiting : Bytes → W → Type 0
  IsWaiting b w = (queue : String) × Waits b (waiting w queue)

  -- The stored messages evolve, and every body that waits now waited before or is one of `New`.
  abbrev pub Grows : (Bytes → Type 0) → W → W → Type 0
  Grows New v w = Evolves (docs v) (docs w) × ((b : Bytes) → IsWaiting b w → IsWaiting b v ⊎ New b)

  after_both :
      (New : Bytes → Type 0) (b : Bytes) (u v : W)
      → (IsWaiting b v → IsWaiting b u ⊎ New b)
      → IsWaiting b v ⊎ New b
      → IsWaiting b u ⊎ New b
  after_both New b u v h (inl old) = h old
  after_both New b u v h (inr new) = inr new

  pub growth : (New : Bytes → Type 0) → Preorder (Grows New)
  growth New = record {
    refl = λ w. (Evolves-refl (docs w), λ b h. inl h);
    trans = λ u v w h k. (
      Evolves-trans (docs u) (docs v) (docs w) h.0 k.0,
      λ b waits. after_both New b u v (h.1 b) (k.1 b waits),
    );
  }

  -- A stored message.
  abbrev pub IsStored : W → Message → Type 0
  IsStored w m = docs w m.id ≡ some m

  -- The ports of both services add no body to a queue but those that they are handed, what the
  -- sender publishes decodes to the queue message that was handed over, the listing methods give
  -- messages that are stored, and what is written for an id or a queue message reads as the same.
  pub record QueueLaws (s : Services W) : Type 0 where
    pub sender_repository : RepositoryLaws (growth Nothing) s.sender.repository
    pub sender_clock : Keeps (growth Nothing) s.sender.platform.now
    pub publish_lem :
        (q : QueueMessage)
        → Keeps
            (growth (λ b. s.worker.platform.unmarshal b ≡ ok q))
            (s.sender.queue.publish_message q)
    pub worker_repository : RepositoryLaws (growth Nothing) s.worker.repository
    pub worker_others :
        OtherLaws
          (growth Nothing)
          (λ d. ⊥)
          s.worker.queue
          s.worker.idempotency_service
          s.worker.webhook_client
          s.worker.platform
    pub dead_letter_lem :
        (d : Delivery) → Keeps (growth (λ b. b ≡ d.body)) (s.worker.queue.move_to_dead_letter d)
    pub retry_lem :
        (d : Delivery) → Keeps (growth (λ b. b ≡ d.body)) (s.worker.queue.move_to_retry_queue d)
    pub returned_lem :
        (d : Delivery) (multiple requeue : Bool)
        → Keeps (growth (λ b. b ≡ d.body)) (s.worker.platform.nack d multiple requeue)
    pub unsent_lem :
        (n : ℤ) (w : W) (ms : List Message)
        → (s.sender.repository.find_unsent_messages n w).0 ≡ returns (ok ms)
        → All (IsStored w) ms
    pub stale_lem :
        (age : Duration) (w : W) (ms : List Message)
        → (s.worker.repository.find_stale_processing_messages age w).0 ≡ returns (ok ms)
        → All (IsStored w) ms
    pub marshal_lem :
        (q : QueueMessage) (b : Bytes)
        → s.worker.platform.marshal q ≡ ok b
        → s.worker.platform.unmarshal b ≡ ok q
    pub sender_hex :
        (id : ObjectId) → s.worker.platform.object_id_from_hex (s.sender.platform.hex id) ≡ ok id
    pub worker_hex :
        (id : ObjectId) → s.worker.platform.object_id_from_hex (s.worker.platform.hex id) ≡ ok id

  -- What happens next: a request, a round, a stale check, the handling of a delivery of a message
  -- that waits, or what the broker and others do, which adds no body to a queue.
  pub data Move (s : Services W) (w w' : W) : Type 0 where
    requests : (content to : String) → w' ≡ perform s (request content to) w → Move s w w'
    publishes : w' ≡ perform s round w → Move s w w'
    checks : w' ≡ perform s check w → Move s w w'
    handles : (d : Delivery) → IsWaiting d.body w → w' ≡ perform s (delivery d) w → Move s w w'
    others : Grows Nothing w w' → Move s w w'

  pub data Reach (s : Services W) (start : W) : W → Type 0 where
    here : Reach s start start
    next : {v w : W} → Reach s start v → Move s v w → Reach s start w
