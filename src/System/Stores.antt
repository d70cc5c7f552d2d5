-- ===== src/System/Stores.antt =====
-- The MongoDB repository and the Redis inbox in one world.
use mathlib.Core.Path.{subst}
use reliable_messaging_syste.Prelude.{
  ◌≡◌, refl, sym, ap, ◌∙◌, inl, inr, String, false, none, some, Option-cases, ==_iff, [], ◌∷◌,
  arith,
}
use reliable_messaging_syste.Effects.{Exec, Err, ◌>>=◌, returns, Outcome-cases}
use reliable_messaging_syste.Models.{ObjectId, Time, Message, MessageStatus, sent}
use reliable_messaging_syste.Contracts.{QueueMessage, Delivery}
use reliable_messaging_syste.Store.Evolution.{Docs}
use reliable_messaging_syste.Processor.Service
use reliable_messaging_syste.Adapters.Drivers.{Filter, id_is, Update, set_status, set_updated_at}
use reliable_messaging_syste.Adapters.Breaker.{of_err}
use reliable_messaging_syste.Adapters.Breaker.Contract.{Reads, BreakerLaws}
use reliable_messaging_syste.Adapters.MessageRepository
use reliable_messaging_syste.Adapters.MessageRepository.{MongoMessageRepository}
use reliable_messaging_syste.Adapters.MessageRepository.Contract.{updated, CollectionLaws}
use reliable_messaging_syste.Adapters.MessageRepository.Writes.{update_status_written}
use reliable_messaging_syste.Adapters.IdempotencyService as RedisInbox
use reliable_messaging_syste.Adapters.IdempotencyService.{RedisIdempotencyService, inbox_key}
use reliable_messaging_syste.Adapters.IdempotencyService.Contract.{Keys, RedisLaws, CodecLaws}
use reliable_messaging_syste.Adapters.IdempotencyService.Marks.{IsMarked, mark_as_processed_marks}

-- The message with this id, if there is one, has been sent.
abbrev pub IsSent : ObjectId → Docs → Type 0
IsSent id d = (m : Message) → d id ≡ some m → m.status ≡ sent

updated-IsSent :
    (d : Docs) (id : ObjectId) (at : Time)
    → IsSent id (updated d id (set_status sent ∷ set_updated_at at ∷ []))
updated-IsSent d id at m h = elim (Option-cases (d id)) [
  | inl none' ↦ absurd (ground (arith, none', (==_iff id id).1 refl))
  | inr (n, e) ↦ ground (arith, e, (==_iff id id).1 refl)
]

-- The stores keep their contracts, and an acknowledgement and the repository leave the keys alone.
-- `keys` and `docs` are what the world holds of Redis and of the collection.
pub record StoreLaws {W : Type 0} (keys : W → Keys) (docs : W → Docs)
    (inbox : RedisIdempotencyService W) (mongo : MongoMessageRepository W)
    (s : Service.ProcessorService W) : Type 1 where
  pub redis : RedisLaws keys inbox.client
  pub inbox_breaker : BreakerLaws keys inbox.cb
  pub codec : CodecLaws inbox.codec
  pub unix_time : Reads keys inbox.unix_time
  pub driver : CollectionLaws docs mongo.collection
  pub breaker : BreakerLaws docs mongo.cb
  pub clock : Reads docs mongo.now
  pub breaker_keys : BreakerLaws keys mongo.cb
  pub clock_keys : Reads keys mongo.now
  pub update_keys : (f : Filter) (u : Update) → Reads keys (mongo.collection.update_one f u)
  pub ack_keys : (d : Delivery) → Reads keys (s.platform.ack d false)

module _ {W : Type 0} (inbox : RedisIdempotencyService W) (mongo : MongoMessageRepository W)
    (s : Service.ProcessorService W) where
  abbrev pub over_stores : Service.ProcessorService W
  over_stores = record s {
    repository = MessageRepository.as_port mongo;
    idempotency_service = RedisInbox.as_port inbox;
  }

module _ {W : Type 0} (keys : W → Keys) (docs : W → Docs) (inbox : RedisIdempotencyService W)
    (mongo : MongoMessageRepository W) (s : Service.ProcessorService W)
    (laws : StoreLaws keys docs inbox mongo s) where
  open laws use {
    redis, inbox_breaker, codec, unix_time, driver, breaker, clock, breaker_keys, clock_keys,
    update_keys,
  }

  abbrev pub Marked : String → W → Type 0
  Marked = IsMarked keys inbox redis inbox_breaker codec unix_time

  write_keys :
      (f : Filter) (u : Time → Update)
      → Reads keys (mongo.now >>= λ at. mongo.collection.update_one f (u at))
  write_keys f u = record {
    unchanged = λ w. elim (Outcome-cases (mongo.now w).0) [
      | inr p ↦ ground (arith, p, clock_keys.unchanged w)
      | inl (at, e) ↦
          ground
            (arith, e, clock_keys.unchanged w, (update_keys f (u at)).unchanged (mongo.now w).1)
    ];
  }

  pub update_status_keys :
      (id : ObjectId) (st : MessageStatus)
      → Reads keys (MessageRepository.update_status mongo id st)
  unfolding MessageRepository.update_status
  update_status_keys id st =
      let u : Time → Update = λ at. set_status st ∷ set_updated_at at ∷ [] in
      let write : Exec W Err =
        mongo.now >>= λ at. mongo.collection.update_one (id_is id ∷ []) (u at) in
      record {
        unchanged = λ w. elim (breaker_keys.execute_lem (of_err write) w) [
          | inr (e, _, ew) ↦ ground (arith, ew)
          | inl (v, ev, _, ew) ↦ ground (arith, ev, ew, (write_keys (id_is id ∷ []) u).unchanged v)
        ];
      }

  -- The id is marked, and its message is set to `sent`.
  abbrev pub Recorded : String → ObjectId → W → Type 0
  Recorded queue_id id w = Marked queue_id w × IsSent id (docs w)

  pub Marked-of_eq : (id : String) (v w : W) → keys w ≡ keys v → Marked id v → Marked id w
  Marked-of_eq id v w e (text, there, says) =
      (text, ap (λ (k : Keys). k (inbox_key id)) e ∙ there, says)

  pub sent_of_update :
      (id : ObjectId) (w : W)
      → (MessageRepository.update_status mongo id sent w).0 ≡ returns none
      → IsSent id (docs (MessageRepository.update_status mongo id sent w).1)
  sent_of_update id w h =
      let (at, e) = update_status_written docs mongo driver breaker clock id sent w h in
      subst (IsSent id) (sym e) (updated-IsSent (docs w) id at)

  pub mark_then_sent :
      (q : QueueMessage) (id : ObjectId) (w : W)
      → let mark = RedisInbox.mark_as_processed inbox q.id w in
        let update = MessageRepository.update_status mongo id sent mark.1 in
        mark.0 ≡ returns none → update.0 ≡ returns none → Recorded q.id id update.1
  mark_then_sent q id w marked set =
      let v : W = (RedisInbox.mark_as_processed inbox q.id w).1 in
      (
        Marked-of_eq q.id v (MessageRepository.update_status mongo id sent v).1
            ((update_status_keys id sent).unchanged v)
            (mark_as_processed_marks keys inbox redis inbox_breaker codec unix_time q.id w marked),
        sent_of_update id v set,
      )

  pub is_processed_keys : (id : String) → Reads keys (RedisInbox.is_processed inbox id)
  unfolding RedisInbox.is_processed
  is_processed_keys id = record {
    unchanged = λ w. elim (inbox_breaker.execute_lem (RedisInbox.read_mark inbox id) w) [
      | inl (v, ev, _, ew) ↦ ground (arith, ev, ew, (redis.get_reads (inbox_key id)).unchanged v)
      | inr (_, _, ew) ↦ ground (arith, ew)
    ];
  }
