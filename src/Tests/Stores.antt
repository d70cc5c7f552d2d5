-- ===== src/Tests/Stores.antt =====
-- A collection, a breaker and a Redis that work, each over what it stores.
use mathlib.Core.Logic.{◌⊎◌}
use reliable_messaging_syste.Prelude.{
  ◌≡◌, ◌≢◌, refl, inl, inr, String, Option, none, some, Option-cases, List, [], ◌∷◌, arith,
}
use reliable_messaging_syste.Effects.{
  external, no_documents, redis_nil, Result, ok, err, Err, returns,
}
use reliable_messaging_syste.Models.{ObjectId, Message}
use reliable_messaging_syste.Store.Evolution.{Docs}
use reliable_messaging_syste.Adapters.Drivers.{id_is, Filter, Update, Collection, CircuitBreaker}
use reliable_messaging_syste.Adapters.Breaker.Contract.{Reads, BreakerLaws}
use reliable_messaging_syste.Adapters.MessageRepository.{MongoMessageRepository}
use reliable_messaging_syste.Adapters.MessageRepository.Contract.{
  updated, inserted, CollectionLaws, LeavesDocument,
}
use reliable_messaging_syste.Adapters.IdempotencyService.{RedisIdempotencyService}
use reliable_messaging_syste.Adapters.IdempotencyService.Contract.{
  Keys, stored, RedisLaws, CodecLaws,
}

-- A breaker that always lets through.
abbrev pub closed_breaker : {W : Type 0} → CircuitBreaker W
closed_breaker = record { execute = λ m. m }

pub closed_breaker-BreakerLaws : {W V : Type 0} (view : W → V) → BreakerLaws view closed_breaker
closed_breaker-BreakerLaws view = record { execute_lem = λ m w. inl (w, refl, refl, refl) }

abbrev pub same_docs : Docs → Docs
same_docs d = d

abbrev insert_doc : Message → Option Message → Docs → Err × Docs
insert_doc m none d = (none, inserted d 9 m)
insert_doc m (some _) d = (some (external 11000), d)

abbrev found : Option Message → Result Message
found none = err no_documents
found (some m) = ok m

abbrev update_doc : Filter → Update → Docs → Err × Docs
update_doc (id_is id ∷ []) u d = (none, updated d id u)
update_doc _ u d = (some (external 2), d)

abbrev find_doc : Filter → Docs → Result Message
find_doc (id_is id ∷ []) d = found (d id)
find_doc _ d = err no_documents

abbrev listed : Option Message → List Message
listed none = []
listed (some m) = m ∷ []

-- New messages get the id 9; a list gives the message with the id 1.
abbrev pub collection : Collection Docs
collection = record {
  insert_one = λ m d. let (e, d') = insert_doc m (d 9) d in (returns (e, m), d');
  find_one = λ f d. (returns (find_doc f d), d);
  find = λ f limit d. (returns (ok 0), d);
  all = λ c d. (returns (ok (listed (d 1))), d);
  close_cursor = λ c d. (returns none, d);
  update_one = λ f u d. let (e, d') = update_doc f u d in (returns e, d');
}

pub reads : {A : Type 0} (a : Docs → A) → Reads same_docs (λ d. (returns (a d), d))
reads a = record { unchanged = λ w. refl }

insert_lem :
    (m : Message) (d : Docs)
    → let (r, d') = collection.insert_one m d in
      ((id : ObjectId) × (d id ≡ none) × (d' ≡ inserted d id m))
      ⊎ (((m' : Message) → r ≢ returns (none, m')) × (d' ≡ d))
insert_lem m d = elim (Option-cases (d 9)) [
  | inl free ↦ inl (9, free, ground (arith, free))
  | inr (n, taken) ↦ inr (λ m' r. ground (arith, taken), ground (arith, taken))
]

pub collection-CollectionLaws : CollectionLaws same_docs collection
collection-CollectionLaws = record {
  find_one_lem = λ f. reads (find_doc f);
  find_lem = λ f limit. reads (λ d. ok 0);
  all_lem = λ c. reads (λ d. ok (listed (d 1)));
  close_cursor_lem = λ c. reads (λ d. none);
  update_one_lem = λ id u d. inl refl;
  insert_one_lem = insert_lem;
}

pub collection-LeavesDocument : LeavesDocument collection
collection-LeavesDocument = record {
  insert_one_leaves = λ m m' e d h. ground (arith, Option-cases (d 9), h);
}

abbrev pub mongo : MongoMessageRepository Docs
mongo = record { collection = collection; cb = closed_breaker; now = λ d. (returns 1000, d) }

pub mongo_clock : Reads same_docs mongo.now
mongo_clock = reads (λ d. 1000)

abbrev pub get_key : Option String → Result String
get_key none = err redis_nil
get_key (some v) = ok v

abbrev pub same_keys : Keys → Keys
same_keys k = k

abbrev pub redis : RedisIdempotencyService Keys
redis = record {
  client = record {
    get = λ k w. (returns (get_key (w k)), w);
    set = λ k v ttl w. (returns none, stored w k v);
  };
  cb = closed_breaker;
  codec = record { status_of = λ text. ok (some text); encode_mark = λ status at. ok status };
  unix_time = λ w. (returns 1000, w);
}

pub redis-RedisLaws : RedisLaws same_keys redis.client
redis-RedisLaws = record {
  get_reads = λ k. record { unchanged = λ w. refl };
  get_lem = λ k v w e. inl (ground (arith, e));
  get_found_lem = λ k v w e. elim (Option-cases (w k)) [
    | inl none' ↦ absurd (ground (arith, none'))
    | inr (u, found) ↦ ground (arith, found)
  ];
  set_lem = λ k v ttl w. inl refl;
}

pub redis-CodecLaws : CodecLaws redis.codec
redis-CodecLaws = record { status_of_lem = λ status at text e. ground (arith, e) }

pub redis_clock : Reads same_keys redis.unix_time
redis_clock = record { unchanged = λ w. refl }
