-- ===== src/Adapters/IdempotencyService/Contract.antt =====
-- What Redis and the JSON codec document, stated on the values by their keys.
use reliable_messaging_syste.Prelude.{ℕ, ◌≡◌, ◌≢◌, ◌⊎◌, String, Option, none, some, if◌then◌else◌}
use reliable_messaging_syste.Effects.{Error, redis_nil, ok, err, returns}
use reliable_messaging_syste.Models.{Duration}
use reliable_messaging_syste.Adapters.Drivers.{RedisClient, MarkCodec}
use reliable_messaging_syste.Adapters.Breaker.Contract.{Reads}
use text.Mathlib.Text.{◌==◌ as str_eq}

abbrev pub Keys : Type 0
Keys = String → Option String

abbrev pub stored : Keys → String → String → Keys
stored keys k v j = if str_eq j k then some v else keys j

module _ {W : Type 0} (keys : W → Keys) where
  -- A `get` gives the value, or `redis_nil` if there is none, or fails. A `set` stores the value if
  -- it reports no error; with an error it may have stored it or not.
  pub record RedisLaws (c : RedisClient W) : Type 0 where
    pub get_reads : (k : String) → Reads keys (c.get k)
    pub get_lem :
        (k v : String) (w : W)
        → keys w k ≡ some v
        → ((c.get k w).0 ≡ returns (ok v))
          ⊎ ((e : Error) × (e ≢ redis_nil) × ((c.get k w).0 ≡ returns (err e)))
    pub get_found_lem : (k v : String) (w : W) → (c.get k w).0 ≡ returns (ok v) → keys w k ≡ some v
    pub set_lem :
        (k v : String) (ttl : Duration) (w : W)
        → let (r, w') = c.set k v ttl w in
          (keys w' ≡ stored (keys w) k v) ⊎ ((r ≢ returns none) × (keys w' ≡ keys w))

-- What is encoded is decoded again.
pub record CodecLaws (codec : MarkCodec) : Type 0 where
  pub status_of_lem :
      (status : String) (at : ℕ) (text : String)
      → codec.encode_mark status at ≡ ok text
      → codec.status_of text ≡ ok (some status)
