-- ===== src/Adapters/Drivers.antt =====
-- What the adapters ask of the libraries: the MongoDB driver, the circuit breaker, Redis and AMQP.
-- None of this is code of the repository; the adapters take it as parameters.
use reliable_messaging_syste.Prelude.{ℕ, String, Bool, List, ℤ, Option}
use reliable_messaging_syste.Effects.{Exec, Err, Result}
use reliable_messaging_syste.Contracts.{Table}
use reliable_messaging_syste.Models.{ObjectId, Time, Duration, Bytes, MessageStatus, Message}

-- The tests of a `bson.M` filter that the adapters write; a filter asks for all of its tests.
pub data FieldTest : Type 0 where
  id_is : ObjectId → FieldTest
  status_is : MessageStatus → FieldTest
  updated_before : Time → FieldTest

abbrev pub Filter : Type 0
Filter = List FieldTest

-- The changes of an update: `$set` of two fields, and `$inc` of the retry count.
pub data FieldChange : Type 0 where
  set_status : MessageStatus → FieldChange
  set_updated_at : Time → FieldChange
  inc_retry_count : ℤ → FieldChange

abbrev pub Update : Type 0
Update = List FieldChange

-- A cursor is a handle.
abbrev pub Cursor : Type 0
Cursor = ℕ

-- `gobreaker.Counts`, as far as the adapters read it, and `gobreaker.Settings`.
pub record Counts : Type 0 where
  pub requests : ℕ
  pub total_failures : ℕ

pub record Settings : Type 0 where
  pub name : String
  pub max_requests : ℕ
  pub interval : Duration
  pub timeout : Duration
  pub ready_to_trip : Counts → Bool

module _ (W : Type 0) where
  -- `find_one` decodes the document that it finds, and answers `no_documents` if there is none.
  -- `find` takes the limit that is set, if one is. `insert_one` is handed a pointer, and gives with
  -- its error what the pointer leads to after the call.
  pub record Collection : Type 0 where
    pub insert_one : Message → Exec W (Err × Message)
    pub find_one : Filter → Exec W (Result Message)
    pub find : Filter → Option ℤ → Exec W (Result Cursor)
    pub all : Cursor → Exec W (Result (List Message))
    pub close_cursor : Cursor → Exec W Err
    pub update_one : Filter → Update → Exec W Err

  -- `Execute` of a circuit breaker.
  pub record CircuitBreaker : Type 1 where
    pub execute : {A : Type 0} → Exec W (Result A) → Exec W (Result A)

  -- `Get(…).Result()`, which answers `redis_nil` if there is no such key, and `Set(…).Err()`.
  pub record RedisClient : Type 0 where
    pub get : String → Exec W (Result String)
    pub set : String → String → Duration → Exec W Err

-- The arguments of a queue that the adapter sets, and an `amqp.Publishing`.
pub record QueueArgs : Type 0 where
  pub message_ttl : Option ℕ
  pub dead_letter_exchange : String
  pub dead_letter_routing_key : String

pub record Publishing : Type 0 where
  pub headers : Option Table
  pub is_persistent : Bool
  pub content_type : String
  pub timestamp : Time
  pub body : Bytes

module _ (W : Type 0) where
  -- `exchange_declare name kind durable`, `queue_declare name durable args`,
  -- `queue_bind queue key exchange`, `publish exchange key publishing` and `consume queue auto_ack`;
  -- the flags that the adapter leaves false are no arguments.
  pub record Channel : Type 0 where
    pub exchange_declare : String → String → Bool → Exec W Err
    pub queue_declare : String → Bool → Option QueueArgs → Exec W Err
    pub queue_bind : String → String → String → Exec W Err
    pub publish : String → String → Publishing → Exec W Err
    pub consume : String → Bool → Exec W Err
    pub queue_inspect : String → Exec W (Result ℤ)
    pub close_channel : Exec W Err
    pub close_connection : Exec W Err

-- The JSON of a mark in the inbox. `status_of` decodes a map and gives its `"status"`, if that is a
-- string; `encode_mark status timestamp` encodes the map of these two.
pub record MarkCodec : Type 0 where
  pub status_of : String → Result (Option String)
  pub encode_mark : String → ℕ → Result String
