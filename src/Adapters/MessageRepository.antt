-- ===== src/Adapters/MessageRepository.antt =====
-- shared/adapters/message_repository_adapter.go: the repository over a MongoDB collection.
pub mod Contract
pub mod Changes
pub mod Writes
pub mod Creation
pub mod Finding
pub mod Reading
use reliable_messaging_syste.Prelude.{
  ◌-◌, ◌==◌, Bool, true, false, Option, none, some, List, [], ◌∷◌, ℤ, pos, if◌then◌else◌,
}
use reliable_messaging_syste.Effects.{
  Error, no_documents, Result, ok, err, Exec, Err, pure, defer, ◌>>=◌, ◌>>◌, try,
}
use reliable_messaging_syste.Models.{
  ObjectId, nil_object_id, Time, Duration, MessageStatus, unsent, processing, Message,
}
use reliable_messaging_syste.Ports
use reliable_messaging_syste.Adapters.Drivers.{
  id_is, status_is, updated_before, Filter, set_status, set_updated_at, inc_retry_count, Collection,
  CircuitBreaker, Settings,
}
use reliable_messaging_syste.Adapters.Breaker.{breaker_settings, guarded, guarded_err}

-- `err == mongo.ErrNoDocuments`
abbrev pub is_no_documents : Error → Bool
is_no_documents no_documents = true
is_no_documents _ = false

pub record MongoMessageRepository (W : Type 0) : Type 1 where
  pub collection : Collection W
  pub cb : CircuitBreaker W
  pub now : Exec W Time

unfoldable pub new_message_repository :
    {W : Type 0}
    → (Settings → CircuitBreaker W)
    → Collection W
    → Exec W Time
    → MongoMessageRepository W
unfolding breaker_settings
new_message_repository new_circuit_breaker collection now = record {
  collection = collection;
  cb = new_circuit_breaker (breaker_settings "mongodb-repository");
  now = now;
}

-- A Go pointer that is not nil: what is read and written through it.
pub record Pointer (W A : Type 0) : Type 0 where
  pub load : Exec W A
  pub store : A → Exec W (Unit {0})

module _ {W : Type 0} (r : MongoMessageRepository W) where
  open r use {collection, cb, now}

  -- A find whose documents are all decoded; the cursor is closed whatever the decoding gives.
  abbrev find_all : Filter → Option ℤ → Exec W (Result (List Message))
  find_all filter limit =
      try (collection.find filter limit) (λ e. pure (err e))
        λ cursor. defer (collection.close_cursor cursor) (collection.all cursor)

  -- A missing document is no error: it is a nil message.
  abbrev find_or_nil : ObjectId → Exec W (Result (Option Message))
  find_or_nil id =
      try (collection.find_one (id_is id ∷ []))
        (λ e. pure (if is_no_documents e then ok none else err e)) (λ m. pure (ok (some m)))

  -- The message is a pointer, which the closure writes to. The breaker may not run the closure.
  unfoldable pub save : Exec W ObjectId → Pointer W Message → Exec W Err
  save new_object_id message = guarded_err cb (do
    m ← message.load
    id ← (if m.id == nil_object_id then new_object_id else pure m.id)
    at ← now
    message.store (record m { id = id; created_at = at })
    inserted ← collection.insert_one (record m { id = id; created_at = at })
    message.store inserted.1
    pure inserted.0)

  unfoldable pub find_by_id : ObjectId → Exec W (Result (Option Message))
  find_by_id id = guarded cb (find_or_nil id)

  unfoldable pub find_unsent_messages : ℤ → Exec W (Result (List Message))
  find_unsent_messages limit = guarded cb (find_all (status_is unsent ∷ []) (some limit))

  unfoldable pub update_status : ObjectId → MessageStatus → Exec W Err
  update_status id status = guarded_err cb (do
    at ← now
    collection.update_one (id_is id ∷ []) (set_status status ∷ set_updated_at at ∷ []))

  unfoldable pub increment_retry_count : ObjectId → Exec W Err
  increment_retry_count id = guarded_err cb (do
    at ← now
    collection.update_one (id_is id ∷ []) (inc_retry_count (pos 1) ∷ set_updated_at at ∷ []))

  unfoldable pub get_by_id : ObjectId → Exec W (Result (Option Message))
  get_by_id id = find_or_nil id

  -- The message is a pointer, whose content after the call is given with the error.
  unfoldable pub create_message : Message → Exec W (Err × Message)
  create_message msg = collection.insert_one msg

  unfoldable pub list_messages : Exec W (Result (List Message))
  list_messages = find_all [] none

  unfoldable pub find_stale_processing_messages : Duration → Exec W (Result (List Message))
  find_stale_processing_messages stale_duration = do
    at ← now
    find_all (status_is processing ∷ updated_before (at - stale_duration) ∷ []) none

  -- The port that these methods implement.
  abbrev pub as_port : Ports.MessageRepository W
  as_port = record {
    find_unsent_messages = find_unsent_messages;
    update_status = update_status;
    increment_retry_count = increment_retry_count;
    get_by_id = get_by_id;
    create_message = create_message;
    list_messages = list_messages;
    find_stale_processing_messages = find_stale_processing_messages;
  }
