-- ===== src/Adapters/MessageRepository/Changes.antt =====
-- The repository's methods make only changes that the driver's operations make.
use reliable_messaging_syste.Prelude.{
  ℕ, ◌-◌, ◌≢◌, refl, none, some, [], ◌∷◌, Option, leb_ℤ, true, ◌≡◌, pos, ℤ, add_ℤ, arith,
}
use reliable_messaging_syste.Effects.{errorf, Result, ok, err, Exec, Err}
use reliable_messaging_syste.Models.{ObjectId, Time, MessageStatus, unsent, processing, Message}
use reliable_messaging_syste.Store.Evolution.{IsLater, IsLater-refl}
use reliable_messaging_syste.Store.Keeps.{
  Preorder, Keeps, pure-Keeps, bind-Keeps, defer-Keeps, try-Keeps, try_err-Keeps,
}
use reliable_messaging_syste.Store.Laws.{RepositoryLaws}
use reliable_messaging_syste.Adapters.Breaker.{guarded_err}
use reliable_messaging_syste.Adapters.Drivers.{
  Filter, id_is, status_is, updated_before, set_status, set_updated_at, inc_retry_count, Update,
}
use reliable_messaging_syste.Adapters.MessageRepository.{
  MongoMessageRepository, find_all, find_unsent_messages, update_status, increment_retry_count,
  get_by_id, create_message, list_messages, find_stale_processing_messages, as_port,
}
use reliable_messaging_syste.Adapters.MessageRepository.Contract.{apply}

leb_ℤ-add_one : (i : ℤ) → leb_ℤ i (add_ℤ i (pos 1)) ≡ true
leb_ℤ-add_one i = ground arith

set_status-IsLater :
    (st : MessageStatus) (at : Time) (m : Message)
    → st ≢ unsent
    → IsLater m (apply (set_status st ∷ set_updated_at at ∷ []) m)
set_status-IsLater st at m h = record {
  same_id = refl;
  same_to = refl;
  same_content = refl;
  same_created_at = refl;
  retries_kept = (IsLater-refl m).retries_kept;
  taken_stays = λ _. h;
}

inc-IsLater :
    (at : Time) (m : Message)
    → IsLater m (apply (inc_retry_count (pos 1) ∷ set_updated_at at ∷ []) m)
inc-IsLater at m = ground (arith, leb_ℤ-add_one m.retry_count)

-- Every operation of the driver, the breaker and the clock that the methods use makes an allowed
-- change; an update by id does so if it gives a later version of each message.
pub record DriverKeeps {W : Type 0} {R : W → W → Type 0} (o : Preorder R)
    (r : MongoMessageRepository W) : Type 1 where
  pub find_one_lem : (f : Filter) → Keeps o (r.collection.find_one f)
  pub find_lem : (f : Filter) (limit : Option ℤ) → Keeps o (r.collection.find f limit)
  pub all_lem : (cursor : ℕ) → Keeps o (r.collection.all cursor)
  pub close_cursor_lem : (cursor : ℕ) → Keeps o (r.collection.close_cursor cursor)
  pub update_one_lem :
      (id : ObjectId) (u : Update)
      → ((m : Message) → IsLater m (apply u m))
      → Keeps o (r.collection.update_one (id_is id ∷ []) u)
  pub insert_one_lem : (m : Message) → Keeps o (r.collection.insert_one m)
  pub now_lem : Keeps o r.now
  pub execute_lem : (A : Type 0) (m : Exec W (Result A)) → Keeps o m → Keeps o (r.cb.execute m)

module _ {W : Type 0} {R : W → W → Type 0} (o : Preorder R) (r : MongoMessageRepository W)
    (driver : DriverKeeps o r) where
  guarded_err-Keeps : {m : Exec W Err} → Keeps o m → Keeps o (guarded_err r.cb m)
  guarded_err-Keeps h =
      try-Keeps o
        (driver.execute_lem _ _
          (try_err-Keeps o h (λ e. pure-Keeps o (err e)) (pure-Keeps o (ok tt))))
        (λ e. pure-Keeps o (some (errorf "circuit breaker error" e))) (λ _. pure-Keeps o none)

  find_all-Keeps : (f : Filter) (limit : Option ℤ) → Keeps o (find_all r f limit)
  find_all-Keeps f limit =
      try-Keeps o (driver.find_lem f limit) (λ e. pure-Keeps o (err e))
        λ c. defer-Keeps o (driver.close_cursor_lem c) (driver.all_lem c)

  pub changes-RepositoryLaws : RepositoryLaws o (as_port r)
  unfolding find_unsent_messages update_status increment_retry_count get_by_id create_message
      list_messages find_stale_processing_messages
  changes-RepositoryLaws = record {
    find_unsent_messages_lem = λ n.
        try-Keeps o (driver.execute_lem _ _ (find_all-Keeps (status_is unsent ∷ []) (some n)))
          (λ e. pure-Keeps o _) (λ ms. pure-Keeps o _);
    update_status_lem = λ id st taken. guarded_err-Keeps (
        bind-Keeps o _ _ driver.now_lem λ at.
          driver.update_one_lem id (set_status st ∷ set_updated_at at ∷ [])
            (λ m. set_status-IsLater st at m taken));
    increment_retry_count_lem = λ id. guarded_err-Keeps (
        bind-Keeps o _ _ driver.now_lem λ at.
          driver.update_one_lem id (inc_retry_count (pos 1) ∷ set_updated_at at ∷ [])
            (inc-IsLater at));
    get_by_id_lem = λ id.
        try-Keeps o (driver.find_one_lem (id_is id ∷ [])) (λ e. pure-Keeps o _)
          (λ m. pure-Keeps o _);
    create_message_lem = driver.insert_one_lem;
    list_messages_lem = find_all-Keeps [] none;
    find_stale_lem = λ d.
        bind-Keeps o _ _ driver.now_lem
          λ at. find_all-Keeps (status_is processing ∷ updated_before (at - d) ∷ []) none;
  }
