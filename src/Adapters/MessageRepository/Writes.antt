-- ===== src/Adapters/MessageRepository/Writes.antt =====
-- What the repository's methods do to the stored messages, for any driver and breaker that keep to
-- their contract.
use reliable_messaging_syste.Prelude.{
  ==_iff, ◌≡◌, ap, inl, inr, none, [], ◌∷◌, ◌==◌, Bool-cases, pos, arith,
}
use reliable_messaging_syste.Effects.{Result, Exec, returns, Outcome-cases, ◌>>=◌}
use reliable_messaging_syste.Models.{ObjectId, Time, MessageStatus, Message}
use reliable_messaging_syste.Store.Evolution.{Docs, Evolves, Evolves-refl, IsLater, IsLater-refl}
use reliable_messaging_syste.Store.Keeps.{evolution, Keeps}
use reliable_messaging_syste.Adapters.MessageRepository.Changes.{
  DriverKeeps, changes-RepositoryLaws,
}
use reliable_messaging_syste.Adapters.Breaker.{guarded_err, of_err}
use reliable_messaging_syste.Store.Laws.{RepositoryLaws}
use reliable_messaging_syste.Adapters.Drivers.{
  id_is, set_status, set_updated_at, inc_retry_count, Update,
}
use reliable_messaging_syste.Adapters.MessageRepository.{
  MongoMessageRepository, update_status, increment_retry_count, as_port,
}
use reliable_messaging_syste.Adapters.MessageRepository.Contract.{
  apply, updated, inserted, CollectionLaws,
}
use reliable_messaging_syste.Adapters.Breaker.Contract.{Reads, BreakerLaws}

-- An update that gives a later version of each message lets the messages evolve.
updated-Evolves :
    (docs : Docs) (id : ObjectId) (u : Update)
    → ((m : Message) → IsLater m (apply u m))
    → Evolves docs (updated docs id u)
updated-Evolves docs id u later j m e = elim (Bool-cases (j == id)) [
  | inl here ↦ (apply u m, rw (here, e), later m)
  | inr there ↦ (m, rw there e, IsLater-refl m)
]

inserted-Evolves :
    (docs : Docs) (id : ObjectId) (m : Message) → docs id ≡ none → Evolves docs (inserted docs id m)
inserted-Evolves docs id m fresh j n e = elim (Bool-cases (j == id)) [
  | inl here ↦ absurd (ground (arith, ap docs ((==_iff j id).0 here)))
  | inr there ↦ (n, rw there e, IsLater-refl n)
]

module _ {W : Type 0} (docs : W → Docs) (r : MongoMessageRepository W)
    (driver : CollectionLaws docs r.collection) (breaker : BreakerLaws docs r.cb)
    (clock : Reads docs r.now) where
  Keeps-of_Reads : {A : Type 0} {m : Exec W A} → Reads docs m → Keeps (evolution docs) m
  Keeps-of_Reads {m = m} h = record { keeps = λ w. rw (h.unchanged w) (Evolves-refl (docs w)) }

  execute-Keeps :
      {A : Type 0} {m : Exec W (Result A)}
      → Keeps (evolution docs) m
      → Keeps (evolution docs) (r.cb.execute m)
  execute-Keeps {m = m} h = record {
    keeps = λ w. elim (breaker.execute_lem m w) [
      | inl (v, ev, _, ew) ↦ rw (ew, ← ev) (h.keeps v)
      | inr (e, _, ew) ↦ rw ew (Evolves-refl (docs w))
    ];
  }

  update_one-Keeps :
      (id : ObjectId) (u : Update)
      → ((m : Message) → IsLater m (apply u m))
      → Keeps (evolution docs) (r.collection.update_one (id_is id ∷ []) u)
  update_one-Keeps id u later = record {
    keeps = λ w. elim (driver.update_one_lem id u w) [
      | inl e ↦ rw e (updated-Evolves (docs w) id u later)
      | inr (_, e) ↦ rw e (Evolves-refl (docs w))
    ];
  }

  insert_one-Keeps : (m : Message) → Keeps (evolution docs) (r.collection.insert_one m)
  insert_one-Keeps m = record {
    keeps = λ w. elim (driver.insert_one_lem m w) [
      | inl (id, fresh, e) ↦ rw e (inserted-Evolves (docs w) id m fresh)
      | inr (_, e) ↦ rw e (Evolves-refl (docs w))
    ];
  }

  pub driver-DriverKeeps : DriverKeeps (evolution docs) r
  driver-DriverKeeps = record {
    find_one_lem = λ f. Keeps-of_Reads (driver.find_one_lem f);
    find_lem = λ f limit. Keeps-of_Reads (driver.find_lem f limit);
    all_lem = λ c. Keeps-of_Reads (driver.all_lem c);
    close_cursor_lem = λ c. Keeps-of_Reads (driver.close_cursor_lem c);
    update_one_lem = update_one-Keeps;
    insert_one_lem = insert_one-Keeps;
    now_lem = Keeps-of_Reads clock;
    execute_lem = λ A m. execute-Keeps;
  }

  -- Over a driver, a breaker and a clock that keep their contract, the repository meets the laws that
  -- the services rely on: no call loses a message, changes its id, recipient, text or time of
  -- creation, lowers its retry count, or makes it unsent again, if no call asks for that status.
  pub as_port-RepositoryLaws : RepositoryLaws (evolution docs) (as_port r)
  as_port-RepositoryLaws = changes-RepositoryLaws (evolution docs) r driver-DriverKeeps

  write_lem :
      (id : ObjectId) (u : Time → Update) (w : W)
      → let (out, w') =
          guarded_err r.cb (r.now >>= λ at. r.collection.update_one (id_is id ∷ []) (u at)) w in
        out ≡ returns none → (at : Time) × (docs w' ≡ updated (docs w) id (u at))
  write_lem id u w h =
      elim (breaker.execute_lem
        (of_err (r.now >>= λ at. r.collection.update_one (id_is id ∷ []) (u at))) w) [
          | inr (e, er, _) ↦ absurd (ground arith)
          | inl (v, ev, er, ew) ↦ elim (Outcome-cases (r.now v).0) [
            | inr p ↦ absurd (ground arith)
            | inl (at, en) ↦
                (at, ground (arith, driver.update_one_lem id (u at) (r.now v).1, clock.unchanged v))
          ]
        ]

  -- If the driver, the breaker and the clock keep their contract, an update of the status that
  -- reports no error has set the status and the time of the update of the message with this id, if
  -- there is one, and has changed nothing else.
  pub update_status_written :
      (id : ObjectId) (st : MessageStatus) (w : W)
      → let (out, w') = update_status r id st w in
        out ≡ returns none
        → (at : Time) × (docs w' ≡ updated (docs w) id (set_status st ∷ set_updated_at at ∷ []))
  unfolding update_status
  update_status_written id st = write_lem id (λ at. set_status st ∷ set_updated_at at ∷ [])

  -- If the driver, the breaker and the clock keep their contract, an increment of the retry count
  -- that reports no error has added one to the count and set the time of the update of the message
  -- with this id, if there is one, and has changed nothing else.
  pub increment_retry_count_written :
      (id : ObjectId) (w : W)
      → let (out, w') = increment_retry_count r id w in
        out ≡ returns none
        → (at : Time) × (docs w'
            ≡ updated (docs w) id (inc_retry_count (pos 1) ∷ set_updated_at at ∷ []))
  unfolding increment_retry_count
  increment_retry_count_written id =
      write_lem id (λ at. inc_retry_count (pos 1) ∷ set_updated_at at ∷ [])
