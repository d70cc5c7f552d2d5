-- ===== src/System/Liveness/Adapters.antt =====
-- The MongoDB repository answers while the collection is available and the breaker is closed.
use reliable_messaging_syste.Prelude.{
  ◌≡◌, ◌≢◌, ◌⊎◌, ap, ◌∙◌, inl, inr, none, some, ==_iff, [], ◌∷◌, refl, arith,
}
use reliable_messaging_syste.Effects.{no_documents, ok, err, returns, panics, Outcome-cases, ◌>>=◌}
use reliable_messaging_syste.Models.{ObjectId, Time, Message, MessageStatus, sent}
use reliable_messaging_syste.Store.Evolution.{Docs}
use reliable_messaging_syste.Adapters.Drivers.{id_is, set_status, set_updated_at, Update}
use reliable_messaging_syste.Adapters.Breaker.{of_err}
use reliable_messaging_syste.Adapters.Breaker.Contract.{Reads, IsClosed, IsClosed-BreakerLaws}
use reliable_messaging_syste.Adapters.MessageRepository
use reliable_messaging_syste.Adapters.MessageRepository.{MongoMessageRepository}
use reliable_messaging_syste.Adapters.MessageRepository.Contract.{
  updated, bson_date, CollectionLaws,
}
use reliable_messaging_syste.Adapters.MessageRepository.Reading.{FindOneLaws}
use reliable_messaging_syste.Adapters.MessageRepository.Writes.{update_status_written}
use reliable_messaging_syste.System.Liveness.{sent_at, RepositoryAnswers}

-- The driver and the clock keep their contracts, no call of the driver fails, and the breaker is
-- closed: it runs the request.
pub record AvailableLaws {W : Type 0} (docs : W → Docs) (r : MongoMessageRepository W)
    : Type 1 where
  pub driver : CollectionLaws docs r.collection
  pub finds : FindOneLaws docs r.collection
  pub clock : Reads docs r.now
  pub find_one_ends :
      (id : ObjectId) (w : W)
      → ((m : Message) × ((r.collection.find_one (id_is id ∷ []) w).0 ≡ returns (ok m)))
        ⊎ ((r.collection.find_one (id_is id ∷ []) w).0 ≡ returns (err no_documents))
  pub update_one_ends :
      (id : ObjectId) (u : Update) (w : W)
      → (r.collection.update_one (id_is id ∷ []) u w).0 ≡ returns none
  pub now_ends : (w : W) → (r.now w).0 ≢ panics
  pub closed : IsClosed r.cb

module _ {W : Type 0} (docs : W → Docs) (r : MongoMessageRepository W)
    (laws : AvailableLaws docs r) where
  pub update_status_returns :
      (id : ObjectId) (st : MessageStatus) (w : W)
      → (MessageRepository.update_status r id st w).0 ≡ returns none
  unfolding MessageRepository.update_status
  update_status_returns id st w = elim (Outcome-cases (r.now w).0) [
    | inr p ↦ absurd (laws.now_ends w p)
    | inl (at, read) ↦ ground (
      arith,
      read,
      laws.closed.execute_lem
          (of_err (
            r.now >>= λ now.
            r.collection.update_one (id_is id ∷ []) (set_status st ∷ set_updated_at now ∷ [])))
          w,
      laws.update_one_ends id (set_status st ∷ set_updated_at at ∷ []) (r.now w).1,
    )
  ]

  updated_sent :
      (d : Docs) (id : ObjectId) (at : Time) (m : Message)
      → d id ≡ some m
      → updated d id (set_status sent ∷ set_updated_at at ∷ []) id ≡ some (sent_at (bson_date at) m)
  updated_sent d id at m stored = ground (arith, stored, (==_iff id id).1 refl)

  get_by_id_found :
      (id : ObjectId) (w : W) → (MessageRepository.get_by_id r id w).0 ≡ returns (ok (docs w id))
  unfolding MessageRepository.get_by_id
  get_by_id_found id w = elim (laws.find_one_ends id w) [
    | inl (m, found) ↦ ground (arith, found, laws.finds.found_lem id w m found)
    | inr missing ↦ ground (arith, missing, laws.finds.missing_lem id w missing)
  ]

  pub as_port-RepositoryAnswers : RepositoryAnswers docs (MessageRepository.as_port r)
  unfolding MessageRepository.get_by_id
  as_port-RepositoryAnswers = record {
    get_by_id_lem = get_by_id_found;
    get_by_id_docs = λ id. record {
      unchanged = λ w. elim (laws.find_one_ends id w) [
        | inl (m, found) ↦
            ground (arith, found, (laws.driver.find_one_lem (id_is id ∷ [])).unchanged w)
        | inr missing ↦
            ground (arith, missing, (laws.driver.find_one_lem (id_is id ∷ [])).unchanged w)
      ];
    };
    update_status_lem = λ id m w stored.
        let written =
          update_status_written docs r laws.driver (IsClosed-BreakerLaws docs r.cb laws.closed)
            laws.clock id sent w (update_status_returns id sent w) in
        (
          update_status_returns id sent w,
          (
            bson_date written.0,
            ap (λ (d : Docs). d id) written.1 ∙ updated_sent (docs w) id written.0 m stored,
          ),
        );
  }
