-- ===== src/Adapters/MessageRepository/Reading.antt =====
-- What a read by id gives after the writes that handleWebhookError makes before it.
use reliable_messaging_syste.Prelude.{
  ◌≡◌, refl, ap, ◌∙◌, inl, inr, Option, none, some, [], ◌∷◌, pos, add_ℤ, Option-cases, ==_iff,
  arith,
}
use reliable_messaging_syste.Effects.{no_documents, ok, err, returns, Outcome-cases}
use reliable_messaging_syste.Models.{ObjectId, Time, Message, processing}
use reliable_messaging_syste.Store.Evolution.{Docs}
use reliable_messaging_syste.Adapters.Drivers.{
  id_is, set_status, set_updated_at, inc_retry_count, Collection,
}
use reliable_messaging_syste.Adapters.Breaker.Contract.{Reads, BreakerLaws}
use reliable_messaging_syste.Adapters.MessageRepository.{
  MongoMessageRepository, update_status, increment_retry_count, get_by_id,
}
use reliable_messaging_syste.Adapters.MessageRepository.Contract.{
  updated, bson_date, CollectionLaws,
}
use reliable_messaging_syste.Adapters.MessageRepository.Writes.{
  update_status_written, increment_retry_count_written,
}
use mathlib.Core.Option

-- A find by id gives the document with the id, or says that there is none.
pub record FindOneLaws {W : Type 0} (docs : W → Docs) (c : Collection W) : Type 0 where
  pub found_lem :
      (id : ObjectId) (w : W) (m : Message)
      → (c.find_one (id_is id ∷ []) w).0 ≡ returns (ok m)
      → docs w id ≡ some m
  pub missing_lem :
      (id : ObjectId) (w : W)
      → (c.find_one (id_is id ∷ []) w).0 ≡ returns (err no_documents)
      → docs w id ≡ none

-- The message after a webhook error at this time.
abbrev pub retried : Time → Message → Message
retried at m = record m {
  status = processing;
  retry_count = add_ℤ m.retry_count (pos 1);
  updated_at = at;
}

updated_twice :
    (d : Docs) (id : ObjectId) (before at : Time)
    → updated
        (updated d id (inc_retry_count (pos 1) ∷ set_updated_at before ∷ []))
        id
        (set_status processing ∷ set_updated_at at ∷ [])
        id
      ≡ Option.map (retried (bson_date at)) (d id)
updated_twice d id before at = elim (Option-cases (d id)) [
  | inl none' ↦ ground (arith, none', (==_iff id id).1 refl)
  | inr (m, e) ↦ ground (arith, e, (==_iff id id).1 refl)
]

module _ {W : Type 0} (docs : W → Docs) (r : MongoMessageRepository W)
    (driver : CollectionLaws docs r.collection) (finds : FindOneLaws docs r.collection)
    (breaker : BreakerLaws docs r.cb) (clock : Reads docs r.now) where
  get_by_id_ok :
      (id : ObjectId) (w : W) (o : Option Message)
      → (get_by_id r id w).0 ≡ returns (ok o)
      → o ≡ docs w id
  unfolding get_by_id
  get_by_id_ok id w o h = elim (Outcome-cases (r.collection.find_one (id_is id ∷ []) w).0) [
    | inr p ↦ absurd (ground (arith, p))
    | inl (ok m, e) ↦ ground (arith, e, finds.found_lem id w m e)
    | inl (err no_documents, e) ↦ ground (arith, e, finds.missing_lem id w e)
    | inl (err x, e) ↦ absurd (ground (arith, e))
  ]

  -- If the driver, the breaker and the clock keep their contract, and the two writes that follow a
  -- webhook error report no error, then what the read after them gives without an error is the
  -- message that was stored before them, if there was one, with the retry count raised by one, in
  -- `processing` and with a new time of update, and nil otherwise.
  pub increment_retry_count-get_by_id :
      (id : ObjectId) (w : W) (o : Option Message)
      → let counted = increment_retry_count r id w in
        let set = update_status r id processing counted.1 in
        counted.0 ≡ returns none
        → set.0 ≡ returns none
        → (get_by_id r id set.1).0 ≡ returns (ok o)
        → (at : Time) × (o ≡ Option.map (retried at) (docs w id))
  increment_retry_count-get_by_id id w o c s h =
      let v : W = (increment_retry_count r id w).1 in
      let u : W = (update_status r id processing v).1 in
      let (before, ec) = increment_retry_count_written docs r driver breaker clock id w c in
      let (at, es) = update_status_written docs r driver breaker clock id processing v s in
      (
        bson_date at,
        get_by_id_ok id u o h
            ∙ ap (λ d. d id) es
            ∙ ap (λ d. updated d id (set_status processing ∷ set_updated_at at ∷ []) id) ec
            ∙ updated_twice (docs w) id before at,
      )
