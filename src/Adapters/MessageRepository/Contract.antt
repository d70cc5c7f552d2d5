-- ===== src/Adapters/MessageRepository/Contract.antt =====
-- What the MongoDB driver documents, stated on the messages by their ids.
use reliable_messaging_syste.Prelude.{
  ℕ, ◌-◌, ◌%◌, ◌≡◌, ◌≢◌, ◌⊎◌, Option, none, some, [], ◌∷◌, ℤ, ◌==◌, if◌then◌else◌, add_ℤ,
}
use reliable_messaging_syste.Effects.{Err, returns}
use reliable_messaging_syste.Models.{ObjectId, Time, millisecond, Message}
use reliable_messaging_syste.Store.Evolution.{Docs}
use reliable_messaging_syste.Adapters.Drivers.{
  id_is, Filter, FieldChange, set_status, set_updated_at, inc_retry_count, Update, Collection,
}
use reliable_messaging_syste.Adapters.Breaker.Contract.{Reads}
use mathlib.Core.Option

-- A BSON date holds milliseconds.
abbrev pub bson_date : Time → Time
bson_date at = at - at % millisecond

-- The meaning of the operators `$set` and `$inc` on the fields that the adapter names.
abbrev pub apply_change : FieldChange → Message → Message
apply_change (set_status st) m = record m { status = st }
apply_change (set_updated_at at) m = record m { updated_at = bson_date at }
apply_change (inc_retry_count n) m = record m { retry_count = add_ℤ m.retry_count n }

abbrev pub apply : Update → Message → Message
apply [] m = m
apply (c ∷ u) m = apply u (apply_change c m)

-- The messages after an update of the message with this id, and after an insertion.
abbrev pub updated : Docs → ObjectId → Update → Docs
updated docs id u j = if j == id then Option.map (apply u) (docs j) else docs j

abbrev pub inserted : Docs → ObjectId → Message → Docs
inserted docs id m j =
    if j == id
    then some (record m {
      id = id;
      created_at = bson_date m.created_at;
      updated_at = bson_date m.updated_at;
    })
    else docs j

module _ {W : Type 0} (docs : W → Docs) where
  -- An update by id writes the message as asked if it reports no error. With an error, as after a
  -- lost reply, it may have written or not. An insertion adds the message under an id that is new.
  pub record CollectionLaws (c : Collection W) : Type 0 where
    pub find_one_lem : (f : Filter) → Reads docs (c.find_one f)
    pub find_lem : (f : Filter) (limit : Option ℤ) → Reads docs (c.find f limit)
    pub all_lem : (cursor : ℕ) → Reads docs (c.all cursor)
    pub close_cursor_lem : (cursor : ℕ) → Reads docs (c.close_cursor cursor)
    pub update_one_lem :
        (id : ObjectId) (u : Update) (w : W)
        → let (r, w') = c.update_one (id_is id ∷ []) u w in
          (docs w' ≡ updated (docs w) id u) ⊎ ((r ≢ returns none) × (docs w' ≡ docs w))
    pub insert_one_lem :
        (m : Message) (w : W)
        → let (r, w') = c.insert_one m w in
          ((id : ObjectId) × (docs w id ≡ none) × (docs w' ≡ inserted (docs w) id m))
          ⊎ (((m' : Message) → r ≢ returns (none, m')) × (docs w' ≡ docs w))

-- The driver encodes the document that it is handed, and does not write to it: an id that it makes
-- for the document is in its result only.
pub record LeavesDocument {W : Type 0} (c : Collection W) : Type 0 where
  pub insert_one_leaves :
      (m m' : Message) (e : Err) (w : W) → (c.insert_one m w).0 ≡ returns (e, m') → m' ≡ m
