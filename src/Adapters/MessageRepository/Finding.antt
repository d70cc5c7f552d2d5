-- ===== src/Adapters/MessageRepository/Finding.antt =====
-- What the listing methods return.
use mathlib.Core.Path.{subst}
use reliable_messaging_syste.Prelude.{
  ℕ, suc, ◌-◌, ◌≡◌, ◌≤◌, ◌<◌, inl, inr, Option, none, some, List, [], ◌∷◌, ℤ, pos, negsuc, zero,
  length, All, arith,
}
use reliable_messaging_syste.Effects.{ok, returns, Outcome-cases, Result-cases}
use reliable_messaging_syste.Models.{Time, Duration, Message, unsent, processing}
use reliable_messaging_syste.Store.Evolution.{Docs}
use reliable_messaging_syste.Adapters.Drivers.{
  FieldTest, id_is, status_is, updated_before, Filter, Collection,
}
use reliable_messaging_syste.Adapters.Breaker.Contract.{Reads, BreakerLaws}
use reliable_messaging_syste.Adapters.MessageRepository.{
  MongoMessageRepository, find_all, find_unsent_messages, find_stale_processing_messages,
}

-- The meaning of a filter.
abbrev pub Passes : FieldTest → Message → Type 0
Passes (id_is id) m = m.id ≡ id
Passes (status_is st) m = m.status ≡ st
Passes (updated_before at) m = m.updated_at < at

abbrev pub Matches : Filter → Message → Type 0
Matches [] m = Unit
Matches (f ∷ fs) m = Passes f m × Matches fs m

-- A limit of 0 is no limit; a negative limit counts as its absolute value.
abbrev pub WithinLimit : Option ℤ → ℕ → Type 0
WithinLimit none n = Unit
WithinLimit (some (pos zero)) n = Unit
WithinLimit (some (pos (suc k))) n = n ≤ suc k
WithinLimit (some (negsuc k)) n = n ≤ suc k

module _ {W : Type 0} (docs : W → Docs) where
  -- A message that was found: it is stored as it is, and passes the filter.
  abbrev pub IsFound : Filter → Docs → Message → Type 0
  IsFound f d m = (d m.id ≡ some m) × Matches f m

  -- The documents that a find gives are those of the collection at that time that the filter asks
  -- for, within the limit.
  pub record FindLaws (c : Collection W) : Type 0 where
    pub found_lem :
        (f : Filter) (limit : Option ℤ) (w : W) (cursor : ℕ) (ms : List Message)
        → (c.find f limit w).0 ≡ returns (ok cursor)
        → (c.all cursor (c.find f limit w).1).0 ≡ returns (ok ms)
        → All (IsFound f (docs w)) ms × WithinLimit limit (length ms)

module _ {W : Type 0} (docs : W → Docs) (r : MongoMessageRepository W)
    (finds : FindLaws docs r.collection) where
  find_all_lem :
      (f : Filter) (limit : Option ℤ) (w : W) (ms : List Message)
      → (find_all r f limit w).0 ≡ returns (ok ms)
      → All (IsFound docs f (docs w)) ms × WithinLimit limit (length ms)
  find_all_lem f limit w ms h = elim (Outcome-cases (r.collection.find f limit w).0) [
    | inr p ↦ absurd (ground (arith, p))
    | inl (x, ex) ↦ elim (Result-cases x) [
      | inr (e, ee) ↦ absurd (ground (arith, ex, ee))
      | inl (cursor, ec) ↦
          elim (Outcome-cases (r.collection.all cursor (r.collection.find f limit w).1).0) [
            | inr p ↦ absurd (ground (arith, ex, ec, p))
            | inl (y, ey) ↦
                finds.found_lem f limit w cursor ms (ground (arith, ex, ec))
                  (ground (arith, ex, ec, ey))
          ]
    ]
  ]

  -- If the driver finds what a filter asks for and the breaker keeps its contract, then what
  -- `FindUnsentMessages` returns without an error are stored messages that are unsent, at most as
  -- many as the limit, if that is not 0.
  pub find_unsent_messages-IsFound :
      (breaker : BreakerLaws docs r.cb) (limit : ℤ) (w : W) (ms : List Message)
      → (find_unsent_messages r limit w).0 ≡ returns (ok ms)
      → All (IsFound docs (status_is unsent ∷ []) (docs w)) ms
        × WithinLimit (some limit) (length ms)
  unfolding find_unsent_messages
  find_unsent_messages-IsFound breaker limit w ms h =
      elim (breaker.execute_lem (find_all r (status_is unsent ∷ []) (some limit)) w) [
        | inr (e, er, _) ↦ absurd (ground (arith, er))
        | inl (v, ev, er, _) ↦
            let found : All (IsFound docs (status_is unsent ∷ []) (docs v)) ms
                × WithinLimit (some limit) (length ms) =
              find_all_lem (status_is unsent ∷ []) (some limit) v ms (ground (arith, er)) in
            subst
              (λ d.
                All (IsFound docs (status_is unsent ∷ []) d) ms
                × WithinLimit (some limit) (length ms))
              ev found
      ]

  -- If the driver finds what a filter asks for and the clock leaves the messages alone, then what
  -- `FindStaleProcessingMessages` returns without an error are stored messages in `processing` that
  -- were last updated more than the duration before the time of the clock.
  pub find_stale_processing_messages-IsFound :
      (clock : Reads docs r.now) (d : Duration) (w : W) (at : Time) (ms : List Message)
      → (r.now w).0 ≡ returns at
      → (find_stale_processing_messages r d w).0 ≡ returns (ok ms)
      → All (IsFound docs (status_is processing ∷ updated_before (at - d) ∷ []) (docs w)) ms
  unfolding find_stale_processing_messages
  find_stale_processing_messages-IsFound clock d w at ms now h =
      let f : Filter = status_is processing ∷ updated_before (at - d) ∷ [] in
      subst (λ k. All (IsFound docs f k) ms) (clock.unchanged w)
        (find_all_lem f none (r.now w).1 ms (ground (arith, now))).0
