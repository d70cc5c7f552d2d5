-- ===== src/Adapters/IdempotencyService/Marks.antt =====
-- The making and the reading of a mark.
use mathlib.Core.Path.{subst}
use reliable_messaging_syste.Prelude.{
  ℕ, ◌*◌, ◌≡◌, ◌≢◌, refl, sym, ap, ◌∙◌, ◌⊎◌, inl, inr, String, true, false, none, some, arith,
}
use reliable_messaging_syste.Effects.{Error, ok, err, returns, Outcome-cases, Result-cases}
use reliable_messaging_syste.Models.{hour}
use reliable_messaging_syste.Adapters.Breaker.Contract.{Reads, BreakerLaws}
use reliable_messaging_syste.Adapters.Breaker.{of_err}
use reliable_messaging_syste.Adapters.Drivers.{MarkCodec}
use reliable_messaging_syste.Adapters.IdempotencyService.{
  RedisIdempotencyService, read_mark, inbox_key, says_processed, write_mark, is_processed,
  mark_as_processed, is_redis_nil,
}
use reliable_messaging_syste.Adapters.IdempotencyService.Contract.{
  Keys, stored, RedisLaws, CodecLaws,
}
use text.Mathlib.TextPositions.{eq_refl}

pub is_processed-ok :
    (c : MarkCodec) (at : ℕ) (text : String)
    → CodecLaws c
    → c.encode_mark "processed" at ≡ ok text
    → says_processed c text ≡ true
is_processed-ok c at text laws e =
    ground (arith, laws.status_of_lem "processed" at text e, eq_refl "processed")

module _ {W : Type 0} (keys : W → Keys) (s : RedisIdempotencyService W)
    (redis : RedisLaws keys s.client) (breaker : BreakerLaws keys s.cb) (codec : CodecLaws s.codec)
    (clock : Reads keys s.unix_time) where
  -- The value under the inbox key of this id says that it is processed.
  abbrev pub IsMarked : String → W → Type 0
  IsMarked id w =
      (v : String) × (keys w (inbox_key id) ≡ some v) × (says_processed s.codec v ≡ true)

  closed_error : (e : Error) → e ≢ Error.redis_nil → is_redis_nil e ≡ false
  closed_error Error.redis_nil h = absurd (h refl)
  closed_error (Error.external n) h = refl
  closed_error Error.no_documents h = refl
  closed_error (Error.errorf t e) h = refl
  closed_error (Error.error_text t) h = refl
  closed_error (Error.error_number t n) h = refl

  read_mark_of_marked :
      (id : String) (w : W)
      → IsMarked id w
      → ((read_mark s id w).0 ≡ returns (ok true))
        ⊎ ((e : Error) × ((read_mark s id w).0 ≡ returns (err e)))
  read_mark_of_marked id w (v, there, says) = elim (redis.get_lem (inbox_key id) v w there) [
    | inl found ↦ inl (ground (arith, found, says))
    | inr (e, other, failed) ↦ inr (e, ground (arith, failed, closed_error e other))
  ]

  -- If Redis, the breaker, the codec and the clock keep their contract, a marked id is never reported
  -- as not processed.
  pub is_processed_of_marked :
      (id : String) (w : W) → IsMarked id w → (is_processed s id w).0 ≢ returns (ok false)
  unfolding is_processed
  is_processed_of_marked id w (v, there, says) r = elim (breaker.execute_lem (read_mark s id) w) [
    | inr (e, er, _) ↦ ground (arith, er, r)
    | inl (u, eu, er, _) ↦
        elim (read_mark_of_marked id u (v, ap (λ (k : Keys). k (inbox_key id)) eu ∙ there, says)) [
          | inl yes' ↦ ground (arith, yes', er, r)
          | inr (e, no') ↦ ground (arith, no', er, r)
        ]
  ]

  read_mark-true : (id : String) (w : W) → (read_mark s id w).0 ≡ returns (ok true) → IsMarked id w
  read_mark-true id w h = elim (Outcome-cases (s.client.get (inbox_key id) w).0) [
    | inr p ↦ absurd (ground (arith, p))
    | inl (x, ex) ↦ elim (Result-cases x) [
      | inr (e, ee) ↦ absurd (ground (arith, ex, ee))
      | inl (v, ev) ↦ (
        v,
        redis.get_found_lem (inbox_key id) v w (ground (arith, ex, ev)),
        ground (arith, ex, ev),
      )
    ]
  ]

  pub IsMarked-of_is_processed :
      (id : String) (w : W) → (is_processed s id w).0 ≡ returns (ok true) → IsMarked id w
  unfolding is_processed
  IsMarked-of_is_processed id w h = elim (breaker.execute_lem (read_mark s id) w) [
    | inr (e, er, _) ↦ absurd (ground (arith, er))
    | inl (u, eu, er, _) ↦
        let (v, there, says) = read_mark-true id u (ground (arith, er)) in
        (v, sym (ap (λ (k : Keys). k (inbox_key id)) eu) ∙ there, says)
  ]

  -- What `set` leaves under a key that it stores to.
  stored_self : (k v : String) (m : Keys) → stored m k v k ≡ some v
  stored_self k v m = rw (eq_refl k) refl

  -- A mark that is written is there.
  set_mark :
      (id text : String) (at : ℕ) (w : W)
      → s.codec.encode_mark "processed" at ≡ ok text
      → let (r, w') = s.client.set (inbox_key id) text (24 * hour) w in
        r ≡ returns none → IsMarked id w'
  set_mark id text at w encoded done = elim (redis.set_lem (inbox_key id) text (24 * hour) w) [
    | inr (failed, _) ↦ absurd (failed done)
    | inl e ↦ (
      text,
      ap (λ (k : Keys). k (inbox_key id)) e ∙ stored_self (inbox_key id) text (keys w),
      is_processed-ok s.codec at text codec encoded,
    )
  ]

  write_mark_lem :
      (id : String) (w : W)
      → (write_mark s id w).0 ≡ returns none
      → IsMarked id (write_mark s id w).1
  write_mark_lem id w h = elim (Outcome-cases (s.unix_time w).0) [
    | inr p ↦ absurd (ground arith)
    | inl (at, e) ↦ elim (Result-cases (s.codec.encode_mark "processed" at)) [
      | inr (x, refused) ↦ absurd (ground arith)
      | inl (text, encoded) ↦
          let run : write_mark s id w
              ≡ s.client.set (inbox_key id) text (24 * hour) (s.unix_time w).1 =
            ground (arith, e, encoded) in
          subst (λ x. IsMarked id x.1) (sym run)
            (set_mark id text at (s.unix_time w).1 encoded (sym (ap (λ x. x.0) run) ∙ h))
    ]
  ]

  -- If Redis, the breaker, the codec and the clock keep their contract, an id whose marking reports
  -- no error is marked afterwards.
  pub mark_as_processed_marks :
      (id : String) (w : W)
      → (mark_as_processed s id w).0 ≡ returns none
      → IsMarked id (mark_as_processed s id w).1
  unfolding mark_as_processed
  mark_as_processed_marks id w h = elim (breaker.execute_lem (of_err (write_mark s id)) w) [
    | inr (e, er, _) ↦ absurd (ground (arith, er))
    | inl (u, eu, er, ew) ↦
        let done : (write_mark s id u).0 ≡ returns none = ground (arith, er) in
        let same : keys (mark_as_processed s id w).1 ≡ keys (write_mark s id u).1 =
          ground (arith, er, ew, done) in
        let (v, there, says) = write_mark_lem id u done in
        (v, ap (λ (k : Keys). k (inbox_key id)) same ∙ there, says)
  ]
