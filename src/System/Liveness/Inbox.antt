-- ===== src/System/Liveness/Inbox.antt =====
-- The Redis inbox answers while Redis is available and the breaker is closed.
use reliable_messaging_syste.Prelude.{ℕ, ◌*◌, ◌≡◌, ◌≢◌, ◌∙◌, inl, inr, String, false, none, arith}
use reliable_messaging_syste.Effects.{
  redis_nil, ok, err, returns, panics, Outcome-cases, Result-cases,
}
use reliable_messaging_syste.Models.{Duration, hour}
use reliable_messaging_syste.Store.Evolution.{Docs}
use reliable_messaging_syste.Adapters.Breaker.{of_err}
use reliable_messaging_syste.Adapters.Breaker.Contract.{Reads, IsClosed}
use reliable_messaging_syste.Adapters.IdempotencyService as RedisInbox
use reliable_messaging_syste.Adapters.IdempotencyService.{
  RedisIdempotencyService, inbox_key, webhook_key, read_mark, write_mark, write_webhook_id,
}
use reliable_messaging_syste.Adapters.IdempotencyService.Contract.{Keys, RedisLaws, CodecLaws}

-- Redis, the codec and the clock keep their contracts, none of them fails or touches the messages,
-- and the breaker is closed: it runs the request.
pub record InboxAvailable {W : Type 0} (keys : W → Keys) (docs : W → Docs)
    (r : RedisIdempotencyService W) : Type 1 where
  pub redis : RedisLaws keys r.client
  pub codec : CodecLaws r.codec
  pub clock : Reads keys r.unix_time
  pub missing_lem :
      (k : String) (w : W) → keys w k ≡ none → (r.client.get k w).0 ≡ returns (err redis_nil)
  pub get_docs : (k : String) → Reads docs (r.client.get k)
  pub set_ends : (k v : String) (ttl : Duration) (w : W) → (r.client.set k v ttl w).0 ≡ returns none
  pub set_docs : (k v : String) (ttl : Duration) → Reads docs (r.client.set k v ttl)
  pub clock_ends : (w : W) → (r.unix_time w).0 ≢ panics
  pub clock_docs : Reads docs r.unix_time
  pub encode_ends : (at : ℕ) → (text : String) × (r.codec.encode_mark "processed" at ≡ ok text)
  pub closed : IsClosed r.cb

module _ {W : Type 0} (keys : W → Keys) (docs : W → Docs) (r : RedisIdempotencyService W)
    (laws : InboxAvailable keys docs r) where
  -- An id without a value under its key is new.
  pub is_processed_new :
      (id : String) (w : W)
      → keys w (inbox_key id) ≡ none
      → (RedisInbox.is_processed r id w).0 ≡ returns (ok false)
  unfolding RedisInbox.is_processed
  is_processed_new id w missing =
      ground (
        arith,
        laws.closed.execute_lem (read_mark r id) w,
        laws.missing_lem (inbox_key id) w missing,
      )

  pub is_processed_docs : (id : String) → Reads docs (RedisInbox.is_processed r id)
  unfolding RedisInbox.is_processed
  is_processed_docs id = record {
    unchanged = λ w.
        let run = laws.closed.execute_lem (read_mark r id) w in
        let same = (laws.get_docs (inbox_key id)).unchanged w in
        elim (Outcome-cases (r.client.get (inbox_key id) w).0) [
          | inr p ↦ ground (arith, run, same, p)
          | inl (x, e) ↦ elim (Result-cases x) [
            | inl (v, ev) ↦ ground (arith, run, same, e, ev)
            | inr (y, ey) ↦ ground (arith, run, same, e, ey)
          ]
        ];
  }

  -- A mark is taken, and the messages stay as they are.
  mark_step :
      (id : String) (w : W)
      → ((RedisInbox.mark_as_processed r id w).0 ≡ returns none)
        × (docs (RedisInbox.mark_as_processed r id w).1 ≡ docs w)
  unfolding RedisInbox.mark_as_processed
  mark_step id w = elim (Outcome-cases (r.unix_time w).0) [
    | inr p ↦ absurd (laws.clock_ends w p)
    | inl (at, read) ↦
        let u : W = (r.unix_time w).1 in
        let (text, encoded) = laws.encode_ends at in
        let run = laws.closed.execute_lem (of_err (write_mark r id)) w in
        let taken = laws.set_ends (inbox_key id) text (24 * hour) u in
        let same =
          (laws.set_docs (inbox_key id) text (24 * hour)).unchanged u
          ∙ laws.clock_docs.unchanged w in
        ground (arith, run, read, encoded, taken, same)
  ]

  pub mark_as_processed_returns :
      (id : String) (w : W) → (RedisInbox.mark_as_processed r id w).0 ≡ returns none
  mark_as_processed_returns id w = (mark_step id w).0

  pub mark_as_processed_docs : (id : String) → Reads docs (RedisInbox.mark_as_processed r id)
  mark_as_processed_docs id = record { unchanged = λ w. (mark_step id w).1 }

  store_step :
      (id text : String) (ttl : Duration) (w : W)
      → ((RedisInbox.store_webhook_message_id r id text ttl w).0 ≡ returns none)
        × (docs (RedisInbox.store_webhook_message_id r id text ttl w).1 ≡ docs w)
  unfolding RedisInbox.store_webhook_message_id
  store_step id text ttl w = ground (
    arith,
    laws.closed.execute_lem (write_webhook_id r id text ttl) w,
    laws.set_ends (webhook_key id) text ttl w,
    (laws.set_docs (webhook_key id) text ttl).unchanged w,
  )

  pub store_webhook_message_id-ne-panics :
      (id text : String) (ttl : Duration) (w : W)
      → (RedisInbox.store_webhook_message_id r id text ttl w).0 ≢ panics
  store_webhook_message_id-ne-panics id text ttl w p =
      absurd (ground (arith, p, (store_step id text ttl w).0))

  pub store_webhook_message_id_docs :
      (id text : String) (ttl : Duration)
      → Reads docs (RedisInbox.store_webhook_message_id r id text ttl)
  store_webhook_message_id_docs id text ttl = record {
    unchanged = λ w. (store_step id text ttl w).1;
  }
