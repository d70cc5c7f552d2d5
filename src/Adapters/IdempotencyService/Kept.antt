-- ===== src/Adapters/IdempotencyService/Kept.antt =====
-- Marks and the later calls of the inbox.
use mathlib.Core.Path.{subst}
use reliable_messaging_syste.Prelude.{
  ℕ, ◌*◌, ◌≡◌, ◌≢◌, refl, sym, ap, ◌∙◌, inl, inr, String, true, some, Bool-cases, arith,
}
use reliable_messaging_syste.Effects.{Result, ok, Exec, Err, Outcome-cases, Result-cases}
use reliable_messaging_syste.Models.{Duration, hour}
use reliable_messaging_syste.Adapters.Breaker.Contract.{Reads, BreakerLaws}
use reliable_messaging_syste.Adapters.Breaker.{of_err}
use reliable_messaging_syste.Adapters.IdempotencyService.{
  RedisIdempotencyService, write_webhook_id, inbox_key, webhook_key, says_processed, write_mark,
  mark_as_processed, store_webhook_message_id,
}
use reliable_messaging_syste.Adapters.IdempotencyService.Contract.{
  Keys, stored, RedisLaws, CodecLaws,
}
use text.Mathlib.Text.{◌==◌ as str_eq}
use text.Mathlib.TextEquality.{eq_iff}
use text.Mathlib.TextLemmas.{cons-append, head-eq_of_cons-eq}
use Prim.Native.Char.{Char, code}
use reliable_messaging_syste.Adapters.IdempotencyService.Marks.{is_processed-ok, IsMarked}

-- A webhook key is never an inbox key: they begin with different letters.
webhook_key-ne-inbox_key : (a b : String) → webhook_key a ≢ inbox_key b
webhook_key-ne-inbox_key a b e = omega (arith, ap code letters)
  where
    letters : ◌≡◌ {A = Char} "w" "i"
    letters =
        head-eq_of_cons-eq (sym (cons-append "w" "ebhook:msg:" a) ∙ e ∙ cons-append "i" "nbox:" b)

module _ {W : Type 0} (keys : W → Keys) (s : RedisIdempotencyService W)
    (redis : RedisLaws keys s.client) (breaker : BreakerLaws keys s.cb) (codec : CodecLaws s.codec)
    (clock : Reads keys s.unix_time) where
  -- Every inbox key that says that its id is processed still says so.
  abbrev KeepsMarked : Keys → Keys → Type 0
  KeepsMarked before after =
      (id v : String)
      → before (inbox_key id) ≡ some v
      → says_processed s.codec v ≡ true
      → (u : String) × (after (inbox_key id) ≡ some u) × (says_processed s.codec u ≡ true)

  KeepsMarked-refl : (k : Keys) → KeepsMarked k k
  KeepsMarked-refl k id v there says = (v, there, says)

  stored_mark-KeepsMarked :
      (k : Keys) (id text : String)
      → says_processed s.codec text ≡ true
      → KeepsMarked k (stored k (inbox_key id) text)
  stored_mark-KeepsMarked k id text mark other v there says =
      elim (Bool-cases (str_eq (inbox_key other) (inbox_key id))) [
        | inl same ↦ (text, rw same refl, mark)
        | inr differ ↦ (v, rw differ there, says)
      ]

  stored_webhook-KeepsMarked :
      (k : Keys) (id text : String) → KeepsMarked k (stored k (webhook_key id) text)
  stored_webhook-KeepsMarked k id text other v there says =
      elim (Bool-cases (str_eq (inbox_key other) (webhook_key id))) [
        | inl same ↦ absurd (
            webhook_key-ne-inbox_key id other
              (sym ((eq_iff (inbox_key other) (webhook_key id)).0 same)))
        | inr differ ↦ (v, rw differ there, says)
      ]

  KeepsMarked-of_eq : (a b : Keys) → b ≡ a → KeepsMarked a b
  KeepsMarked-of_eq a b e = subst (KeepsMarked a) (sym e) (KeepsMarked-refl a)

  KeepsMarked-to : (a b c : Keys) → KeepsMarked a b → c ≡ b → KeepsMarked a c
  KeepsMarked-to a b c h e = subst (KeepsMarked a) (sym e) h

  set_mark-KeepsMarked :
      (id text : String) (at : ℕ) (u w : W)
      → keys u ≡ keys w
      → s.codec.encode_mark "processed" at ≡ ok text
      → KeepsMarked (keys w) (keys (s.client.set (inbox_key id) text (24 * hour) u).1)
  set_mark-KeepsMarked id text at u w same encoded =
      elim (redis.set_lem (inbox_key id) text (24 * hour) u) [
        | inl e ↦
            subst (KeepsMarked (keys w)) (sym (e ∙ ap (λ k. stored k (inbox_key id) text) same)) (
              stored_mark-KeepsMarked (keys w) id text
                (is_processed-ok s.codec at text codec encoded))
        | inr (_, e) ↦ KeepsMarked-of_eq (keys w) _ (e ∙ same)
      ]

  write_mark-KeepsMarked : (id : String) (w : W) → KeepsMarked (keys w) (keys (write_mark s id w).1)
  write_mark-KeepsMarked id w = elim (Outcome-cases (s.unix_time w).0) [
    | inr p ↦
        KeepsMarked-of_eq (keys w) (keys (write_mark s id w).1)
          (ground (arith, p, clock.unchanged w))
    | inl (at, e) ↦ elim (Result-cases (s.codec.encode_mark "processed" at)) [
      | inr (x, refused) ↦
          KeepsMarked-of_eq (keys w) (keys (write_mark s id w).1)
            (ground (arith, e, refused, clock.unchanged w))
      | inl (text, encoded) ↦
          let run : keys (write_mark s id w).1
              ≡ keys (s.client.set (inbox_key id) text (24 * hour) (s.unix_time w).1).1 =
            ground (arith, e, encoded) in
          subst (KeepsMarked (keys w)) (sym run)
            (set_mark-KeepsMarked id text at (s.unix_time w).1 w (clock.unchanged w) encoded)
    ]
  ]

  execute-KeepsMarked :
      {A : Type 0} (m : Exec W (Result A))
      → ((u : W) → KeepsMarked (keys u) (keys (m u).1))
      → (w : W) → KeepsMarked (keys w) (keys (s.cb.execute m w).1)
  execute-KeepsMarked m h w = elim (breaker.execute_lem m w) [
    | inr (_, _, ew) ↦ KeepsMarked-of_eq (keys w) _ ew
    | inl (u, eu, _, ew) ↦
        subst (KeepsMarked (keys w)) (sym ew) (subst (λ k. KeepsMarked k (keys (m u).1)) eu (h u))
  ]

  of_err-KeepsMarked :
      (m : Exec W Err) (w : W)
      → KeepsMarked (keys w) (keys (m w).1)
      → KeepsMarked (keys w) (keys (of_err m w).1)
  of_err-KeepsMarked m w h =
      KeepsMarked-to (keys w) (keys (m w).1) (keys (of_err m w).1) h (ground arith)

  mark_as_processed-KeepsMarked :
      (id : String) (w : W) → KeepsMarked (keys w) (keys (mark_as_processed s id w).1)
  unfolding mark_as_processed
  mark_as_processed-KeepsMarked id w =
      KeepsMarked-to (keys w) (keys (s.cb.execute (of_err (write_mark s id)) w).1)
        (keys (mark_as_processed s id w).1)
        (execute-KeepsMarked (of_err (write_mark s id))
          (λ u. of_err-KeepsMarked (write_mark s id) u (write_mark-KeepsMarked id u)) w)
        (ground arith)

  set_webhook-KeepsMarked :
      (id value : String) (ttl : Duration) (w : W)
      → KeepsMarked (keys w) (keys (s.client.set (webhook_key id) value ttl w).1)
  set_webhook-KeepsMarked id value ttl w = elim (redis.set_lem (webhook_key id) value ttl w) [
    | inl e ↦ subst (KeepsMarked (keys w)) (sym e) (stored_webhook-KeepsMarked (keys w) id value)
    | inr (_, e) ↦ KeepsMarked-of_eq (keys w) _ e
  ]

  store_webhook_message_id-KeepsMarked :
      (id value : String) (ttl : Duration) (w : W)
      → KeepsMarked (keys w) (keys (store_webhook_message_id s id value ttl w).1)
  unfolding store_webhook_message_id
  store_webhook_message_id-KeepsMarked id value ttl w =
      KeepsMarked-to (keys w) (keys (s.cb.execute (write_webhook_id s id value ttl) w).1)
        (keys (store_webhook_message_id s id value ttl w).1)
        (execute-KeepsMarked (write_webhook_id s id value ttl)
          (λ u.
            KeepsMarked-to (keys u) (keys (s.client.set (webhook_key id) value ttl u).1)
              (keys (write_webhook_id s id value ttl u).1) (set_webhook-KeepsMarked id value ttl u)
              (ground arith))
          w)
        (ground arith)

  -- If Redis, the breaker, the codec and the clock keep their contract, a mark of any id outlives the
  -- marking of any id, whether or not that reports an error.
  pub mark_as_processed-IsMarked :
      (id other : String) (w : W)
      → IsMarked keys s redis breaker codec clock other w
      → IsMarked keys s redis breaker codec clock other (mark_as_processed s id w).1
  mark_as_processed-IsMarked id other w (v, there, says) =
      mark_as_processed-KeepsMarked id w other v there says

  -- If Redis, the breaker, the codec and the clock keep their contract, a mark of any id outlives the
  -- storing of any webhook id under any message id, whether or not that reports an error.
  pub store_webhook_message_id-IsMarked :
      (id value : String) (ttl : Duration) (other : String) (w : W)
      → IsMarked keys s redis breaker codec clock other w
      → IsMarked keys s redis breaker codec clock other
          (store_webhook_message_id s id value ttl w).1
  store_webhook_message_id-IsMarked id value ttl other w (v, there, says) =
      store_webhook_message_id-KeepsMarked id value ttl w other v there says
