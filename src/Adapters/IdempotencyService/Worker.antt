-- ===== src/Adapters/IdempotencyService/Worker.antt =====
-- The worker over this inbox.
use mathlib.Core.Path.{subst}
use reliable_messaging_syste.Prelude.{
  refl, sym, All, List, [], ◌∷◌, some, true, ◌≡◌, ◌<◌, ◌∙◌, ap, inl, inr, String, Bool-cases,
  lt→ltb, true, false, arith,
}
use reliable_messaging_syste.Effects.{ok, returns, Outcome-cases, Result-cases}
use reliable_messaging_syste.Models.{ObjectId, duplicate}
use reliable_messaging_syste.Contracts.{QueueMessage, Delivery}
use reliable_messaging_syste.Processor.Service.{
  Input, message, channel_closed, serve, ProcessorService, handle_queue_message,
  handle_message_processing, process_message,
}
use reliable_messaging_syste.Adapters.Breaker.Contract.{Reads, BreakerLaws}
use reliable_messaging_syste.Adapters.IdempotencyService.{
  RedisIdempotencyService, inbox_key, says_processed, read_mark, is_processed, as_port,
}
use reliable_messaging_syste.Adapters.IdempotencyService.Contract.{Keys, RedisLaws, CodecLaws}
use reliable_messaging_syste.Adapters.IdempotencyService.Marks.{IsMarked, is_processed_of_marked}

-- The calls that a worker makes for a marked id leave the view alone.
pub record IsQuiet {W X : Type 0} (view : W → X) (r : RedisIdempotencyService W)
    (s : ProcessorService W) : Type 1 where
  pub breaker_lem : BreakerLaws view r.cb
  pub get_lem : (k : String) → Reads view (r.client.get k)
  pub ack_lem : (d : Delivery) → Reads view (s.platform.ack d false)
  pub nack_lem : (d : Delivery) → Reads view (s.platform.nack d false true)
  pub status_lem : (id : ObjectId) → Reads view (s.repository.update_status id duplicate)

module _ {W : Type 0} (r : RedisIdempotencyService W) (s : ProcessorService W) where
  abbrev pub over_redis : ProcessorService W
  over_redis = record s { idempotency_service = as_port r }

  -- The delivery has a tag, and its body decodes to a queue message whose id is marked in these keys;
  -- or the loop is told to end.
  abbrev pub IsForMarked : Keys → Input → Type 0
  IsForMarked k (message d) =
      (0 < d.delivery_tag)
      × ((q : QueueMessage) × (s.platform.unmarshal d.body ≡ ok q)
          × ((v : String) × (k (inbox_key q.id) ≡ some v) × (says_processed r.codec v ≡ true)))
  IsForMarked k channel_closed = ⊥
  IsForMarked k Input.done = Unit

module _ {W : Type 0} (keys : W → Keys) (r : RedisIdempotencyService W)
    (redis : RedisLaws keys r.client) (codec : CodecLaws r.codec) (clock : Reads keys r.unix_time)
    (s : ProcessorService W) (quiet_keys : IsQuiet keys r s) where
  abbrev Marked : String → W → Type 0
  Marked = IsMarked keys r redis quiet_keys.breaker_lem codec clock

  module _ {X : Type 0} (view : W → X) (quiet : IsQuiet view r s) where
    check_view : (id : String) → Reads view (is_processed r id)
    unfolding is_processed
    check_view id = record {
      unchanged = λ w. elim (quiet.breaker_lem.execute_lem (read_mark r id) w) [
        | inl (v, ev, _, ew) ↦ ground (arith, ev, ew, (quiet.get_lem (inbox_key id)).unchanged v)
        | inr (_, _, ew) ↦ ground (arith, ew)
      ];
    }

    handle_queue_message-view :
        (d : Delivery) (q : QueueMessage) (w : W)
        → Marked q.id w
        → view (handle_queue_message (over_redis r s) d q w).1 ≡ view w
    unfolding handle_queue_message
    handle_queue_message-view d q w h = elim (Outcome-cases (is_processed r q.id w).0) [
      | inr p ↦ ground (arith, p, (check_view q.id).unchanged w)
      | inl (x, e) ↦ elim (Result-cases x) [
        | inr (y, ey) ↦ ground (
          arith,
          e,
          ey,
          (check_view q.id).unchanged w,
          (quiet.nack_lem d).unchanged (is_processed r q.id w).1,
        )
        | inl (b, eb) ↦ elim (Bool-cases b) [
          | inr no' ↦ absurd (
              is_processed_of_marked keys r redis quiet_keys.breaker_lem codec clock q.id w h
                (e ∙ ap returns (eb ∙ ap ok no')))
          | inl yes' ↦ elim (Result-cases (s.platform.object_id_from_hex q.id)) [
            | inr (y, ey) ↦ ground (arith, e, eb, yes', ey, (check_view q.id).unchanged w)
            | inl (id, ei) ↦ ground (
              arith,
              e,
              eb,
              yes',
              ei,
              (check_view q.id).unchanged w,
              (quiet.status_lem id).unchanged (is_processed r q.id w).1,
            )
          ]
        ]
      ]
    ]

    process_message-view :
        (d : Delivery) (w : W)
        → IsForMarked r s (keys w) (message d)
        → view (process_message (over_redis r s) d w).1 ≡ view w
    unfolding process_message handle_message_processing
    process_message-view d w (tag, (q, decoded, (v, there, says))) =
        let w' : W = (s.platform.ack d false w).1 in
        let marked : Marked q.id w' = (
          v,
          ap (λ (k : Keys). k (inbox_key q.id)) ((quiet_keys.ack_lem d).unchanged w) ∙ there,
          says,
        ) in
        ground (
          arith,
          lt→ltb 0 d.delivery_tag tag,
          decoded,
          (quiet.ack_lem d).unchanged w,
          handle_queue_message-view d q w' marked,
        )

  module _ {X : Type 0} (calls : W → X) (quiet : IsQuiet calls r s) where
    serve_from :
        (inputs : List Input) (w : W) (k : Keys)
        → keys w ≡ k
        → All (IsForMarked r s k) inputs
        → calls (serve (over_redis r s) inputs w).1 ≡ calls w
    unfolding serve
    serve_from [] w k e h = refl
    serve_from (message d ∷ rest) w k e (here, later) =
        let w' : W = (process_message (over_redis r s) d w).1 in
        let marked : IsForMarked r s (keys w) (message d) =
          subst (λ k'. IsForMarked r s k' (message d)) (sym e) here in
        let same : keys w' ≡ k = process_message-view keys quiet_keys d w marked ∙ e in
        ground (arith, process_message-view calls quiet d w marked, serve_from rest w' k same later)
    serve_from (channel_closed ∷ rest) w k e (here, later) = absurd here
    serve_from (Input.done ∷ rest) w k e h = refl

    -- If Redis, the codec and the clock keep their contract, and the calls that a worker makes for a
    -- marked id leave the keys and the webhook alone, then a run of the worker over any number of
    -- deliveries with tags, each of whose bodies decodes to a message with an id that is marked in
    -- Redis at the start, ends with the webhook as it was.
    pub serve-IsForMarked :
        (inputs : List Input) (w : W)
        → All (IsForMarked r s (keys w)) inputs
        → calls (serve (over_redis r s) inputs w).1 ≡ calls w
    serve-IsForMarked inputs w h = serve_from inputs w (keys w) refl h
