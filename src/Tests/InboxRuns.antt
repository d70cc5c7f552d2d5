-- ===== src/Tests/InboxRuns.antt =====
-- The worker over a Redis that works, in a world that also counts the calls of the webhook.
use reliable_messaging_syste.Prelude.{
  List, Option-cases, inr, ℕ, suc, ◌≡◌, refl, inl, false, none, some, [], ◌∷◌, pos, arith,
}
use reliable_messaging_syste.Effects.{ok, Exec, returns}
use reliable_messaging_syste.Contracts.{QueueMessage}
use reliable_messaging_syste.Processor.Service.{Input, message, serve, ProcessorService}
use reliable_messaging_syste.Adapters.Breaker.Contract.{Reads}
use reliable_messaging_syste.Adapters.IdempotencyService.{RedisIdempotencyService}
use reliable_messaging_syste.Adapters.IdempotencyService.Contract.{
  Keys, stored, RedisLaws, CodecLaws,
}
use reliable_messaging_syste.Adapters.IdempotencyService.Worker.{
  IsQuiet, over_redis, serve-IsForMarked,
}
use reliable_messaging_syste.Tests.Simulation.{processor, delivery, message_at}
use reliable_messaging_syste.Tests.Stores.{closed_breaker, closed_breaker-BreakerLaws, get_key}

abbrev World : Type 0
World = Keys × ℕ

abbrev keys_of : World → Keys
keys_of w = w.0

abbrev calls_of : World → ℕ
calls_of w = w.1

abbrev counting_redis : RedisIdempotencyService World
counting_redis = record {
  client = record {
    get = λ k w. (returns (get_key (w.0 k)), w);
    set = λ k v ttl w. (returns none, (stored w.0 k v, w.1));
  };
  cb = closed_breaker;
  codec = record { status_of = λ text. ok (some text); encode_mark = λ status at. ok status };
  unix_time = λ w. (returns 1000, w);
}

counting_redis-RedisLaws : RedisLaws keys_of counting_redis.client
counting_redis-RedisLaws = record {
  get_reads = λ k. record { unchanged = λ w. refl };
  get_lem = λ k v w e. inl (ground (arith, e));
  get_found_lem = λ k v w e. elim (Option-cases (w.0 k)) [
    | inl none' ↦ absurd (ground (arith, none'))
    | inr (u, found) ↦ ground (arith, found)
  ];
  set_lem = λ k v ttl w. inl refl;
}

counting_redis-CodecLaws : CodecLaws counting_redis.codec
counting_redis-CodecLaws = record { status_of_lem = λ status at text e. ground (arith, e) }

counting_redis-clock : Reads keys_of counting_redis.unix_time
counting_redis-clock = record { unchanged = λ w. refl }

abbrev queued : QueueMessage
queued = record { id = "01"; content = "hello"; to = ""; retry = pos 0 }

abbrev still : {A : Type 0} → A → Exec World A
still a w = (returns a, w)

abbrev worker : ProcessorService World
worker = record {
  processor = processor;
  repository = record {
    find_unsent_messages = λ n. still (ok []);
    update_status = λ id st. still none;
    increment_retry_count = λ id. still none;
    get_by_id = λ id. still (ok (some (message_at 1 (pos 0))));
    create_message = λ m. still (none, m);
    list_messages = still (ok []);
    find_stale_processing_messages = λ d. still (ok []);
  };
  queue = record {
    publish_message = λ m. still none;
    consume_messages = λ q. still none;
    move_to_dead_letter = λ d. still none;
    move_to_retry_queue = λ d. still none;
    get_dlq_message_count = still (ok (pos 0));
    close = still tt;
  };
  idempotency_service = record {
    is_processed = λ id. still (ok false);
    mark_as_processed = λ id. still none;
    store_webhook_message_id = λ id w ttl. still none;
  };
  webhook_client = record { send_message = λ c to w. (returns (ok none), (w.0, suc w.1)) };
  platform = record {
    now = still 1000;
    ack = λ d multiple. still none;
    nack = λ d multiple requeue. still none;
    marshal = λ q. ok (7 ∷ []);
    unmarshal = λ b. ok queued;
    hex = λ id. "01";
    object_id_from_hex = λ text. ok 1;
  };
}

abbrev marked_world : World
marked_world = (stored (λ _. none) "inbox:01" "processed", 4)

counting-IsQuiet_keys : IsQuiet keys_of counting_redis worker
counting-IsQuiet_keys = record {
  breaker_lem = closed_breaker-BreakerLaws keys_of;
  get_lem = λ k. record { unchanged = λ w. refl };
  ack_lem = λ d. record { unchanged = λ w. refl };
  nack_lem = λ d. record { unchanged = λ w. refl };
  status_lem = λ id. record { unchanged = λ w. refl };
}

counting-IsQuiet_calls : IsQuiet calls_of counting_redis worker
counting-IsQuiet_calls = record {
  breaker_lem = closed_breaker-BreakerLaws calls_of;
  get_lem = λ k. record { unchanged = λ w. refl };
  ack_lem = λ d. record { unchanged = λ w. refl };
  nack_lem = λ d. record { unchanged = λ w. refl };
  status_lem = λ id. record { unchanged = λ w. refl };
}

abbrev twice : List Input
twice = message delivery ∷ message delivery ∷ Input.done ∷ []

serve-IsForMarked_example :
    calls_of (serve (over_redis counting_redis worker) twice marked_world).1 ≡ 4
serve-IsForMarked_example =
    serve-IsForMarked keys_of counting_redis counting_redis-RedisLaws counting_redis-CodecLaws
      counting_redis-clock worker counting-IsQuiet_keys calls_of counting-IsQuiet_calls twice
      marked_world
      (
        (omega arith, (queued, refl, ("processed", refl, refl))),
        ((omega arith, (queued, refl, ("processed", refl, refl))), (tt, tt)),
      )
