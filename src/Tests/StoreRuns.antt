-- ===== src/Tests/StoreRuns.antt =====
-- The theorems on the stores, applied to a collection and a Redis that work.
use reliable_messaging_syste.Prelude.{
  ◌≡◌, refl, inl, inr, Option-cases, arith, ◌==◌, if◌then◌else◌, false, none, some, [], ◌∷◌, pos,
}
use reliable_messaging_syste.Effects.{ok, returns}
use reliable_messaging_syste.Models.{Time, nil_object_id}
use reliable_messaging_syste.Ports.{MessageQueue, IdempotencyService, WebhookClient, Platform}
use reliable_messaging_syste.Store.Evolution.{Docs, Evolves, Evolves-refl}
use reliable_messaging_syste.Store.Keeps.{evolution, Keeps}
use reliable_messaging_syste.Store.Laws.{RepositoryLaws, OtherLaws}
use reliable_messaging_syste.Processor.Service.{ProcessorService, check_stale_messages}
use reliable_messaging_syste.Sender.Service.{SenderService, create_message}
use reliable_messaging_syste.Store.Services.Processor.{check_stale_messages-Keeps}
use reliable_messaging_syste.System.{Services, Activity, request, round, check, run}
use reliable_messaging_syste.System.Evolution.{
  AnyDelivery, ServicesLaws, services_amid, run_amid-Evolves,
}
use reliable_messaging_syste.Adapters.MessageRepository
use reliable_messaging_syste.Adapters.MessageRepository.Writes.{as_port-RepositoryLaws}
use mathlib.Core.Option
use reliable_messaging_syste.Adapters.MessageRepository.Reading.{
  FindOneLaws, retried, increment_retry_count-get_by_id,
}
use reliable_messaging_syste.Adapters.MessageRepository.Creation.{
  sender_over_mongo, created_id_is_nil,
}
use reliable_messaging_syste.Adapters.IdempotencyService as RedisInbox
use reliable_messaging_syste.Adapters.IdempotencyService.Contract.{Keys, stored}
use reliable_messaging_syste.Adapters.IdempotencyService.Marks.{IsMarked, mark_as_processed_marks}
use reliable_messaging_syste.Tests.Simulation.{processor, sender, delivery, message_at}
use reliable_messaging_syste.Tests.Stores.{
  collection, closed_breaker-BreakerLaws, same_docs, collection-CollectionLaws,
  collection-LeavesDocument, mongo, mongo_clock, same_keys, redis, redis-RedisLaws, redis-CodecLaws,
  redis_clock,
}

abbrev one_message : Docs
one_message j = if j == 1 then some (message_at 1 (pos 0)) else none

abbrev queue : MessageQueue Docs
queue = record {
  publish_message = λ m d. (returns none, d);
  consume_messages = λ q d. (returns none, d);
  move_to_dead_letter = λ m d. (returns none, d);
  move_to_retry_queue = λ m d. (returns none, d);
  get_dlq_message_count = λ d. (returns (ok (pos 0)), d);
  close = λ d. (returns tt, d);
}

abbrev inbox : IdempotencyService Docs
inbox = record {
  is_processed = λ id d. (returns (ok false), d);
  mark_as_processed = λ id d. (returns none, d);
  store_webhook_message_id = λ id w ttl d. (returns none, d);
}

abbrev webhook : WebhookClient Docs
webhook = record {
  send_message = λ c to d. (returns (ok (some (record { message = "ok"; message_id = "w1" }))), d);
}

abbrev platform : Platform Docs
platform = record {
  now = λ d. (returns 1000, d);
  ack = λ m multiple d. (returns none, d);
  nack = λ m multiple requeue d. (returns none, d);
  marshal = λ q. ok (7 ∷ []);
  unmarshal = λ b. ok (record { id = "01"; content = "hello"; to = ""; retry = pos 0 });
  hex = λ id. "01";
  object_id_from_hex = λ text. ok 1;
}

still-Keeps : {A : Type 0} (a : Docs → A) → Keeps (evolution same_docs) (λ d. (returns (a d), d))
still-Keeps a = record { keeps = λ d. Evolves-refl d }

others : OtherLaws (evolution same_docs) AnyDelivery queue inbox webhook platform
others = record {
  move_to_dead_letter_lem = λ m mine. still-Keeps (λ d. none);
  move_to_retry_queue_lem = λ m mine. still-Keeps (λ d. none);
  is_processed_lem = λ id. still-Keeps (λ d. ok false);
  mark_as_processed_lem = λ id. still-Keeps (λ d. none);
  store_webhook_message_id_lem = λ id w ttl. still-Keeps (λ d. none);
  send_message_lem =
      λ c to. still-Keeps (λ d. ok (some (record { message = "ok"; message_id = "w1" })));
  now_lem = still-Keeps (λ d. 1000);
  ack_lem = λ m multiple. still-Keeps (λ d. none);
  nack_lem = λ m multiple requeue mine. still-Keeps (λ d. none);
}

abbrev processor_over_mongo : ProcessorService Docs
processor_over_mongo = record {
  processor = processor;
  repository = MessageRepository.as_port mongo;
  queue = queue;
  idempotency_service = inbox;
  webhook_client = webhook;
  platform = platform;
}

abbrev sender_service : SenderService Docs
sender_service = sender_over_mongo sender mongo queue platform

repository_laws : RepositoryLaws (evolution same_docs) (MessageRepository.as_port mongo)
repository_laws =
    as_port-RepositoryLaws same_docs mongo collection-CollectionLaws
      (closed_breaker-BreakerLaws same_docs) mongo_clock

as_port-RepositoryLaws_example :
    RepositoryLaws (evolution same_docs) (MessageRepository.as_port mongo)
as_port-RepositoryLaws_example =
    as_port-RepositoryLaws same_docs mongo collection-CollectionLaws
      (closed_breaker-BreakerLaws same_docs) mongo_clock

created_id_is_nil_example : 0 ≡ nil_object_id
unfolding create_message MessageRepository.create_message
created_id_is_nil_example =
    created_id_is_nil sender mongo queue platform collection-LeavesDocument "hi" "+905321234567"
      one_message 0 none refl

collection-FindOneLaws : FindOneLaws same_docs collection
collection-FindOneLaws = record {
  found_lem = λ id w m e. elim (Option-cases (w id)) [
    | inl none' ↦ absurd (ground (arith, none'))
    | inr (n, found) ↦ ground (arith, found)
  ];
  missing_lem = λ id w e. elim (Option-cases (w id)) [
    | inl none' ↦ none'
    | inr (n, found) ↦ absurd (ground (arith, found))
  ];
}

increment_retry_count-get_by_id_example :
    (at : Time) × (Option.some (record (message_at 1 (pos 1)) { updated_at = 0 })
      ≡ Option.map (retried at) (one_message 1))
unfolding MessageRepository.increment_retry_count MessageRepository.update_status
    MessageRepository.get_by_id
increment_retry_count-get_by_id_example =
    increment_retry_count-get_by_id same_docs mongo collection-CollectionLaws collection-FindOneLaws
      (closed_breaker-BreakerLaws same_docs) mongo_clock 1 one_message
      (some (record (message_at 1 (pos 1)) { updated_at = 0 })) refl refl refl

abbrev no_keys : Keys
no_keys _ = none

abbrev marked_keys : Keys
marked_keys = stored no_keys "inbox:01" "processed"

mark_as_processed_marks_example :
    IsMarked same_keys redis redis-RedisLaws
      (closed_breaker-BreakerLaws same_keys)
      redis-CodecLaws
      redis_clock
      "01"
      (RedisInbox.mark_as_processed redis "01" no_keys).1
unfolding RedisInbox.mark_as_processed
mark_as_processed_marks_example =
    mark_as_processed_marks same_keys redis redis-RedisLaws (closed_breaker-BreakerLaws same_keys)
      redis-CodecLaws redis_clock "01" no_keys refl

abbrev services : Services Docs
services = record { sender = sender_service; worker = processor_over_mongo }

services-ServicesLaws : ServicesLaws (evolution same_docs) services
services-ServicesLaws = record {
  sender_repository = repository_laws;
  sender_publish = λ q. still-Keeps (λ d. none);
  sender_clock = still-Keeps (λ d. 1000);
  worker_repository = repository_laws;
  worker_others = others;
}

-- Beside the services a second processor checks for stale messages.
abbrev second_monitor : Docs → Docs
second_monitor d = (check_stale_messages processor_over_mongo d).1

run_amid-Evolves_example : Evolves one_message (
    run
      (services_amid second_monitor services)
      (request "hi" "+905321234567" ∷ round ∷ Activity.delivery delivery ∷ check ∷ [])
      one_message)
run_amid-Evolves_example =
    run_amid-Evolves same_docs second_monitor services
      (check_stale_messages-Keeps (evolution same_docs) processor_over_mongo repository_laws
        AnyDelivery others (λ m body e. tt)).keeps
      services-ServicesLaws
      (request "hi" "+905321234567" ∷ round ∷ Activity.delivery delivery ∷ check ∷ []) one_message
