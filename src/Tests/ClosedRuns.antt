-- ===== src/Tests/ClosedRuns.antt =====
-- The theorems on what waits, applied to both services over stores that work, from empty queues on.
use reliable_messaging_syste.Prelude.{◌≢◌, refl, inl, inr, Option-cases, [], ◌∷◌, arith}
use reliable_messaging_syste.Effects.{panics, for_each}
use reliable_messaging_syste.Models.{Bytes}
use reliable_messaging_syste.Store.Services.Handling.{ReturnLaws}
use reliable_messaging_syste.Sender.Service.{process_unsent_messages, handle_message}
use reliable_messaging_syste.Processor.Service.{process_message}
use reliable_messaging_syste.Adapters.MessageRepository
use reliable_messaging_syste.Adapters.MessageRepository.{MongoMessageRepository}
use reliable_messaging_syste.Adapters.MessageQueue
use reliable_messaging_syste.Adapters.MessageQueue.{RabbitMqAdapter}
use reliable_messaging_syste.System.{perform}
use reliable_messaging_syste.System.Queues.{IsWaiting, QueueLaws, Reach, here, next, publishes}
use reliable_messaging_syste.System.Queues.Implementation.{over_adapters-QueueLaws}
use reliable_messaging_syste.System.Queues.References.{Refers, Reach-AllRefer}
use reliable_messaging_syste.System.Queues.Handling.{Reach-ne-panics}
use reliable_messaging_syste.Tests.Closed.{
  docs_in, topology_in, waiting_in, mongo, mq, bare, services, start, after_round, handed,
  adapters-AdapterLaws, services-QueueLaws,
}

over_adapters-QueueLaws_example : QueueLaws docs_in waiting_in services
over_adapters-QueueLaws_example =
    over_adapters-QueueLaws topology_in docs_in waiting_in mongo mq bare adapters-AdapterLaws

none_waits : (b : Bytes) → ¬ IsWaiting docs_in waiting_in b start
none_waits b waits = waits.1

one_round : Reach docs_in waiting_in services start after_round
one_round = next here (publishes refl)

body_waits : IsWaiting docs_in waiting_in (7 ∷ []) after_round
unfolding perform process_unsent_messages handle_message for_each MessageQueue.publish_message
    MessageRepository.update_status MessageRepository.find_unsent_messages
body_waits = ("messages", inl refl)

Reach-AllRefer_example : Refers docs_in waiting_in services (7 ∷ []) after_round
Reach-AllRefer_example =
    Reach-AllRefer docs_in waiting_in services services-QueueLaws start after_round none_waits
      one_round (7 ∷ []) body_waits

worker-ReturnLaws : ReturnLaws docs_in services.worker
unfolding MessageRepository.get_by_id MessageRepository.update_status
    MessageRepository.increment_retry_count MessageQueue.move_to_dead_letter
    MessageQueue.move_to_retry_queue
worker-ReturnLaws = record {
  get_by_id_lem = λ id w e. elim (Option-cases (w.0 id)) [
    | inl none' ↦ absurd (ground (arith, none'))
    | inr (m, there) ↦ absurd (ground (arith, there))
  ];
  read_lem = λ id w o e. elim (Option-cases (w.0 id)) [
    | inl none' ↦ ground (arith, none')
    | inr (m, there) ↦ ground (arith, there)
  ];
  update_status_lem = λ id st w e. absurd (ground arith);
  increment_retry_count_lem = λ id w e. absurd (ground arith);
  move_to_dead_letter_lem = λ d w e. absurd (ground arith);
  move_to_retry_queue_lem = λ d w e. absurd (ground arith);
  is_processed_lem = λ id w e. absurd (ground arith);
  mark_as_processed_lem = λ id w e. absurd (ground arith);
  store_webhook_message_id_lem = λ id text ttl w e. absurd (ground arith);
  send_message_lem = λ content to w e. absurd (ground arith);
  now_lem = λ w e. absurd (ground arith);
  ack_lem = λ d w e. absurd (ground arith);
  nack_lem = λ d w e. absurd (ground arith);
}

Reach-ne-panics_example : (process_message services.worker handed after_round).0 ≢ panics
Reach-ne-panics_example =
    Reach-ne-panics docs_in waiting_in services services-QueueLaws worker-ReturnLaws start
      after_round handed none_waits one_round body_waits
