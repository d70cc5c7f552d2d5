-- ===== src/Processor/Service.antt =====
-- processor_service/internal/application/service/processor_service.go.
pub mod WebhookIds
pub mod Loops
pub mod Traced
pub mod Guards
pub mod Completion
pub mod Inbox
pub mod Retries
pub mod RetryLoop
pub mod Outcomes
pub mod Acks
pub mod Stale
pub mod Sweeps
pub mod Republications
pub mod Spinning
use reliable_messaging_syste.Prelude.{
  ◌*◌, String, true, false, Option, none, some, List, [], ◌∷◌, ltb, leb_ℤ, if◌then◌else◌, not,
}
use reliable_messaging_syste.Effects.{
  Error, errorf, error_text, ok, err, Exec, Err, pure, ◌>>=◌, ◌>>◌, try, try_err, deref, fail, nil,
  for_each,
}
use reliable_messaging_syste.Models.{
  ObjectId, hour, minute, Message, processing, sent, failed, duplicate,
}
use reliable_messaging_syste.Contracts.{
  QueueMessage, empty_queue_message, Delivery, delivery_of, main_queue_name,
}
use reliable_messaging_syste.Ports.{
  MessageRepository, MessageQueue, IdempotencyService, WebhookClient, WebhookResponse, Platform,
}
use reliable_messaging_syste.Processor.Domain.{
  MessageProcessor, get_max_retries, should_process_message,
}
use text.Mathlib.Text.{◌==◌ as str_eq}

-- The fields of `ProcessorService`, with the libraries that its methods call. The channel `done` is
-- an input of the loops below.
pub record ProcessorService (W : Type 0) : Type 0 where
  pub processor : MessageProcessor
  pub repository : MessageRepository W
  pub queue : MessageQueue W
  pub idempotency_service : IdempotencyService W
  pub webhook_client : WebhookClient W
  pub platform : Platform W

-- `webhookResp != nil && webhookResp.MessageID != ""`
abbrev pub has_message_id : Option WebhookResponse → Option String
has_message_id none = none
has_message_id (some r) = if str_eq r.message_id "" then none else some r.message_id

-- What `for { select … }` of `Start` takes next: a delivery, the zero value that a closed channel
-- gives, or the end of `done`.
pub data Input : Type 0 where
  message : Delivery → Input
  channel_closed done : Input

abbrev pub zero_delivery : Delivery
zero_delivery = delivery_of []

-- The same for the loop of `monitorStaleMessages`.
pub data Wake : Type 0 where
  tick done : Wake

module _ {W : Type 0} (s : ProcessorService W) where
  open s use {processor, repository, queue, idempotency_service, webhook_client, platform}

  unfoldable pub handle_malformed_message : Delivery → Error → Exec W Err
  handle_malformed_message delivery e = queue.move_to_dead_letter delivery >> fail e

  unfoldable pub handle_duplicate_message : QueueMessage → Exec W Err
  handle_duplicate_message queue_msg = elim (platform.object_id_from_hex queue_msg.id) [
    | err e ↦ fail e
    | ok msg_id ↦ repository.update_status msg_id duplicate >> nil
  ]

  unfoldable pub handle_invalid_id : Delivery → Error → Exec W Err
  handle_invalid_id delivery e = queue.move_to_dead_letter delivery >> fail e

  unfoldable pub handle_max_retries_reached : Delivery → Message → Exec W Err
  handle_max_retries_reached delivery msg = do
    queue.move_to_dead_letter delivery
    repository.update_status msg.id failed
    fail (error_text "message reached max retry count")

  unfoldable pub handle_stale_message : Delivery → Message → Exec W Err
  handle_stale_message delivery msg = do
    queue.move_to_dead_letter delivery
    repository.update_status msg.id failed
    fail (error_text "message is stale")

  unfoldable pub handle_webhook_error : Delivery → Message → Error → Exec W Err
  handle_webhook_error delivery msg e = try_err (repository.increment_retry_count msg.id) fail (
      try_err (repository.update_status msg.id processing) fail (
        try (repository.get_by_id msg.id) fail λ updated_msg. deref updated_msg λ updated.
          if leb_ℤ (get_max_retries processor) updated.retry_count
          then queue.move_to_dead_letter delivery
            >> repository.update_status msg.id failed
            >> fail (errorf "message reached max retry count" e)
          else try_err (queue.move_to_retry_queue delivery) fail (fail e)))

  unfoldable pub handle_successful_processing : QueueMessage → ObjectId → Exec W Err
  handle_successful_processing queue_msg msg_id =
      try_err (idempotency_service.mark_as_processed queue_msg.id) fail
        (try_err (repository.update_status msg_id sent) fail nil)

  -- From the webhook's answer on.
  unfoldable pub record_webhook_response :
      QueueMessage → ObjectId → Option WebhookResponse → Exec W Err
  unfolding handle_successful_processing
  record_webhook_response queue_msg msg_id webhook_resp = elim (has_message_id webhook_resp) [
    | none ↦ handle_successful_processing queue_msg msg_id
    | some id ↦ do
      idempotency_service.store_webhook_message_id queue_msg.id id (24 * hour)
      handle_successful_processing queue_msg msg_id
  ]

  -- From the decision about the message on.
  unfoldable pub deliver_message : Delivery → QueueMessage → ObjectId → Option Message → Exec W Err
  unfolding should_process_message handle_stale_message handle_max_retries_reached
  deliver_message delivery queue_msg msg_id msg = do
    result ← should_process_message platform.now processor msg
    deref msg λ m.
        if not result.success
        then if result.is_stale
          then handle_stale_message delivery m
          else handle_max_retries_reached delivery m
        else try (webhook_client.send_message m.content m.to) (handle_webhook_error delivery m)
            (record_webhook_response queue_msg msg_id)

  -- From the decoded queue message on.
  unfoldable pub handle_queue_message : Delivery → QueueMessage → Exec W Err
  unfolding handle_duplicate_message handle_invalid_id
  handle_queue_message delivery queue_msg =
      try (idempotency_service.is_processed queue_msg.id)
        (λ e. do platform.nack delivery false true; fail e)
        λ processed.
          if processed
          then handle_duplicate_message queue_msg
          else elim (platform.object_id_from_hex queue_msg.id) [
            | err e ↦ handle_invalid_id delivery e
            | ok msg_id ↦
                try (repository.get_by_id msg_id)
                  (λ e. do platform.nack delivery false true; fail e)
                  (deliver_message delivery queue_msg msg_id)
          ]

  -- The parameter `queueMsg` is overwritten by the decoded body before it is read.
  unfoldable pub handle_message_processing : Delivery → QueueMessage → Exec W Err
  unfolding handle_malformed_message
  handle_message_processing delivery _ = elim (platform.unmarshal delivery.body) [
    | err e ↦ handle_malformed_message delivery e
    | ok queue_msg ↦ handle_queue_message delivery queue_msg
  ]

  unfoldable pub process_message : Delivery → Exec W Err
  process_message delivery =
      let handled =
        try_err (handle_message_processing delivery empty_queue_message)
          (λ e. fail (errorf "failed to process message" e)) nil in
      if ltb 0 delivery.delivery_tag then platform.ack delivery false >> handled else handled

  -- The `for` loop of `Start`, on what its `select` takes.
  unfoldable pub serve : List Input → Exec W (Unit {0})
  serve [] = pure tt
  serve (message d ∷ rest) = process_message d >> serve rest
  serve (channel_closed ∷ rest) = process_message zero_delivery >> serve rest
  serve (Input.done ∷ rest) = pure tt

  -- `Start`, but for the goroutine `monitorStaleMessages`, which is `monitor_stale_messages`. If the
  -- queue cannot be consumed, `log.Fatalf` ends the process: the result is the error that it logs, and
  -- `none` where the method returns.
  unfoldable pub start : List Input → Exec W Err
  start inputs =
      try_err (queue.consume_messages main_queue_name)
        (λ e. fail (errorf "Failed to start consuming messages" e)) (serve inputs >> nil)

  -- `close(s.done)` is the input `done` of the loops.
  unfoldable pub stop : Exec W (Unit {0})
  stop = queue.close

  unfoldable pub handle_stale_message_recovery : Message → Exec W Err
  handle_stale_message_recovery msg =
      elim (platform.marshal (record {
        id = platform.hex msg.id;
        content = msg.content;
        to = "";
        retry = msg.retry_count;
      })) [
        | err e ↦ fail (errorf "failed to marshal message for DLQ" e)
        | ok msg_body ↦
            try_err (queue.move_to_dead_letter (delivery_of msg_body))
              (λ e. fail (errorf "failed to move stale message to DLQ" e))
              (try_err (repository.update_status msg.id failed)
                (λ e. fail (errorf "failed to update stale message status to failed" e)) nil)
      ]

  unfoldable pub check_stale_messages : Exec W Err
  check_stale_messages =
      try (repository.find_stale_processing_messages (4 * minute))
        (λ e. fail (errorf "failed to find stale messages" e))
        λ messages. do for_each messages handle_stale_message_recovery; nil

  unfoldable pub monitor_stale_messages : List Wake → Exec W (Unit {0})
  monitor_stale_messages [] = pure tt
  monitor_stale_messages (tick ∷ rest) = check_stale_messages >> monitor_stale_messages rest
  monitor_stale_messages (Wake.done ∷ rest) = pure tt
