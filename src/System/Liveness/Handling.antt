-- ===== src/System/Liveness/Handling.antt =====
-- The handling of a delivery that is due, when the stores of the worker answer.
use mathlib.Core.Path.{subst}
use reliable_messaging_syste.Prelude.{
  ◌≡◌, refl, sym, ap, ◌∙◌, inl, inr, Option, none, some, String, false, ◌*◌, lt→ltb, arith,
}
use reliable_messaging_syste.Effects.{ok, Exec, Err, Outcome, returns, ◌>>◌, Outcome-cases}
use reliable_messaging_syste.Models.{ObjectId, Time, Message, sent, hour}
use reliable_messaging_syste.Contracts.{QueueMessage, Delivery}
use reliable_messaging_syste.Ports.{WebhookResponse}
use reliable_messaging_syste.Store.Evolution.{Docs}
use reliable_messaging_syste.Processor.Domain.{should_process_message}
use reliable_messaging_syste.Processor.Service.{
  ProcessorService, has_message_id, handle_successful_processing, record_webhook_response,
  deliver_message, handle_queue_message, handle_message_processing, process_message,
}
use reliable_messaging_syste.System.Liveness.{sent_at, AnswerLaws, IsDue}

module _ {W : Type 0} (docs : W → Docs) (s : ProcessorService W) (laws : AnswerLaws docs s)
    (id : ObjectId) (m : Message) where
  -- No error, and the message is stored as `sent`.
  abbrev pub Sends : Outcome Err × W → Type 0
  Sends (r, w) = (r ≡ returns none) × ((at : Time) × (docs w id ≡ some (sent_at at m)))

  handle_successful_processing-Sends :
      (q : QueueMessage) (u : W)
      → (s.idempotency_service.mark_as_processed q.id u).0 ≡ returns none
      → docs u id ≡ some m
      → Sends (handle_successful_processing s q id u)
  unfolding handle_successful_processing
  handle_successful_processing-Sends q u marked stored =
      let v : W = (s.idempotency_service.mark_as_processed q.id u).1 in
      let (set, written) =
        laws.repository.update_status_lem id m v
          (ap (λ x. x id) ((laws.mark_as_processed_docs q.id).unchanged u) ∙ stored) in
      let same : handle_successful_processing s q id u
          ≡ (returns none, (s.repository.update_status id sent v).1) =
        ground (arith, marked, set) in
      subst Sends (sym same) (refl, written)

  recorded-Sends :
      (q : QueueMessage) (x : Option String) (u : W)
      → ((u' : W) → (s.idempotency_service.mark_as_processed q.id u').0 ≡ returns none)
      → docs u id ≡ some m
      → Sends (
          elim x as (λ _. Exec W Err) [
            | none ↦ handle_successful_processing s q id
            | some text ↦
                s.idempotency_service.store_webhook_message_id q.id text (24 * hour)
                >> handle_successful_processing s q id
          ]
            u)
  recorded-Sends q none u marks stored = handle_successful_processing-Sends q u (marks u) stored
  recorded-Sends q (some text) u marks stored =
      let store = s.idempotency_service.store_webhook_message_id q.id text (24 * hour) in
      let v : W = (store u).1 in
      let kept = (laws.store_webhook_message_id_docs q.id text (24 * hour)).unchanged u in
      elim (Outcome-cases (store u).0) [
        | inr p ↦ absurd (laws.store_webhook_message_id_lem q.id text (24 * hour) u p)
        | inl (r, e) ↦
            let same : (store >> handle_successful_processing s q id) u
                ≡ handle_successful_processing s q id v =
              ground (arith, e) in
            subst Sends (sym same)
              (handle_successful_processing-Sends q v (marks v) (ap (λ x. x id) kept ∙ stored))
      ]

  record_webhook_response-Sends :
      (q : QueueMessage) (r : Option WebhookResponse) (u : W)
      → ((u' : W) → (s.idempotency_service.mark_as_processed q.id u').0 ≡ returns none)
      → docs u id ≡ some m
      → Sends (record_webhook_response s q id r u)
  unfolding record_webhook_response
  record_webhook_response-Sends q r u marks stored =
      recorded-Sends q (has_message_id r) u marks stored

  deliver_message-Sends :
      (d : Delivery) (q : QueueMessage) (w u : W)
      → IsDue s d q.id m w
      → docs u id ≡ some m
      → Sends (deliver_message s d q id (some m) u)
  unfolding deliver_message should_process_message
  deliver_message-Sends d q w u due stored = elim (Outcome-cases (s.platform.now u).0) [
    | inr p ↦ absurd (laws.now_lem u p)
    | inl (at, read) ↦
        let u₁ : W = (s.platform.now u).1 in
        let u₂ : W = (s.webhook_client.send_message m.content m.to u₁).1 in
        let (r, accepted) = due.accepts u₁ in
        let same : deliver_message s d q id (some m) u ≡ record_webhook_response s q id r u₂ =
          ground (arith, due.attempts_left, read, due.not_stale at u read, accepted) in
        let kept =
          (laws.send_message_docs m.content m.to).unchanged u₁ ∙ laws.now_docs.unchanged u in
        subst Sends (sym same)
          (record_webhook_response-Sends q r u₂ due.marks (ap (λ x. x id) kept ∙ stored))
  ]

  handle_queue_message-Sends :
      (d : Delivery) (q : QueueMessage) (w : W)
      → IsDue s d q.id m w
      → s.platform.object_id_from_hex q.id ≡ ok id
      → docs w id ≡ some m
      → Sends (handle_queue_message s d q (s.platform.ack d false w).1)
  unfolding handle_queue_message
  handle_queue_message-Sends d q w due hex stored =
      let u : W = (s.platform.ack d false w).1 in
      let u₁ : W = (s.idempotency_service.is_processed q.id u).1 in
      let u₂ : W = (s.repository.get_by_id id u₁).1 in
      let before : docs u₁ id ≡ some m =
        ap (λ x. x id) ((laws.is_processed_docs q.id).unchanged u ∙ (laws.ack_docs d).unchanged w)
        ∙ stored in
      let read : (s.repository.get_by_id id u₁).0 ≡ returns (ok (some m)) =
        laws.repository.get_by_id_lem id u₁ ∙ ap (λ x. returns (ok x)) before in
      let same : handle_queue_message s d q u ≡ deliver_message s d q id (some m) u₂ =
        ground (arith, due.is_new, hex, read) in
      subst Sends (sym same) (
        deliver_message-Sends d q w u₂ due
          (ap (λ x. x id) ((laws.repository.get_by_id_docs id).unchanged u₁) ∙ before))

  pub process_message-Sends :
      (d : Delivery) (q : QueueMessage) (w : W)
      → IsDue s d q.id m w
      → s.platform.unmarshal d.body ≡ ok q
      → s.platform.object_id_from_hex q.id ≡ ok id
      → docs w id ≡ some m
      → Sends (process_message s d w)
  unfolding process_message handle_message_processing
  process_message-Sends d q w due decoded hex stored =
      let u : W = (s.platform.ack d false w).1 in
      let (ended, written) = handle_queue_message-Sends d q w due hex stored in
      elim (Outcome-cases (s.platform.ack d false w).0) [
        | inr p ↦ absurd (laws.ack_lem d w p)
        | inl (r, acked) ↦
            let same : process_message s d w ≡ (returns none, (handle_queue_message s d q u).1) =
              ground (arith, lt→ltb 0 d.delivery_tag due.tagged, acked, decoded, ended) in
            subst Sends (sym same) (refl, written)
      ]
