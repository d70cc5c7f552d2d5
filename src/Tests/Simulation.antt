-- ===== src/Tests/Simulation.antt =====
-- An environment that answers: one message, an inbox and a retry counter that remember, and a
-- webhook that fails on its first call.
use reliable_messaging_syste.Prelude.{
  ℕ, ◌*◌, ◌≡◌, inl, inr, String, Bool, true, false, ◌||◌, none, some, [], ◌∷◌, ℤ, pos,
  if◌then◌else◌, arith,
}
use reliable_messaging_syste.Effects.{ok, err, external}
use reliable_messaging_syste.Models.{Message, processing, minute}
use reliable_messaging_syste.Contracts.{Delivery}
use reliable_messaging_syste.Processor.Domain.{MessageProcessor}
use reliable_messaging_syste.Processor.Service.Inbox.{Marked, KeepsMarks}
use reliable_messaging_syste.Processor.Service.Retries.{retries, CountsRetries, FindsById}
use reliable_messaging_syste.Sender.Domain.{MessageSender}
use reliable_messaging_syste.Trace.{Env, Trace, marked, webhook_called}
use text.Mathlib.Text.{◌==◌ as str_eq}
use text.Mathlib.TextPositions.{eq_refl}

abbrev pub is_marked : String → Trace → Bool
is_marked id [] = false
is_marked id (marked other none ∷ t) = str_eq other id || is_marked id t
is_marked id (_ ∷ t) = is_marked id t

abbrev was_called : Trace → Bool
was_called [] = false
was_called (webhook_called _ _ _ ∷ t) = true
was_called (_ ∷ t) = was_called t

abbrev pub message_at : ℕ → ℤ → Message
message_at id retry_count = record {
  id = id;
  to = "+905321234567";
  content = "hello";
  status = processing;
  retry_count = retry_count;
  created_at = 0;
  updated_at = 900;
}

abbrev pub simulated : Env
simulated = record {
  now = λ t. 1000;
  ack = λ t d. none;
  nack = λ t d requeue. none;
  is_processed = λ t id. ok (is_marked id t);
  mark_as_processed = λ t id. none;
  store_webhook_message_id = λ t id w ttl. none;
  get_by_id = λ t id. ok (some (message_at id (pos (retries id t))));
  update_status = λ t id st. none;
  increment_retry_count = λ t id. none;
  send_message = λ t content to.
      if was_called t
      then ok (some (record { message = "ok"; message_id = "w1" }))
      else err (external 1);
  move_to_dead_letter = λ t d. none;
  move_to_retry_queue = λ t d. none;
  publish_message = λ t q. none;
  consume_messages = λ t q. none;
  find_unsent_messages = λ t n. ok (message_at 1 (pos 0) ∷ message_at 2 (pos 0) ∷ []);
  find_stale_processing_messages = λ t d. ok (message_at 1 (pos 0) ∷ message_at 2 (pos 0) ∷ []);
  list_messages = λ t. ok [];
  create_message = λ t m. (none, m);
  get_dlq_message_count = λ t. ok (pos 0);
  marshal = λ q. ok (7 ∷ []);
  unmarshal = λ b. ok (record { id = "01"; content = "hello"; to = ""; retry = pos 0 });
  hex = λ id. "01";
  object_id_from_hex = λ text. ok 1;
}

abbrev pub processor : MessageProcessor
processor = record { max_retries = pos 3; stale_duration = 4 * minute }

abbrev pub sender : MessageSender
sender = record { batch_size = pos 2; check_interval = 2 * minute }

abbrev pub delivery : Delivery
delivery = record { delivery_tag = 1; headers = none; content_type = "application/json"; body = [] }

is_marked_of_Marked : (id : String) (t : Trace) → Marked id t → is_marked id t ≡ true
is_marked_of_Marked id [] h = absurd h
is_marked_of_Marked id (marked other none ∷ t) (inl e) = ground (arith, e, eq_refl id)
is_marked_of_Marked id (marked other none ∷ t) (inr h) = ground (arith, is_marked_of_Marked id t h)
is_marked_of_Marked id (marked other (some x) ∷ t) h = is_marked_of_Marked id t h
is_marked_of_Marked id (_ ∷ t) h = is_marked_of_Marked id t h

pub simulated-KeepsMarks : KeepsMarks simulated
simulated-KeepsMarks t id fresh h = ground (arith, is_marked_of_Marked id t h)

pub simulated-CountsRetries : CountsRetries simulated
simulated-CountsRetries t id m e = ground arith

pub simulated-FindsById : FindsById simulated
simulated-FindsById t id m e = ground arith

-- The same with a message that never changes, a webhook that accepts, and an inbox that knows
-- nothing.
abbrev pub accepting : Env
accepting = record simulated {
  is_processed = λ t id. ok false;
  get_by_id = λ t id. ok (some (message_at 1 (pos 0)));
  send_message = λ t content to. ok (some (record { message = "ok"; message_id = "w1" }));
}
