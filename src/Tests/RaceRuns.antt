-- ===== src/Tests/RaceRuns.antt =====
-- Two workers that take the same delivery: the second one handles it after the first has read the
-- clock and before it calls the webhook.
use reliable_messaging_syste.Prelude.{ℕ, suc, ◌≡◌, refl, [], ◌∷◌, pos, some}
use reliable_messaging_syste.Contracts.{QueueMessage}
use reliable_messaging_syste.Processor.Service.{
  ProcessorService, process_message, handle_queue_message, record_webhook_response,
  handle_message_processing, deliver_message, handle_successful_processing,
}
use reliable_messaging_syste.Processor.Domain.{should_process_message}
use reliable_messaging_syste.Processor.Service.Traced.{traced_service}
use reliable_messaging_syste.System.Interleaving.{worker_amid}
use reliable_messaging_syste.Trace.{Env, Trace, clock_read, webhook_called}
use reliable_messaging_syste.Tests.Simulation.{simulated, processor, delivery}
use reliable_messaging_syste.Effects.{ok}

abbrev answering : Env
answering = record simulated {
  send_message = λ t content to. ok (some (record { message = "ok"; message_id = "w1" }));
}

abbrev worker : ProcessorService Trace
worker = traced_service answering processor

abbrev second : Trace → Trace
second (clock_read at ∷ t) = (process_message worker delivery (clock_read at ∷ t)).1
second t = t

abbrev queued : QueueMessage
queued = record { id = "01"; content = "hello"; to = ""; retry = pos 0 }

abbrev calls : Trace → ℕ
calls [] = 0
calls (webhook_called _ _ _ ∷ t) = suc (calls t)
calls (_ ∷ t) = calls t

-- The webhook is called twice for one message, and both calls are accepted.
called_twice : calls (handle_queue_message (worker_amid second worker) delivery queued []).1 ≡ 2
unfolding process_message handle_message_processing handle_queue_message deliver_message
    should_process_message record_webhook_response handle_successful_processing
called_twice = refl
