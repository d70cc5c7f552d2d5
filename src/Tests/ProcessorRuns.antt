-- ===== src/Tests/ProcessorRuns.antt =====
-- The theorems on the processor service, applied to a run over the simulated environment: the first
-- delivery fails, the second succeeds, and the third is a duplicate.
use reliable_messaging_syste.Prelude.{◌*◌, ◌≡◌, ◌≤◌, refl, List, [], ◌∷◌, pos, arith}
use reliable_messaging_syste.Effects.{external, err, ok, returns}
use reliable_messaging_syste.Models.{minute}
use reliable_messaging_syste.Contracts.{QueueMessage}
use reliable_messaging_syste.Processor.Service.{
  Input, message, channel_closed, Wake, process_message, serve, check_stale_messages,
}
use reliable_messaging_syste.Processor.Service.Traced.{traced_service}
use reliable_messaging_syste.Processor.Service.Inbox.{NoCallAfterMark, serve-NoCallAfterMark}
use reliable_messaging_syste.Processor.Service.WebhookIds.{IdsOffered, serve-IdsOffered}
use reliable_messaging_syste.Processor.Service.Guards.{CallsGuarded, serve-CallsGuarded}
use reliable_messaging_syste.Processor.Service.Completion.{
  CompletionOrdered, serve-CompletionOrdered,
}
use reliable_messaging_syste.Processor.Service.Retries.{
  retries, RetriesGuarded, serve-RetriesGuarded, serve-retries-le,
}
use reliable_messaging_syste.Processor.Service.RetryLoop.{retry_moves, serve-retry_moves-le}
use reliable_messaging_syste.Processor.Service.Outcomes.{Ends, process_message-Ends}
use reliable_messaging_syste.Processor.Service.Acks.{NacksComeLate, process_message-NacksComeLate}
use reliable_messaging_syste.Processor.Service.Spinning.{
  closed_receives, letters_trace, serve-closed_receives,
}
use reliable_messaging_syste.Processor.Service.Republications.{republished, serve-republished-le}
use reliable_messaging_syste.Processor.Service.Sweeps.{sweep, check_stale_messages-eq-sweep}
use reliable_messaging_syste.Trace.{Env, stale_listed}
use reliable_messaging_syste.Tests.Simulation.{
  simulated, accepting, processor, delivery, message_at, simulated-KeepsMarks,
  simulated-CountsRetries, simulated-FindsById,
}

abbrev deliveries : List Input
deliveries =
    message delivery ∷ message delivery ∷ message delivery ∷ channel_closed ∷ Input.done ∷ []

abbrev checks : List Wake
checks = Wake.tick ∷ Wake.tick ∷ Wake.done ∷ []

abbrev queued : QueueMessage
queued = record { id = "01"; content = "hello"; to = ""; retry = pos 0 }

serve-NoCallAfterMark_example :
    NoCallAfterMark simulated (serve (traced_service simulated processor) deliveries []).1
serve-NoCallAfterMark_example =
    serve-NoCallAfterMark simulated simulated-KeepsMarks processor deliveries

serve-IdsOffered_example : IdsOffered (serve (traced_service accepting processor) deliveries []).1
serve-IdsOffered_example = serve-IdsOffered accepting processor deliveries

serve-CallsGuarded_example :
    CallsGuarded simulated processor (serve (traced_service simulated processor) deliveries []).1
serve-CallsGuarded_example = serve-CallsGuarded simulated processor deliveries

serve-CompletionOrdered_example :
    CompletionOrdered simulated (serve (traced_service simulated processor) deliveries []).1
serve-CompletionOrdered_example = serve-CompletionOrdered simulated processor deliveries

serve-retries-le_example :
    retries 1 (serve (traced_service simulated processor) deliveries []).1 ≤ 3
serve-retries-le_example =
    serve-retries-le simulated processor 3 refl simulated-CountsRetries simulated-FindsById
      deliveries 1

process_message-Ends_example :
    let (r, t) = process_message (traced_service simulated processor) delivery [] in
    Ends simulated delivery r t
process_message-Ends_example = process_message-Ends simulated processor delivery []

serve-RetriesGuarded_example :
    RetriesGuarded simulated processor (serve (traced_service simulated processor) deliveries []).1
serve-RetriesGuarded_example = serve-RetriesGuarded simulated processor deliveries

check_stale_messages-eq-sweep_example :
    check_stale_messages (traced_service simulated processor) []
    ≡ sweep simulated processor
        (ok (message_at 1 (pos 0) ∷ message_at 2 (pos 0) ∷ []))
        (stale_listed (4 * minute) (ok (message_at 1 (pos 0) ∷ message_at 2 (pos 0) ∷ [])) ∷ [])
check_stale_messages-eq-sweep_example = check_stale_messages-eq-sweep simulated processor []

process_message-NacksComeLate_example :
    NacksComeLate (process_message (traced_service simulated processor) delivery []).1
process_message-NacksComeLate_example =
    process_message-NacksComeLate simulated processor delivery [] (omega arith) tt

serve-retry_moves-le_example :
    retry_moves simulated 1 (serve (traced_service simulated processor) deliveries []).1 ≤ 3
serve-retry_moves-le_example =
    serve-retry_moves-le simulated simulated-FindsById processor 3 refl simulated-CountsRetries
      deliveries 1

serve-republished-le_example :
    republished (serve (traced_service simulated processor) deliveries []).1 ≤ 5
serve-republished-le_example = serve-republished-le simulated processor deliveries

-- An environment in which no body decodes.
abbrev undecoded : Env
undecoded = record simulated { unmarshal = λ b. err (external 4) }

serve-closed_receives_example :
    serve (traced_service undecoded processor) (closed_receives 2) []
    ≡ (returns tt, letters_trace undecoded 2 [])
serve-closed_receives_example = serve-closed_receives undecoded processor (external 4) 2 [] refl
