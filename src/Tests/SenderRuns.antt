-- ===== src/Tests/SenderRuns.antt =====
-- The theorems on the sender service, applied to a run over the simulated environment.
use reliable_messaging_syste.Prelude.{◌+◌, ◌≡◌, ◌<◌, true, false, List, [], ◌∷◌, pos, if◌then◌else◌}
use reliable_messaging_syste.Effects.{ok}
use reliable_messaging_syste.Models.{nil_object_id, Message, unsent}
use reliable_messaging_syste.Sender.Service.{Wake, tick, done, process_unsent_messages}
use reliable_messaging_syste.Sender.Service.Traced.{traced_service}
use reliable_messaging_syste.Sender.Service.Rounds.{round, process_unsent_messages-eq-round}
use reliable_messaging_syste.Sender.Scheduler.{Reach, SerialReach}
use reliable_messaging_syste.Sender.Scheduler.Runners.{
  all_in_round, serial_runners_accounted, overlapping-SerialReach,
}
use reliable_messaging_syste.Sender.Scheduler.Races.{
  racing_starts, racing_starts-Reach, racing_stops, stranded_stops-Reach,
}
use reliable_messaging_syste.Trace.{unsent_listed}
use reliable_messaging_syste.Tests.Simulation.{simulated, sender, message_at}

abbrev wakes : List Wake
wakes = tick ∷ tick ∷ done ∷ []

serial_runners_accounted_example :
    (0 < (all_in_round true 2 3).blocked → 0 < 0 + 3)
    × ((all_in_round true 2 3).blocked ≡ 0 → 0 + 3 ≡ (if true then 1 else 0))
serial_runners_accounted_example =
    serial_runners_accounted (all_in_round true 2 3) (overlapping-SerialReach 2)

overlapping-SerialReach_example : SerialReach (all_in_round true 2 3)
overlapping-SerialReach_example = overlapping-SerialReach 2

racing_starts-Reach_example : Reach (racing_starts true 0 2)
racing_starts-Reach_example = racing_starts-Reach 1

stranded_stops-Reach_example : Reach (racing_stops false 0 1 0)
stranded_stops-Reach_example = stranded_stops-Reach 1

abbrev new_message : Message
new_message = record {
  id = nil_object_id;
  to = "+905321234567";
  content = "hi";
  status = unsent;
  retry_count = pos 0;
  created_at = 1000;
  updated_at = 1000;
}

process_unsent_messages-eq-round_example :
    process_unsent_messages (traced_service simulated sender) []
    ≡ round simulated sender
        (ok (message_at 1 (pos 0) ∷ message_at 2 (pos 0) ∷ []))
        (unsent_listed (pos 2) (ok (message_at 1 (pos 0) ∷ message_at 2 (pos 0) ∷ [])) ∷ [])
process_unsent_messages-eq-round_example = process_unsent_messages-eq-round simulated sender []
