-- ===== src/Sender/Scheduler/Races.antt =====
-- What calls of `Start` and `Stop` can do that race.
use reliable_messaging_syste.Prelude.{ℕ, zero, suc, refl, Bool, true, false, arith}
use reliable_messaging_syste.Sender.Scheduler.{
  MessageScheduler, new_message_scheduler, check_start, finish_start, check_stop, finish_stop,
  start_checks, start_finishes, stop_checks, stop_finishes, hands_over, Reach, here, next,
}

-- These calls of `Start` have tested the field, and this many goroutines are at the `select`.
abbrev pub racing_starts : Bool → ℕ → ℕ → MessageScheduler
racing_starts running starting waiting = record {
  is_running = running;
  starting = starting;
  stopping = 0;
  blocked = 0;
  waiting = waiting;
  in_round = 0;
}

starts_checked : (n : ℕ) → Reach (racing_starts false n 0)
unfolding new_message_scheduler check_start
starts_checked zero = here
starts_checked (suc n) = next (starts_checked n) (start_checks refl)

starts_finished : (k n : ℕ) → Reach (racing_starts true n (suc k))
unfolding finish_start
starts_finished zero n = next (starts_checked (suc n)) (start_finishes (omega arith) (ground arith))
starts_finished (suc k) n =
    next (starts_finished k (suc n)) (start_finishes (omega arith) (ground arith))

-- Calls of `Start` that race can give any number of goroutines with no `Stop` called.
pub racing_starts-Reach : (k : ℕ) → Reach (racing_starts true 0 (suc k))
racing_starts-Reach k = starts_finished k 0

-- These calls of `Stop` have tested the field, and these are blocked.
abbrev pub racing_stops : Bool → ℕ → ℕ → ℕ → MessageScheduler
racing_stops running stopping blocked waiting = record {
  is_running = running;
  starting = 0;
  stopping = stopping;
  blocked = blocked;
  waiting = waiting;
  in_round = 0;
}

stops_checked : (n : ℕ) → Reach (racing_stops true n 0 1)
unfolding check_stop
stops_checked zero = racing_starts-Reach 0
stops_checked (suc n) = next (stops_checked n) (stop_checks refl)

stops_finished : (k n : ℕ) → Reach (racing_stops false n (suc k) 1)
unfolding finish_stop
stops_finished zero n = next (stops_checked (suc n)) (stop_finishes (omega arith) (ground arith))
stops_finished (suc k) n =
    next (stops_finished k (suc n)) (stop_finishes (omega arith) (ground arith))

-- Calls of `Stop` that race can leave any number of them blocked with no goroutine left to receive
-- from the channel.
pub stranded_stops-Reach : (k : ℕ) → Reach (racing_stops false 0 k 0)
stranded_stops-Reach k =
    next (stops_finished k 0) (hands_over (omega arith) (omega arith) (ground arith))
