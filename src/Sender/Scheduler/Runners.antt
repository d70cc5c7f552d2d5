-- ===== src/Sender/Scheduler/Runners.antt =====
-- How many goroutines the scheduler has while its calls do not race.
use reliable_messaging_syste.Prelude.{
  ℕ, zero, suc, ◌+◌, ◌<◌, ◌≡◌, refl, Bool, true, false, if◌then◌else◌, arith,
}
use reliable_messaging_syste.Sender.Scheduler.{
  MessageScheduler, new_message_scheduler, check_start, finish_start, check_stop, finish_stop, Step,
  start_checks, start_finishes, stop_checks, stop_finishes, round_begins, round_ends, hands_over,
  SerialReach, serial_here, serial_next,
}

-- A goroutine runs for each blocked `Stop`, and one more while the scheduler is running. A call that
-- has tested the field still finds it as it was.
pub record IsBalanced (s : MessageScheduler) : Type 0 where
  pub balance : s.waiting + s.in_round ≡ s.blocked + (if s.is_running then 1 else 0)
  pub starts_stopped : 0 < s.starting → s.is_running ≡ false
  pub stops_running : 0 < s.stopping → s.is_running ≡ true
  pub serial : s.starting + s.stopping < 2

Step-IsBalanced :
    {s u : MessageScheduler} → Step s u → u.starting + u.stopping < 2 → IsBalanced s → IsBalanced u
unfolding check_start finish_start check_stop finish_stop
Step-IsBalanced (start_checks e) h b = ground arith
Step-IsBalanced (start_finishes p e) h b = ground arith
Step-IsBalanced (stop_checks e) h b = ground arith
Step-IsBalanced (stop_finishes p e) h b = ground arith
Step-IsBalanced (round_begins p e) h b = ground arith
Step-IsBalanced (round_ends p e) h b = ground arith
Step-IsBalanced (hands_over p q e) h b = ground arith

SerialReach-IsBalanced : {s : MessageScheduler} → SerialReach s → IsBalanced s
unfolding new_message_scheduler
SerialReach-IsBalanced serial_here = ground arith
SerialReach-IsBalanced (serial_next r st h) =
    Step-IsBalanced st (omega arith) (SerialReach-IsBalanced r)

-- If at most one call of `Start` or `Stop` at a time is between its test and its write of the field,
-- then a blocked `Stop` always has a goroutine, at its `select` or in a round, to receive its
-- signal, and with no `Stop` blocked there is exactly one goroutine while the scheduler is running
-- and none otherwise.
pub serial_runners_accounted :
    (s : MessageScheduler)
    → SerialReach s
    → (0 < s.blocked → 0 < s.waiting + s.in_round)
      × (s.blocked ≡ 0 → s.waiting + s.in_round ≡ (if s.is_running then 1 else 0))
serial_runners_accounted s r = ground (arith, SerialReach-IsBalanced r)

-- `k` calls of `Stop` are blocked, and all goroutines are in a round.
abbrev pub all_in_round : Bool → ℕ → ℕ → MessageScheduler
all_in_round running k n = record {
  is_running = running;
  starting = 0;
  stopping = 0;
  blocked = k;
  waiting = 0;
  in_round = n;
}

starts_a_round :
    (k n : ℕ) → SerialReach (all_in_round false k n) → SerialReach (all_in_round true k (suc n))
unfolding check_start finish_start
starts_a_round k n r =
    let s : MessageScheduler = all_in_round false k n in
    serial_next
      (serial_next {u = record s { is_running = true; waiting = 1 }}
        (serial_next {u = record s { starting = 1 }} r (start_checks refl) (omega arith))
        (start_finishes (omega arith) refl) (omega arith))
      (round_begins (omega arith) refl) (omega arith)

stops_in_round :
    (k n : ℕ) → SerialReach (all_in_round true k n) → SerialReach (all_in_round false (suc k) n)
unfolding check_stop finish_stop
stops_in_round k n r =
    let s : MessageScheduler = all_in_round true k n in
    serial_next (serial_next {u = record s { stopping = 1 }} r (stop_checks refl) (omega arith))
      (stop_finishes (omega arith) refl) (omega arith)

-- Even if the calls do not race, any number of goroutines can be in a round at once: `Stop` and
-- `Start` were called `k` times while the earlier goroutines were in a round, and the `k` calls of
-- `Stop` are blocked.
pub overlapping-SerialReach : (k : ℕ) → SerialReach (all_in_round true k (suc k))
unfolding new_message_scheduler
overlapping-SerialReach zero = starts_a_round 0 0 serial_here
overlapping-SerialReach (suc k) =
    starts_a_round (suc k) (suc k) (stops_in_round k (suc k) (overlapping-SerialReach k))
