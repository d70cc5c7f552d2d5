-- ===== src/Sender/Scheduler.antt =====
-- The scheduler's state: `MessageScheduler` with its methods `Start` and `Stop`, which concurrent
-- requests call without a lock, and the goroutines that they leave behind. What a goroutine does in
-- a round is `process_unsent_messages` of Service.
pub mod Runners
pub mod Races
use reliable_messaging_syste.Prelude.{
  ℕ, suc, ◌+◌, ◌-◌, ◌<◌, ◌≤◌, ◌≡◌, Bool, true, false, not, if◌then◌else◌,
}

-- `is_running` is the field. The rest counts the calls and goroutines at each of their places:
-- `starting` are the calls of `Start` that have found the field false and have not written it yet,
-- `stopping` those of `Stop` that have found it true and have not written it yet, and `blocked` those
-- of `Stop` that wait at `s.done <- true`, since the channel has no buffer. Of the goroutines in
-- `run`, `waiting` are at the `select` and `in_round` in `processUnsentMessages`.
pub record MessageScheduler : Type 0 where
  pub is_running : Bool
  pub starting : ℕ
  pub stopping : ℕ
  pub blocked : ℕ
  pub waiting : ℕ
  pub in_round : ℕ

unfoldable pub new_message_scheduler : MessageScheduler
new_message_scheduler = record {
  is_running = false;
  starting = 0;
  stopping = 0;
  blocked = 0;
  waiting = 0;
  in_round = 0;
}

-- `Start` up to the test of the field, and from there on.
unfoldable pub check_start : MessageScheduler → MessageScheduler
check_start s = if s.is_running then s else record s { starting = suc s.starting }

unfoldable pub finish_start : MessageScheduler → MessageScheduler
finish_start s = record s { is_running = true; starting = s.starting - 1; waiting = suc s.waiting }

-- `Stop` up to the test of the field, and from there to the send on the channel.
unfoldable pub check_stop : MessageScheduler → MessageScheduler
check_stop s = if not s.is_running then s else record s { stopping = suc s.stopping }

unfoldable pub finish_stop : MessageScheduler → MessageScheduler
finish_stop s = record s { is_running = false; stopping = s.stopping - 1; blocked = suc s.blocked }

-- A call that nothing comes between; that of `Stop` up to the send.
unfoldable pub start : MessageScheduler → MessageScheduler
unfolding check_start finish_start
start s = if s.is_running then s else finish_start (check_start s)

unfoldable pub stop : MessageScheduler → MessageScheduler
unfolding check_stop finish_stop
stop s = if not s.is_running then s else finish_stop (check_stop s)

-- Calls and goroutines interleave between any two accesses to the field. A hand-over lets one blocked
-- `Stop` return and ends one goroutine that is at the `select`.
pub data Step (s u : MessageScheduler) : Type 0 where
  start_checks : u ≡ check_start s → Step s u
  start_finishes : 0 < s.starting → u ≡ finish_start s → Step s u
  stop_checks : u ≡ check_stop s → Step s u
  stop_finishes : 0 < s.stopping → u ≡ finish_stop s → Step s u
  round_begins :
      0 < s.waiting → u ≡ record s { waiting = s.waiting - 1; in_round = suc s.in_round } → Step s u
  round_ends :
      0 < s.in_round
      → u ≡ record s { waiting = suc s.waiting; in_round = s.in_round - 1 }
      → Step s u
  hands_over :
      0 < s.waiting
      → 0 < s.blocked
      → u ≡ record s { waiting = s.waiting - 1; blocked = s.blocked - 1 }
      → Step s u

pub data Reach : MessageScheduler → Type 0 where
  here : Reach new_message_scheduler
  next : {s u : MessageScheduler} → Reach s → Step s u → Reach u

-- In no state on the way are two calls between their test and their write.
pub data SerialReach : MessageScheduler → Type 0 where
  serial_here : SerialReach new_message_scheduler
  serial_next :
      {s u : MessageScheduler}
      → SerialReach s
      → Step s u
      → u.starting + u.stopping ≤ 1
      → SerialReach u
