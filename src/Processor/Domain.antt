-- ===== src/Processor/Domain.antt =====
-- processor_service/internal/domain/processor.go: whether a message may be sent.
pub mod Decision
use reliable_messaging_syste.Prelude.{
  ◌-◌, Bool, true, false, Option, none, ltb, leb_ℤ, ℤ, if◌then◌else◌,
}
use reliable_messaging_syste.Effects.{Exec, Err, pure, deref, ◌>>=◌}
use reliable_messaging_syste.Models.{Time, Duration, Message}

pub record ProcessingResult : Type 0 where
  pub success : Bool
  pub error : Err
  pub should_retry : Bool
  pub is_duplicate : Bool
  pub is_stale : Bool

pub record MessageProcessor : Type 0 where
  pub max_retries : ℤ
  pub stale_duration : Duration

unfoldable pub new_message_processor : ℤ → Duration → MessageProcessor
new_message_processor max_retries stale_duration = record {
  max_retries = max_retries;
  stale_duration = stale_duration;
}

abbrev pub get_max_retries : MessageProcessor → ℤ
get_max_retries p = p.max_retries

-- `time.Since(t) > d` at the time `now`. If `t` lies ahead, the difference is negative in the code
-- and 0 here, and neither passes a duration that is not negative.
abbrev pub since_exceeds : Time → Time → Duration → Bool
since_exceeds now t d = ltb d (now - t)

abbrev pub refused_result : ProcessingResult
refused_result = record {
  success = false;
  error = none;
  should_retry = false;
  is_duplicate = false;
  is_stale = false;
}

abbrev pub stale_result : ProcessingResult
stale_result = record {
  success = false;
  error = none;
  should_retry = false;
  is_duplicate = false;
  is_stale = true;
}

abbrev pub accepted_result : ProcessingResult
accepted_result = record {
  success = true;
  error = none;
  should_retry = true;
  is_duplicate = false;
  is_stale = false;
}

unfoldable pub is_message_stale : {W : Type 0} → Exec W Time → MessageProcessor → Time → Exec W Bool
is_message_stale clock p last_update = do
  now ← clock
  pure (since_exceeds now last_update p.stale_duration)

-- The clock is read only for a message that has attempts left; a nil message panics.
unfoldable pub should_process_message :
    {W : Type 0} → Exec W Time → MessageProcessor → Option Message → Exec W ProcessingResult
should_process_message clock p msg = deref msg λ m.
    if leb_ℤ p.max_retries m.retry_count then pure refused_result else do
      now ← clock
      pure (
          if since_exceeds now m.updated_at p.stale_duration then stale_result else accepted_result)
