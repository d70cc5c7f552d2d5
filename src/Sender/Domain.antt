-- ===== src/Sender/Domain.antt =====
-- sender_service/internal/domain/sender.go.
use reliable_messaging_syste.Prelude.{String, ℤ, pos}
use reliable_messaging_syste.Effects.{Exec, pure, ◌>>=◌}
use reliable_messaging_syste.Models.{Time, Duration, Message, unsent, nil_object_id}

pub record MessageSender : Type 0 where
  pub batch_size : ℤ
  pub check_interval : Duration

unfoldable pub new_message_sender : ℤ → Duration → MessageSender
new_message_sender batch_size check_interval = record {
  batch_size = batch_size;
  check_interval = check_interval;
}

-- The clock is read once for each of the two times. The id keeps its zero value.
unfoldable pub prepare_message : {W : Type 0} → Exec W Time → String → String → Exec W Message
prepare_message clock content to = do
  created_at ← clock
  updated_at ← clock
  pure (record {
    id = nil_object_id;
    to = to;
    content = content;
    status = unsent;
    retry_count = pos 0;
    created_at = created_at;
    updated_at = updated_at;
  })

abbrev pub get_batch_size : MessageSender → ℤ
get_batch_size s = s.batch_size

abbrev pub get_check_interval : MessageSender → Duration
get_check_interval s = s.check_interval
