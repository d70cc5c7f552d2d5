-- ===== src/Processor/Domain/Decision.antt =====
-- The decision of `ShouldProcessMessage`.
use reliable_messaging_syste.Prelude.{◌≡◌, refl, Bool, false, none, some, not, ◌&&◌, leb_ℤ, arith}
use reliable_messaging_syste.Effects.{Exec, returns}
use reliable_messaging_syste.Models.{Time, MessageStatus, Message}
use reliable_messaging_syste.Processor.Domain.{
  MessageProcessor, is_message_stale, should_process_message,
}

-- With `stale` for what `IsMessageStale` answers about the time of the last update: the decision
-- succeeds exactly if attempts are left and the message is not stale, it asks for a retry exactly if
-- it succeeds, and it is marked stale exactly if attempts are left and the message is stale. It
-- never carries an error or the mark of a duplicate.
should_process_message_lem :
    {W : Type 0} (clock : Exec W Time) (p : MessageProcessor) (m : Message) (w w' : W)
    (stale : Bool)
    → is_message_stale clock p m.updated_at w ≡ (returns stale, w')
    → let left = not (leb_ℤ p.max_retries m.retry_count) in
      (should_process_message clock p (some m) w).0
      ≡ returns (record {
        success = left && not stale;
        error = none;
        should_retry = left && not stale;
        is_duplicate = false;
        is_stale = left && stale;
      })
unfolding is_message_stale should_process_message
should_process_message_lem clock p m w w' stale h = ground arith

-- The decision does not depend on the status of the message: one that was set to `failed` or
-- `duplicate` is judged like one in `processing`.
pub should_process_message_ignores_status :
    {W : Type 0} (clock : Exec W Time) (p : MessageProcessor) (m : Message) (st : MessageStatus)
    (w : W)
    → should_process_message clock p (some (record m { status = st })) w
      ≡ should_process_message clock p (some m) w
unfolding should_process_message
should_process_message_ignores_status clock p m st w = refl
