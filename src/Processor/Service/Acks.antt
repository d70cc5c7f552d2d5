-- ===== src/Processor/Service/Acks.antt =====
-- The acknowledgements of a delivery.
use reliable_messaging_syste.Prelude.{◌≡◌, ◌<◌, ◌⊎◌, [], ◌∷◌, lt→ltb, arith}
use reliable_messaging_syste.Contracts.{Delivery}
use reliable_messaging_syste.Processor.Domain.{MessageProcessor}
use reliable_messaging_syste.Processor.Service.{
  handle_webhook_error, record_webhook_response, deliver_message, handle_queue_message,
  handle_message_processing, process_message,
}
use reliable_messaging_syste.Processor.Service.Traced.{traced_service}
use reliable_messaging_syste.Trace.{Env, Trace, acked, nacked}

-- The delivery was acknowledged before.
abbrev Acked : Delivery → Trace → Type 0
Acked d [] = ⊥
Acked d (acked d' _ ∷ t) = (d' ≡ d) ⊎ Acked d t
Acked d (_ ∷ t) = Acked d t

abbrev pub NacksComeLate : Trace → Type 0
NacksComeLate [] = Unit
NacksComeLate (nacked d _ _ ∷ t) = Acked d t × NacksComeLate t
NacksComeLate (_ ∷ t) = NacksComeLate t

module _ (env : Env) (p : MessageProcessor) where
  -- For a delivery with a tag, every negative acknowledgement that its handling adds comes after a
  -- positive acknowledgement of the same delivery.
  pub process_message-NacksComeLate :
      (d : Delivery) (t : Trace)
      → 0 < d.delivery_tag
      → NacksComeLate t
      → NacksComeLate (process_message (traced_service env p) d t).1
  unfolding process_message handle_message_processing handle_queue_message deliver_message
      handle_webhook_error record_webhook_response
  process_message-NacksComeLate d t tag h = ground (arith, lt→ltb 0 d.delivery_tag tag)
