-- ===== src/Adapters/MessageQueue/Routing.antt =====
-- Which queue each publication of the adapter reaches, and what it carries.
use reliable_messaging_syste.Prelude.{
  ◌≡◌, ◌⊎◌, ap, inl, inr, String, true, false, none, some, arith,
}
use reliable_messaging_syste.Effects.{ok, ◌>>=◌, Outcome-cases}
use reliable_messaging_syste.Models.{Time, Bytes}
use reliable_messaging_syste.Contracts.{
  QueueMessage, Delivery, main_queue_name, retry_queue_name, dlq_queue_name, main_exchange,
  retry_exchange,
}
use reliable_messaging_syste.Adapters.Drivers.{Publishing}
use reliable_messaging_syste.Adapters.Breaker.Contract.{Reads}
use reliable_messaging_syste.Adapters.MessageQueue.{
  RabbitMqAdapter, headers_of, publish_message, move_to_dead_letter, move_to_retry_queue,
}
use reliable_messaging_syste.Adapters.MessageQueue.Contract.{
  Topology, routed, Waiting, IsAdded, ChannelLaws,
}
use reliable_messaging_syste.Adapters.MessageQueue.Topology.{IsSetUp}
use text.Mathlib.Text.{◌==◌ as str_eq}

-- What of the broker a call to publish looks at and changes.
abbrev pub Broker : Type 0
Broker = Topology × Waiting

-- Every queue is as it was.
abbrev pub IsSame : Waiting → Waiting → Type 0
IsSame before after = (q : String) → after q ≡ before q

-- What is published again for a delivery at this time.
abbrev pub republished : Delivery → Time → Publishing
republished d at = record {
  headers = some (headers_of d);
  is_persistent = false;
  content_type = d.content_type;
  timestamp = at;
  body = d.body;
}

abbrev pub published : Bytes → Time → Publishing
published body at = record {
  headers = none;
  is_persistent = true;
  content_type = "application/json";
  timestamp = at;
  body = body;
}

module _ {W : Type 0} (topology : W → Topology) (waiting : W → Waiting) (mq : RabbitMqAdapter W)
    (broker : ChannelLaws topology waiting mq.channel) (clock : Reads topology mq.now)
    (clock' : Reads waiting mq.now) where
  -- One message is added to the queue, at some time, or none to any.
  abbrev pub AddsTo : String → (Time → Publishing) → W → W → Type 0
  AddsTo queue m w w' =
      IsSame (waiting w) (waiting w')
      ⊎ ((at : Time) × IsAdded queue (m at) (waiting w) (waiting w'))

  AddsTo-stays :
      (queue : String) (m : Time → Publishing) (w w' : W)
      → waiting w' ≡ waiting w
      → AddsTo queue m w w'
  AddsTo-stays queue m w w' e = inl (λ q. ground arith)

  publish-AddsTo :
      (exchange key queue : String) (m : Time → Publishing) (w : W)
      → ((q : String) → routed (topology w) exchange key q ≡ str_eq q queue)
      → AddsTo queue m w ((mq.now >>= λ at. mq.channel.publish exchange key (m at)) w).1
  publish-AddsTo exchange key queue m w route = elim (Outcome-cases (mq.now w).0) [
    | inr p ↦ AddsTo-stays queue m w _ (ground (arith, p, clock'.unchanged w))
    | inl (at, e) ↦
        let w₁ : W = (mq.now w).1 in
        elim ((broker.publish_lem exchange key (m at) w₁).1) [
          | inl same ↦
              inl (λ q. ground (arith, e, same q, ap (λ (k : Waiting). k q) (clock'.unchanged w)))
          | inr sent ↦ inr (
            at,
            λ q. ground (
              arith,
              e,
              sent q,
              route q,
              clock.unchanged w,
              ap (λ (k : Waiting). k q) (clock'.unchanged w),
            ),
          )
        ]
  ]

  publish_message-AddsTo :
      (q : QueueMessage) (body : Bytes) (w : W)
      → IsSetUp (topology w)
      → mq.marshal q ≡ ok body
      → AddsTo main_queue_name (published body) w (publish_message mq q w).1
  unfolding publish_message
  publish_message-AddsTo q body w ready encoded =
      rw (encoded, publish_message)
        (publish-AddsTo main_exchange main_queue_name main_queue_name (published body) w
          ready.main_routed)

  move_to_dead_letter-AddsTo :
      (d : Delivery) (w : W)
      → IsSetUp (topology w)
      → AddsTo dlq_queue_name (republished d) w (move_to_dead_letter mq d w).1
  unfolding move_to_dead_letter
  move_to_dead_letter-AddsTo d w ready =
      publish-AddsTo "" dlq_queue_name dlq_queue_name (republished d) w ready.dlq_routed

  move_to_retry_queue-AddsTo :
      (d : Delivery) (w : W)
      → IsSetUp (topology w)
      → AddsTo retry_queue_name (republished d) w (move_to_retry_queue mq d w).1
  unfolding move_to_retry_queue
  move_to_retry_queue-AddsTo d w ready =
      publish-AddsTo retry_exchange retry_queue_name retry_queue_name (republished d) w
        ready.retry_routed

  -- In a broker that is set up, and if the clock leaves it alone: the publication of a queue message
  -- that can be encoded changes no queue but the main queue, the move to the dead-letter queue none
  -- but that one, and the move to the retry queue none but that one. What they add, if they add
  -- anything, is one message: a persistent one that has the encoded body, and for the two moves one
  -- that is not persistent, with the headers, the content type and the body of the delivery.
  pub publications-AddsTo :
      (q : QueueMessage) (body : Bytes) (d : Delivery) (w : W)
      → IsSetUp (topology w)
      → mq.marshal q ≡ ok body
      → AddsTo main_queue_name (published body) w (publish_message mq q w).1
        × AddsTo dlq_queue_name (republished d) w (move_to_dead_letter mq d w).1
        × AddsTo retry_queue_name (republished d) w (move_to_retry_queue mq d w).1
  publications-AddsTo q body d w ready encoded = (
    publish_message-AddsTo q body w ready encoded,
    move_to_dead_letter-AddsTo d w ready,
    move_to_retry_queue-AddsTo d w ready,
  )
