-- ===== src/Adapters/MessageQueue/Topology.antt =====
-- The queues after `setupQueues`, and where a message goes from each.
use mathlib.Core.Path.{subst}
use reliable_messaging_syste.Prelude.{
  ◌≡◌, refl, sym, String, Bool, true, false, Option, none, some, arith,
}
use reliable_messaging_syste.Effects.{returns}
use reliable_messaging_syste.Contracts.{
  main_queue_name, retry_queue_name, dlq_queue_name, main_exchange, retry_exchange,
}
use reliable_messaging_syste.Adapters.Drivers.{QueueArgs}
use reliable_messaging_syste.Adapters.MessageQueue.{
  RabbitMqAdapter, setup_queues, main_args, retry_args,
}
use reliable_messaging_syste.Adapters.MessageQueue.Contract.{
  Topology, routed, with_exchange, with_queue, with_binding, Waiting, ChannelLaws,
}
use text.Mathlib.Text.{◌==◌ as str_eq}
use text.Mathlib.TextEquality.{eq_iff}

-- What `setupQueues` makes of a topology.
abbrev pub set_up : Topology → Topology
set_up t = with_binding retry_queue_name retry_queue_name retry_exchange (
    with_binding main_queue_name main_queue_name main_exchange (
      with_queue dlq_queue_name none (
        with_queue retry_queue_name (some retry_args) (
          with_queue main_queue_name (some main_args)
            (with_exchange retry_exchange "direct" (with_exchange main_exchange "direct" t))))))

-- The two exchanges lead nowhere else: their keys are bound to no other queue.
pub record IsOurs (t : Topology) : Type 0 where
  pub main_only :
      (q : String) → t.is_bound main_exchange main_queue_name q ≡ true → q ≡ main_queue_name
  pub retry_only :
      (q : String) → t.is_bound retry_exchange retry_queue_name q ≡ true → q ≡ retry_queue_name

-- Where the broker sends a message that a queue rejects or lets expire.
abbrev pub dead_letters_to : Topology → String → String → Bool
dead_letters_to t from q = elim (t.args_of from) [
  | some (some args) ↦ routed t args.dead_letter_exchange args.dead_letter_routing_key q
  | _ ↦ false
]

-- A publication to the main exchange reaches the main queue alone, one to the retry exchange the
-- retry queue alone, and one to the dead-letter queue that one alone. From the main queue a dead
-- letter goes to the retry queue, from there to the main queue, and from the dead-letter queue
-- nowhere. A message expires in the retry queue after ten seconds, each time.
pub record IsSetUp (t : Topology) : Type 0 where
  pub main_routed :
      (q : String) → routed t main_exchange main_queue_name q ≡ str_eq q main_queue_name
  pub retry_routed :
      (q : String) → routed t retry_exchange retry_queue_name q ≡ str_eq q retry_queue_name
  pub dlq_routed : (q : String) → routed t "" dlq_queue_name q ≡ str_eq q dlq_queue_name
  pub main_dead_letters :
      (q : String) → dead_letters_to t main_queue_name q ≡ str_eq q retry_queue_name
  pub retry_dead_letters :
      (q : String) → dead_letters_to t retry_queue_name q ≡ str_eq q main_queue_name
  pub dlq_keeps : (q : String) → dead_letters_to t dlq_queue_name q ≡ false
  pub retry_expires :
      t.args_of retry_queue_name
      ≡ some (
          some (record {
            message_ttl = some 10000;
            dead_letter_exchange = main_exchange;
            dead_letter_routing_key = main_queue_name;
          }))

pub set_up-IsSetUp : (t : Topology) → IsOurs t → IsSetUp (set_up t)
set_up-IsSetUp t ours = record {
  main_routed = λ q. ground (arith, eq_iff q main_queue_name, ours.main_only q);
  retry_routed = λ q. ground (arith, eq_iff q retry_queue_name, ours.retry_only q);
  dlq_routed = λ q. ground arith;
  main_dead_letters = λ q. ground (arith, eq_iff q retry_queue_name, ours.retry_only q);
  retry_dead_letters = λ q. ground (arith, eq_iff q main_queue_name, ours.main_only q);
  dlq_keeps = λ q. ground arith;
  retry_expires = refl;
}

module _ {W : Type 0} (topology : W → Topology) (waiting : W → Waiting) (mq : RabbitMqAdapter W)
    (broker : ChannelLaws topology waiting mq.channel) where
  declared_exchange :
      (name kind : String) (w : W)
      → (mq.channel.exchange_declare name kind true w).0 ≡ returns none
      → topology (mq.channel.exchange_declare name kind true w).1
        ≡ with_exchange name kind (topology w)
  declared_exchange name kind w h = ground (arith, broker.exchange_declare_lem name kind true w)

  declared_queue :
      (name : String) (args : Option QueueArgs) (w : W)
      → (mq.channel.queue_declare name true args w).0 ≡ returns none
      → topology (mq.channel.queue_declare name true args w).1 ≡ with_queue name args (topology w)
  declared_queue name args w h = ground (arith, broker.queue_declare_lem name true args w)

  bound_queue :
      (queue key exchange : String) (w : W)
      → (mq.channel.queue_bind queue key exchange w).0 ≡ returns none
      → topology (mq.channel.queue_bind queue key exchange w).1
        ≡ with_binding queue key exchange (topology w)
  bound_queue queue key exchange w h = ground (arith, broker.queue_bind_lem queue key exchange w)

  setup_queues-topology :
      (w : W)
      → (setup_queues mq w).0 ≡ returns none
      → topology (setup_queues mq w).1 ≡ set_up (topology w)
  unfolding setup_queues
  setup_queues-topology w h =
      let w₁ : W = (mq.channel.exchange_declare main_exchange "direct" true w).1 in
      let w₂ : W = (mq.channel.exchange_declare retry_exchange "direct" true w₁).1 in
      let w₃ : W = (mq.channel.queue_declare main_queue_name true (some main_args) w₂).1 in
      let w₄ : W = (mq.channel.queue_declare retry_queue_name true (some retry_args) w₃).1 in
      let w₅ : W = (mq.channel.queue_declare dlq_queue_name true none w₄).1 in
      let w₆ : W = (mq.channel.queue_bind main_queue_name main_queue_name main_exchange w₅).1 in
      ground (
        arith,
        declared_exchange main_exchange "direct" w,
        declared_exchange retry_exchange "direct" w₁,
        declared_queue main_queue_name (some main_args) w₂,
        declared_queue retry_queue_name (some retry_args) w₃,
        declared_queue dlq_queue_name none w₄,
        bound_queue main_queue_name main_queue_name main_exchange w₅,
        bound_queue retry_queue_name retry_queue_name retry_exchange w₆,
      )

  -- If the two exchanges lead nowhere else before, then a `setupQueues` that reports no error leaves
  -- a broker in which each publication of the adapter reaches one queue, a dead letter of the main
  -- queue goes to the retry queue, and one of the retry queue, whose messages expire after ten
  -- seconds, back to the main queue.
  pub setup_queues-IsSetUp :
      (w : W)
      → IsOurs (topology w)
      → (setup_queues mq w).0 ≡ returns none
      → IsSetUp (topology (setup_queues mq w).1)
  setup_queues-IsSetUp w ours h =
      subst IsSetUp (sym (setup_queues-topology w h)) (set_up-IsSetUp (topology w) ours)
