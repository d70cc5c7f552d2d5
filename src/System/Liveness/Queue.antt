-- ===== src/System/Liveness/Queue.antt =====
-- The RabbitMQ queue publishes while the broker is available and its queues are set up.
use mathlib.Core.Path.{subst}
use reliable_messaging_syste.Prelude.{
  ◌≡◌, ◌≢◌, sym, ap, ◌∙◌, inl, inr, String, Bool, true, false, none, List, [], ◌∷◌, ◌++◌,
  if◌then◌else◌, arith,
}
use reliable_messaging_syste.Effects.{ok, Exec, returns, panics, Outcome-cases, Result-cases}
use reliable_messaging_syste.Models.{Bytes}
use reliable_messaging_syste.Contracts.{QueueMessage, main_queue_name, main_exchange}
use reliable_messaging_syste.Store.Evolution.{Docs, Evolves, Evolves-refl}
use reliable_messaging_syste.Store.Keeps.{Keeps, evolution, pure-Keeps, bind-Keeps}
use reliable_messaging_syste.Adapters.Drivers.{Publishing}
use reliable_messaging_syste.Adapters.Breaker.Contract.{Reads}
use reliable_messaging_syste.Adapters.MessageQueue
use reliable_messaging_syste.Adapters.MessageQueue.{RabbitMqAdapter}
use reliable_messaging_syste.Adapters.MessageQueue.Contract.{Topology, Waiting, routed}
use reliable_messaging_syste.Adapters.MessageQueue.Routing.{published}
use reliable_messaging_syste.Adapters.MessageQueue.Topology.{IsSetUp}
use reliable_messaging_syste.System.Queues.{Waits, Waits-append_left, Waits-append_last, IsWaiting}
use reliable_messaging_syste.System.Liveness.{advance}
use text.Mathlib.TextPositions.{eq_refl}

added-Waits :
    (b : Bytes) (to_this : Bool) (xs : List Publishing) (p : Publishing)
    → Waits b xs
    → Waits b (if to_this then xs ++ p ∷ [] else xs)
added-Waits b true xs p h = Waits-append_left b xs (p ∷ []) h
added-Waits b false xs p h = h

added-last :
    (p : Publishing) (to_this : Bool) (xs : List Publishing)
    → to_this ≡ true
    → Waits p.body (if to_this then xs ++ p ∷ [] else xs)
added-last p true xs e = Waits-append_last xs p
added-last p false xs e = absurd (ground (arith, e))

module _ {W : Type 0} (topology : W → Topology) (docs : W → Docs) (waiting : W → Waiting) where
  abbrev pub broker_of : W → Topology × Waiting
  broker_of w = (topology w, waiting w)

  -- The queues are as `setupQueues` leaves them.
  abbrev pub Ready : W → Type 0
  Ready w = IsSetUp (topology w)

  pub aside-advances :
      {A : Type 0} {m : Exec W A}
      → Keeps (evolution docs) m
      → Reads broker_of m
      → Keeps (advance docs waiting Ready) m
  aside-advances h same = record {
    keeps = λ w. (
      h.keeps w,
      λ b waits.
          subst (λ (x : Topology × Waiting). (q : String) × Waits b (x.1 q))
            (sym (same.unchanged w)) waits,
      λ r. subst (λ (x : Topology × Waiting). IsSetUp x.0) (sym (same.unchanged w)) r,
    );
  }

  pub Reads-advances :
      {A : Type 0} {m : Exec W A}
      → Reads docs m
      → Reads broker_of m
      → Keeps (advance docs waiting Ready) m
  Reads-advances h same =
      aside-advances
        (record {
          keeps = λ w. subst (Evolves (docs w)) (sym (h.unchanged w)) (Evolves-refl (docs w));
        })
        same

  -- A publication is taken and routed, and neither it nor the clock changes anything else.
  pub record BrokerAvailable (mq : RabbitMqAdapter W) : Type 0 where
    pub publish_lem :
        (exchange key : String) (m : Publishing) (w : W)
        → let (r, w') = mq.channel.publish exchange key m w in
          (r ≡ returns none)
          × (topology w' ≡ topology w)
          × ((q : String)
              → waiting w' q ≡ (
                  if routed (topology w) exchange key q
                  then waiting w q ++ m ∷ []
                  else waiting w q))
    pub publish_docs :
        (exchange key : String) (m : Publishing) → Reads docs (mq.channel.publish exchange key m)
    pub now_ends : (w : W) → (mq.now w).0 ≢ panics
    pub now_docs : Reads docs mq.now
    pub now_broker : Reads broker_of mq.now

  module _ (mq : RabbitMqAdapter W) (laws : BrokerAvailable mq) where
    publish-advances :
        (exchange key : String) (m : Publishing)
        → Keeps (advance docs waiting Ready) (mq.channel.publish exchange key m)
    publish-advances exchange key m = record {
      keeps = λ w.
          let (_, same, adds) = laws.publish_lem exchange key m w in
          (
            subst (Evolves (docs w)) (sym ((laws.publish_docs exchange key m).unchanged w))
                (Evolves-refl (docs w)),
            λ b waits.
                (waits.0, subst (Waits b) (sym (adds waits.0)) (added-Waits b _ _ m waits.1)),
            λ r. subst IsSetUp (sym same) r,
          );
    }

    pub publish_message-advances :
        (q : QueueMessage) → Keeps (advance docs waiting Ready) (MessageQueue.publish_message mq q)
    unfolding MessageQueue.publish_message
    publish_message-advances q = elim (Result-cases (mq.marshal q)) [
      | inr (e, refused) ↦
          rw (refused, MessageQueue.publish_message) (pure-Keeps (advance docs waiting Ready) _)
      | inl (body, e) ↦
          rw (e, MessageQueue.publish_message)
            (bind-Keeps (advance docs waiting Ready) mq.now _
              (Reads-advances laws.now_docs laws.now_broker)
              (λ at. publish-advances main_exchange main_queue_name _))
    ]

    pub publish_message-ne-panics :
        (q : QueueMessage) (w : W) → (MessageQueue.publish_message mq q w).0 ≢ panics
    unfolding MessageQueue.publish_message
    publish_message-ne-panics q w p = elim (Result-cases (mq.marshal q)) [
      | inr (e, refused) ↦ absurd (ground (arith, refused, p))
      | inl (body, e) ↦ elim (Outcome-cases (mq.now w).0) [
        | inr p' ↦ laws.now_ends w p'
        | inl (at, read) ↦
            let taken =
              laws.publish_lem main_exchange main_queue_name (published body at) (mq.now w).1 in
            absurd (ground (arith, e, read, p, taken.0))
      ]
    ]

    -- In queues that are set up a queue message that is encoded is published, and its body waits.
    pub publish_message-IsWaiting :
        (q : QueueMessage) (b : Bytes) (w : W)
        → mq.marshal q ≡ ok b
        → Ready w
        → ((MessageQueue.publish_message mq q w).0 ≡ returns none)
          × IsWaiting docs waiting b (MessageQueue.publish_message mq q w).1
    unfolding MessageQueue.publish_message
    publish_message-IsWaiting q b w e ready = elim (Outcome-cases (mq.now w).0) [
      | inr p ↦ absurd (laws.now_ends w p)
      | inl (at, read) ↦
          let u : W = (mq.now w).1 in
          let (taken, _, adds) =
            laws.publish_lem main_exchange main_queue_name (published b at) u in
          let same : MessageQueue.publish_message mq q w
              ≡ mq.channel.publish main_exchange main_queue_name (published b at) u =
            ground (arith, e, read) in
          let set_up : IsSetUp (topology u) =
            subst (λ (x : Topology × Waiting). IsSetUp x.0) (sym (laws.now_broker.unchanged w))
              ready in
          let leads : routed (topology u) main_exchange main_queue_name main_queue_name ≡ true =
            set_up.main_routed main_queue_name ∙ eq_refl main_queue_name in
          (
            ap (λ x. x.0) same ∙ taken,
            subst (λ x. IsWaiting docs waiting b x.1) (sym same)
                (
                  main_queue_name,
                  subst (Waits b) (sym (adds main_queue_name))
                      (added-last (published b at) _ (waiting u main_queue_name) leads),
                ),
          )
    ]
