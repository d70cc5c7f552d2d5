-- ===== src/System/Queues/Adapters.antt =====
-- What the calls of the RabbitMQ queue and of the repository's driver add to the queues.
use mathlib.Core.Path.{subst}
use reliable_messaging_syste.Prelude.{
  ◌≡◌, ◌⊎◌, refl, sym, ap, ◌∙◌, inl, inr, String, Bool, true, false, [], ◌∷◌, ◌++◌, List,
  if◌then◌else◌,
}
use reliable_messaging_syste.Effects.{ok, Exec, Result, ◌>>=◌, Result-cases}
use reliable_messaging_syste.Models.{Time, Bytes}
use reliable_messaging_syste.Contracts.{QueueMessage, Delivery}
use reliable_messaging_syste.Store.Evolution.{Docs, Evolves, Evolves-refl}
use reliable_messaging_syste.Store.Keeps.{Keeps, evolution, pure-Keeps, bind-Keeps}
use reliable_messaging_syste.Adapters.Drivers.{Publishing}
use reliable_messaging_syste.Adapters.Breaker.Contract.{Reads, BreakerLaws}
use reliable_messaging_syste.Adapters.MessageQueue
use reliable_messaging_syste.Adapters.MessageQueue.{RabbitMqAdapter}
use reliable_messaging_syste.Adapters.MessageQueue.Contract.{Topology, Waiting, routed, ChannelLaws}
use reliable_messaging_syste.Adapters.MessageRepository.{MongoMessageRepository}
use reliable_messaging_syste.System.Queues.{Waits, Waits-append, Nothing, IsWaiting, growth}
use reliable_messaging_syste.System.Queues.Weaker.{weaker-Keeps, quiet-Keeps}

module _ {W : Type 0} (docs : W → Docs) (waiting : W → Waiting) where
  -- A call that leaves the queues alone and lets the messages evolve.
  pub aside-Keeps :
      {A : Type 0} {m : Exec W A}
      → Keeps (evolution docs) m
      → Reads waiting m
      → Keeps (growth docs waiting Nothing) m
  aside-Keeps h same = record {
    keeps = λ w. (
      h.keeps w,
      λ b waits.
          inl (subst (λ (k : Waiting). (q : String) × Waits b (k q)) (same.unchanged w) waits),
    );
  }

  pub Reads-Keeps :
      {A : Type 0} {m : Exec W A}
      → Reads docs m
      → Reads waiting m
      → Keeps (growth docs waiting Nothing) m
  Reads-Keeps h same =
      aside-Keeps
        (record {
          keeps = λ w. subst (Evolves (docs w)) (sym (h.unchanged w)) (Evolves-refl (docs w));
        })
        same

  abbrev pub stores_of : W → Docs × Waiting
  stores_of w = (docs w, waiting w)

  abbrev GrowsIn : Docs × Waiting → Docs × Waiting → Type 0
  GrowsIn a b =
      Evolves a.0 b.0
      × ((c : Bytes)
          → (q : String) × Waits c (b.1 q)
          → ((q : String) × Waits c (a.1 q)) ⊎ Nothing c)

  module _ (mongo : MongoMessageRepository W) (breaker : BreakerLaws stores_of mongo.cb) where
    pub execute-Keeps :
        (A : Type 0) (m : Exec W (Result A))
        → Keeps (growth docs waiting Nothing) m
        → Keeps (growth docs waiting Nothing) (mongo.cb.execute m)
    execute-Keeps A m h = record {
      keeps = λ w. elim (breaker.execute_lem m w) [
        | inl (v, ev, _, ew) ↦
            subst (GrowsIn (stores_of w)) (sym ew)
              (subst (λ x. GrowsIn x (stores_of (m v).1)) ev (h.keeps v))
        | inr (e, _, ew) ↦
            subst (GrowsIn (stores_of w)) (sym ew) ((growth docs waiting Nothing).refl w)
      ];
    }

    pub docs-BreakerLaws : BreakerLaws docs mongo.cb
    docs-BreakerLaws = record {
      execute_lem = λ m w. elim (breaker.execute_lem m w) [
        | inl (v, ev, er, ew) ↦ inl (v, ap (λ x. x.0) ev, er, ap (λ x. x.0) ew)
        | inr (e, er, ew) ↦ inr (e, er, ap (λ x. x.0) ew)
      ];
    }

  appended :
      (b : Bytes) (to_this : Bool) (xs : List Publishing) (m : Publishing)
      → Waits b (if to_this then xs ++ m ∷ [] else xs)
      → Waits b xs ⊎ (b ≡ m.body)
  appended b false xs m h = inl h
  appended b true xs m h = elim (Waits-append b xs (m ∷ []) h) [
    | inl old ↦ inl old
    | inr (inl e) ↦ inr (sym e)
    | inr (inr none') ↦ absurd none'
  ]

  at_queue :
      (b c : Bytes) (queue : String) (w : W)
      → Waits b (waiting w queue) ⊎ (b ≡ c)
      → IsWaiting docs waiting b w ⊎ (b ≡ c)
  at_queue b c queue w (inl old) = inl (queue, old)
  at_queue b c queue w (inr new) = inr new

  module _ (topology : W → Topology) (mq : RabbitMqAdapter W)
      (broker : ChannelLaws topology waiting mq.channel)
      (clock : Keeps (growth docs waiting Nothing) mq.now)
      (publish_docs : (exchange key : String) (m : Publishing)
        → Reads docs (mq.channel.publish exchange key m)) where
    publish-Keeps :
        (exchange key : String) (m : Publishing)
        → Keeps (growth docs waiting (λ b. b ≡ m.body)) (mq.channel.publish exchange key m)
    publish-Keeps exchange key m = record {
      keeps = λ w. (
        subst (Evolves (docs w)) (sym ((publish_docs exchange key m).unchanged w))
            (Evolves-refl (docs w)),
        λ b waits.
            let (queue, there) = waits in
            elim ((broker.publish_lem exchange key m w).1) [
              | inl same ↦ inl (queue, subst (Waits b) (same queue) there)
              | inr sent ↦ at_queue b m.body queue w (
                  appended b (routed (topology w) exchange key queue) (waiting w queue) m
                    (subst (Waits b) (sent queue) there))
            ],
      );
    }

    stamped-Keeps :
        (exchange key : String) (body : Bytes) (m : Time → Publishing)
        → ((at : Time) → (m at).body ≡ body)
        → Keeps
            (growth docs waiting (λ b. b ≡ body))
            (mq.now >>= λ at. mq.channel.publish exchange key (m at))
    stamped-Keeps exchange key body m same =
        bind-Keeps (growth docs waiting (λ b. b ≡ body)) mq.now _
          (quiet-Keeps docs waiting (λ b. b ≡ body) clock)
          λ at. weaker-Keeps docs waiting (λ b e. e ∙ same at) (publish-Keeps exchange key (m at))

    pub move_to_dead_letter-Keeps :
        (d : Delivery)
        → Keeps (growth docs waiting (λ b. b ≡ d.body)) (MessageQueue.move_to_dead_letter mq d)
    unfolding MessageQueue.move_to_dead_letter
    move_to_dead_letter-Keeps d = stamped-Keeps _ _ d.body _ (λ at. refl)

    pub move_to_retry_queue-Keeps :
        (d : Delivery)
        → Keeps (growth docs waiting (λ b. b ≡ d.body)) (MessageQueue.move_to_retry_queue mq d)
    unfolding MessageQueue.move_to_retry_queue
    move_to_retry_queue-Keeps d = stamped-Keeps _ _ d.body _ (λ at. refl)

    pub publish_message-Keeps :
        (q : QueueMessage) (New : Bytes → Type 0)
        → ((body : Bytes) → mq.marshal q ≡ ok body → New body)
        → Keeps (growth docs waiting New) (MessageQueue.publish_message mq q)
    unfolding MessageQueue.publish_message
    publish_message-Keeps q New encoded = elim (Result-cases (mq.marshal q)) [
      | inr (e, refused) ↦
          rw (refused, MessageQueue.publish_message) (pure-Keeps (growth docs waiting New) _)
      | inl (body, e) ↦
          rw (e, MessageQueue.publish_message)
            (weaker-Keeps docs waiting (λ b same. rw same (encoded body e))
              (stamped-Keeps _ _ body _ (λ at. refl)))
    ]
