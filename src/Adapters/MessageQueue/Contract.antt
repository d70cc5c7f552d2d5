-- ===== src/Adapters/MessageQueue/Contract.antt =====
-- What RabbitMQ and its library document, stated on the exchanges, queues and bindings of the broker
-- and on the messages that wait in each queue. A call is the only thing that happens to the broker
-- while it lasts.
use reliable_messaging_syste.Prelude.{
  ◌≡◌, ◌≢◌, ◌⊎◌, ◌&&◌, String, Bool, true, false, Option, none, some, List, [], ◌∷◌, ◌++◌,
  if◌then◌else◌,
}
use reliable_messaging_syste.Effects.{returns}
use reliable_messaging_syste.Adapters.Drivers.{Channel, QueueArgs, Publishing}
use text.Mathlib.Text.{◌==◌ as str_eq}

-- `kind_of` gives the kind of an exchange, `args_of` the arguments of a queue, and
-- `is_bound exchange key queue` tells whether there is this binding.
pub record Topology : Type 0 where
  pub kind_of : String → Option String
  pub args_of : String → Option (Option QueueArgs)
  pub is_bound : String → String → String → Bool

abbrev pub is_some : {A : Type 0} → Option A → Bool
is_some none = false
is_some (some _) = true

abbrev pub is_direct : Option String → Bool
is_direct none = false
is_direct (some kind) = str_eq kind "direct"

-- Whether a message with this key goes from the exchange to the queue. The exchange without a name
-- leads to the queue that has the name of the key.
abbrev pub routed : Topology → String → String → String → Bool
routed t exchange key queue =
    if str_eq exchange ""
    then str_eq queue key && is_some (t.args_of key)
    else is_direct (t.kind_of exchange) && t.is_bound exchange key queue

abbrev pub with_exchange : String → String → Topology → Topology
with_exchange name kind t = record t {
  kind_of = λ n. if str_eq n name then some kind else t.kind_of n;
}

abbrev pub with_queue : String → Option QueueArgs → Topology → Topology
with_queue name args t = record t {
  args_of = λ n. if str_eq n name then some args else t.args_of n;
}

abbrev pub with_binding : String → String → String → Topology → Topology
with_binding queue key exchange t = record t {
  is_bound = λ e k q.
      if str_eq e exchange && str_eq k key && str_eq q queue then true else t.is_bound e k q;
}

-- The messages that wait in each queue, the oldest first.
abbrev pub Waiting : Type 0
Waiting = String → List Publishing

-- A message is added to one queue.
abbrev pub IsAdded : String → Publishing → Waiting → Waiting → Type 0
IsAdded queue m before after =
    (q : String) → after q ≡ (if str_eq q queue then before q ++ m ∷ [] else before q)

module _ {W : Type 0} (topology : W → Topology) (waiting : W → Waiting) where
  -- A declaration or a binding that reports no error is made. A message that is published is routed,
  -- or lost: without confirmations, a publication that reports no error may be lost too.
  pub record ChannelLaws (c : Channel W) : Type 0 where
    pub exchange_declare_lem :
        (name kind : String) (durable : Bool) (w : W)
        → let (r, w') = c.exchange_declare name kind durable w in
          (topology w' ≡ with_exchange name kind (topology w)) ⊎ (r ≢ returns none)
    pub queue_declare_lem :
        (name : String) (durable : Bool) (args : Option QueueArgs) (w : W)
        → let (r, w') = c.queue_declare name durable args w in
          (topology w' ≡ with_queue name args (topology w)) ⊎ (r ≢ returns none)
    pub queue_bind_lem :
        (queue key exchange : String) (w : W)
        → let (r, w') = c.queue_bind queue key exchange w in
          (topology w' ≡ with_binding queue key exchange (topology w)) ⊎ (r ≢ returns none)
    pub publish_lem :
        (exchange key : String) (m : Publishing) (w : W)
        → let (r, w') = c.publish exchange key m w in
          (topology w' ≡ topology w)
          × (((q : String) → waiting w' q ≡ waiting w q)
              ⊎ ((q : String)
                  → waiting w' q ≡ (
                      if routed (topology w) exchange key q
                      then waiting w q ++ m ∷ []
                      else waiting w q)))
