-- ===== src/System.antt =====
-- The two services together, over one world: the sender's requests and rounds, and the processor's
-- deliveries and stale checks, in any order.
pub mod Interleaving
pub mod Evolution
pub mod Successes
pub mod Stores
pub mod Recording
pub mod Queues
pub mod Liveness
use reliable_messaging_syste.Prelude.{String, List, [], ◌∷◌}
use reliable_messaging_syste.Effects.{Exec}
use reliable_messaging_syste.Contracts.{Delivery}
use reliable_messaging_syste.Sender.Service.{SenderService, create_message, process_unsent_messages}
use reliable_messaging_syste.Processor.Service.{
  ProcessorService, process_message, check_stale_messages,
}

pub record Services (W : Type 0) : Type 0 where
  pub sender : SenderService W
  pub worker : ProcessorService W

-- What a goroutine of one of the services starts: the handler of a request for a new message, a
-- round of the scheduler, the handling of a delivery, or a stale check.
pub data Activity : Type 0 where
  request : String → String → Activity
  round check : Activity
  delivery : Delivery → Activity

module _ {W : Type 0} (s : Services W) where
  -- The world after the activity, however it ends: a panic or an error changes it no further.
  unfoldable pub perform : Activity → W → W
  perform (request content to) w = (create_message s.sender content to w).1
  perform round w = (process_unsent_messages s.sender w).1
  perform check w = (check_stale_messages s.worker w).1
  perform (delivery d) w = (process_message s.worker d w).1

  unfoldable pub run : List Activity → W → W
  run [] w = w
  run (a ∷ rest) w = run rest (perform a w)
