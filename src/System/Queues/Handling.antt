-- ===== src/System/Queues/Handling.antt =====
-- The worker over queues whose messages refer to stored messages.
use reliable_messaging_syste.Prelude.{◌≡◌, ◌≢◌, refl}
use reliable_messaging_syste.Effects.{panics}
use reliable_messaging_syste.Models.{Bytes}
use reliable_messaging_syste.Contracts.{Delivery}
use reliable_messaging_syste.Store.Evolution.{Docs}
use reliable_messaging_syste.Store.Services.Handling.{ReturnLaws, process_message-Returns}
use reliable_messaging_syste.Processor.Service.{process_message}
use reliable_messaging_syste.Adapters.MessageQueue.Contract.{Waiting}
use reliable_messaging_syste.System.{Services}
use reliable_messaging_syste.System.Queues.{IsWaiting, growth, QueueLaws, Reach}
use reliable_messaging_syste.System.Queues.Weaker.{quiet-RepositoryLaws, quiet-OtherLaws}
use reliable_messaging_syste.System.Queues.References.{Reach-AllRefer}

module _ {W : Type 0} (docs : W → Docs) (waiting : W → Waiting) (s : Services W)
    (laws : QueueLaws docs waiting s) (live : ReturnLaws docs s.worker) where
  -- If the ports keep the queue laws, no call that the worker makes through a port panics, and a read
  -- by id gives what is stored, then in every world that the services reach from one in which no
  -- message waits, the handling of a delivery whose body waits in a queue does not panic.
  pub Reach-ne-panics :
      (start w : W) (d : Delivery)
      → ((b : Bytes) → ¬ IsWaiting docs waiting b start)
      → Reach docs waiting s start w
      → IsWaiting docs waiting d.body w
      → (process_message s.worker d w).0 ≢ panics
  Reach-ne-panics start w d empty reach waits =
      let (q, id, m, decoded, hex, there, named, _) =
        Reach-AllRefer docs waiting s laws start w empty reach d.body waits in
      let New : Bytes → Type 0 = λ b. b ≡ d.body in
      let repo = quiet-RepositoryLaws docs waiting New s.worker.repository laws.worker_repository in
      let handled =
        process_message-Returns (growth docs waiting New) docs (λ u v h. h.0) s.worker repo
          (λ d'. New d'.body) (quiet-OtherLaws docs waiting New s laws) live id d q refl decoded
          hex in
      (handled.ends w (m, there, named)).0
