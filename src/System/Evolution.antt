-- ===== src/System/Evolution.antt =====
-- What a run of the whole system does to the stored messages.
use reliable_messaging_syste.Prelude.{List, [], ◌∷◌}
use reliable_messaging_syste.Contracts.{QueueMessage, Delivery}
use reliable_messaging_syste.Store.Evolution.{Docs, Evolves}
use reliable_messaging_syste.Store.Keeps.{Preorder, evolution, Keeps}
use reliable_messaging_syste.Store.Laws.{RepositoryLaws, OtherLaws}
use reliable_messaging_syste.Store.Services.Processor.{
  process_message-Keeps, check_stale_messages-Keeps,
}
use reliable_messaging_syste.Store.Services.Sender.{
  process_unsent_messages-Keeps, create_message-Keeps,
}
use reliable_messaging_syste.System.{
  Services, Activity, request, round, check, delivery, perform, run,
}
use reliable_messaging_syste.System.Interleaving.{
  sender_amid, worker_amid, amid-Keeps, repository_amid-RepositoryLaws, worker_amid-OtherLaws,
}

-- The services in a world that others change before every call of theirs.
abbrev pub services_amid : {W : Type 0} → (W → W) → Services W → Services W
services_amid others s = record {
  sender = sender_amid others s.sender;
  worker = worker_amid others s.worker;
}

abbrev pub AnyDelivery : Delivery → Type 0
AnyDelivery d = Unit

module _ {W : Type 0} {R : W → W → Type 0} (o : Preorder R) where
  -- The ports of both services keep their laws.
  pub record ServicesLaws (s : Services W) : Type 0 where
    pub sender_repository : RepositoryLaws o s.sender.repository
    pub sender_publish : (q : QueueMessage) → Keeps o (s.sender.queue.publish_message q)
    pub sender_clock : Keeps o s.sender.platform.now
    pub worker_repository : RepositoryLaws o s.worker.repository
    pub worker_others :
        OtherLaws o AnyDelivery s.worker.queue s.worker.idempotency_service s.worker.webhook_client
          s.worker.platform

  module _ (s : Services W) (laws : ServicesLaws s) where
    open laws use {
      sender_repository, sender_publish, sender_clock, worker_repository, worker_others,
    }

    perform-Keeps : (a : Activity) (w : W) → R w (perform s a w)
    unfolding perform
    perform-Keeps (request content to) w =
        (create_message-Keeps o s.sender sender_repository sender_clock content to).keeps w
    perform-Keeps round w =
        (process_unsent_messages-Keeps o s.sender sender_repository sender_clock
            (λ m. sender_publish _)).keeps
          w
    perform-Keeps check w =
        (check_stale_messages-Keeps o s.worker worker_repository AnyDelivery worker_others
            (λ m body e. tt)).keeps
          w
    perform-Keeps (delivery d) w =
        (process_message-Keeps o s.worker worker_repository AnyDelivery worker_others d tt).keeps w

    run-Keeps : (as' : List Activity) (w : W) → R w (run s as' w)
    unfolding run
    run-Keeps [] w = o.refl w
    run-Keeps (a ∷ rest) w =
        o.trans w (perform s a w) (run s rest (perform s a w)) (perform-Keeps a w)
          (run-Keeps rest (perform s a w))

  services_amid-ServicesLaws :
      (others : W → W) (s : Services W)
      → ((w : W) → R w (others w))
      → ServicesLaws s
      → ServicesLaws (services_amid others s)
  services_amid-ServicesLaws others s fair laws = record {
    sender_repository =
        repository_amid-RepositoryLaws others o fair s.sender.repository laws.sender_repository;
    sender_publish = λ q. amid-Keeps others o fair (laws.sender_publish q);
    sender_clock = amid-Keeps others o fair laws.sender_clock;
    worker_repository =
        repository_amid-RepositoryLaws others o fair s.worker.repository laws.worker_repository;
    worker_others =
        worker_amid-OtherLaws others o fair AnyDelivery s.worker.queue s.worker.idempotency_service
          s.worker.webhook_client s.worker.platform laws.worker_others;
  }

module _ {W : Type 0} (docs : W → Docs) where
  -- If the ports of both services keep their laws, then any series of requests, rounds of the
  -- scheduler, deliveries and stale checks, in a world where others may act before each call through
  -- a port but do no more to the stored messages than this, loses no stored message, changes no id,
  -- recipient, text or time of creation, lowers no retry count, and makes no message unsent again.
  pub run_amid-Evolves :
      (others : W → W) (s : Services W)
      → ((w : W) → Evolves (docs w) (docs (others w)))
      → ServicesLaws (evolution docs) s
      → (as' : List Activity) (w : W) → Evolves (docs w) (docs (run (services_amid others s) as' w))
  run_amid-Evolves others s fair laws =
      run-Keeps (evolution docs) (services_amid others s)
        (services_amid-ServicesLaws (evolution docs) others s fair laws)
