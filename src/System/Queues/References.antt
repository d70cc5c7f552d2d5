-- ===== src/System/Queues/References.antt =====
-- Every message that waits in a queue stands for a stored message.
use mathlib.Core.Path.{subst}
use reliable_messaging_syste.Prelude.{
  ◌≡◌, ◌*◌, ◌⊎◌, refl, sym, ◌∙◌, inl, inr, String, some, none, List, All, All-of_All, arith,
}
use reliable_messaging_syste.Effects.{
  ok, err, returns, Exec, Err, Result, errorf, fail, try, Outcome-cases, for_each, nil, ◌>>◌,
}
use reliable_messaging_syste.Models.{ObjectId, Bytes, Message, minute}
use reliable_messaging_syste.Contracts.{QueueMessage, Delivery}
use reliable_messaging_syste.Store.Evolution.{Docs, Evolves}
use reliable_messaging_syste.Store.Keeps.{Keeps, pure-Keeps, then-Keeps, for_each-Keeps}
use reliable_messaging_syste.Store.Services.Processor.{process_message-Keeps, recovery-Keeps}
use reliable_messaging_syste.Store.Services.Sender.{handle_message-Keeps, create_message-Keeps}
use reliable_messaging_syste.Sender.Service.{
  queue_message_of, handle_message, process_unsent_messages,
}
use reliable_messaging_syste.Processor.Service.{
  handle_stale_message_recovery, check_stale_messages, process_message,
}
use reliable_messaging_syste.Adapters.MessageQueue.Contract.{Waiting}
use reliable_messaging_syste.System.{Services, perform}
use reliable_messaging_syste.System.Queues.{
  IsWaiting, Nothing, Grows, growth, IsStored, QueueLaws, Move, requests, publishes, checks,
  handles, others, Reach, here, next,
}
use reliable_messaging_syste.System.Queues.Weaker.{
  weaker-Keeps, quiet-Keeps, quiet-RepositoryLaws, quiet-OtherLaws,
}

module _ {W : Type 0} (docs : W → Docs) (waiting : W → Waiting) (s : Services W) where
  -- The body decodes to a queue message with the id of a stored message and with its text.
  abbrev pub Refers : Bytes → W → Type 0
  Refers b w =
      (q : QueueMessage) × (id : ObjectId) × (m : Message) × (s.worker.platform.unmarshal b ≡ ok q)
      × (s.worker.platform.object_id_from_hex q.id ≡ ok id)
      × (docs w id ≡ some m)
      × (m.id ≡ id)
      × (q.content ≡ m.content)

  abbrev pub AllRefer : W → Type 0
  AllRefer w = (b : Bytes) → IsWaiting docs waiting b w → Refers b w

  pub Refers-Evolves : (b : Bytes) (v w : W) → Evolves (docs v) (docs w) → Refers b v → Refers b w
  Refers-Evolves b v w h (q, id, m, decoded, hex, there, named, same) =
      let (n, en, later) = h id m there in
      (q, id, n, decoded, hex, en, later.same_id ∙ named, same ∙ sym later.same_content)

  grown-Refers :
      (New : Bytes → Type 0) (b : Bytes) (v w : W)
      → Evolves (docs v) (docs w)
      → AllRefer v
      → ((c : Bytes) → New c → Refers c v)
      → IsWaiting docs waiting b v ⊎ New b
      → Refers b w
  grown-Refers New b v w h old new (inl waits) = Refers-Evolves b v w h (old b waits)
  grown-Refers New b v w h old new (inr is_new) = Refers-Evolves b v w h (new b is_new)

  Grows-AllRefer :
      (New : Bytes → Type 0) (v w : W)
      → Grows docs waiting New v w
      → AllRefer v
      → ((c : Bytes) → New c → Refers c v)
      → AllRefer w
  Grows-AllRefer New v w (evolves, adds) old new b waits =
      grown-Refers New b v w evolves old new (adds b waits)

  module _ (laws : QueueLaws docs waiting s) where
    quiet-AllRefer :
        {A : Type 0} {m : Exec W A} (w : W)
        → Keeps (growth docs waiting Nothing) m
        → AllRefer w
        → AllRefer (m w).1
    quiet-AllRefer {m = m} w h old =
        Grows-AllRefer Nothing w (m w).1 (h.keeps w) old (λ c e. absurd e)

    -- A message that was listed: it is stored, perhaps as a later version.
    abbrev IsKnown : W → Message → Type 0
    IsKnown v m = (n : Message) × (docs v m.id ≡ some n) × (n.id ≡ m.id) × (m.content ≡ n.content)

    IsKnown-Evolves :
        (v w : W) (m : Message)
        → Evolves (docs v) (docs w)
        → IsStored docs waiting v m
        → IsKnown w m
    IsKnown-Evolves v w m h stored =
        let (n, en, later) = h m.id m stored in (n, en, later.same_id, sym later.same_content)

    abbrev MakesReferences : W → {A : Type 0} → Exec W A → Type 0
    MakesReferences v m = Keeps (growth docs waiting (λ b. Refers b v)) m

    -- A loop over a list of stored messages, where each turn adds only bodies that refer.
    list-AllRefer :
        (find : Exec W (Result (List Message))) (text : String) (body : Message → Exec W Err)
        (w : W)
        → Keeps (growth docs waiting Nothing) find
        → ((ms : List Message) → (find w).0 ≡ returns (ok ms) → All (IsStored docs waiting w) ms)
        → ((v : W) (m : Message) → IsKnown v m → MakesReferences v (body m))
        → AllRefer w
        → AllRefer (try find (λ e. fail (errorf text e)) (λ ms. for_each ms body >> nil) w).1
    list-AllRefer find text body w keeps stored turn old =
        let loop : List Message → Exec W Err = λ ms. for_each ms body >> nil in
        let all : Exec W Err = try find (λ e. fail (errorf text e)) loop in
        let v : W = (find w).1 in
        let listed : AllRefer v = quiet-AllRefer w keeps old in
        elim (Outcome-cases (find w).0) [
          | inr p ↦ subst AllRefer (ground (arith, p)) listed
          | inl (err e, found) ↦ subst AllRefer (ground (arith, found)) listed
          | inl (ok ms, found) ↦
              let known : All (IsKnown v) ms =
                All-of_All ms (λ m. IsKnown-Evolves w v m (keeps.keeps w).0) (stored ms found) in
              let turns : All (λ m. MakesReferences v (body m)) ms = All-of_All ms (turn v) known in
              let looped : MakesReferences v (loop ms) =
                then-Keeps (growth docs waiting (λ b. Refers b v))
                  (for_each-Keeps (growth docs waiting (λ b. Refers b v)) ms body turns)
                  (pure-Keeps (growth docs waiting (λ b. Refers b v)) none) in
              let same : (loop ms v).1 ≡ (all w).1 = ground (arith, found) in
              subst AllRefer same (
                Grows-AllRefer (λ b. Refers b v) v (loop ms v).1 (looped.keeps v) listed
                  (λ c refers. refers))
        ]

    handle_message-MakesReferences :
        (v : W) (m : Message) → IsKnown v m → MakesReferences v (handle_message s.sender m)
    handle_message-MakesReferences v m (n, there, named, same) =
        handle_message-Keeps (growth docs waiting (λ b. Refers b v)) s.sender
          (quiet-RepositoryLaws docs waiting (λ b. Refers b v) s.sender.repository
            laws.sender_repository)
          (quiet-Keeps docs waiting (λ b. Refers b v) laws.sender_clock) m
          (weaker-Keeps docs waiting
            (λ b decoded. (
              queue_message_of s.sender m,
              m.id,
              n,
              decoded,
              laws.sender_hex m.id,
              there,
              named,
              same,
            ))
            (laws.publish_lem (queue_message_of s.sender m)))

    round-AllRefer : (w : W) → AllRefer w → AllRefer (process_unsent_messages s.sender w).1
    unfolding process_unsent_messages
    round-AllRefer w =
        list-AllRefer (s.sender.repository.find_unsent_messages s.sender.sender.batch_size)
          "failed to find unsent messages" (handle_message s.sender) w
          (laws.sender_repository.find_unsent_messages_lem s.sender.sender.batch_size)
          (laws.unsent_lem s.sender.sender.batch_size w) handle_message-MakesReferences

    recovery-MakesReferences :
        (v : W) (m : Message)
        → IsKnown v m
        → MakesReferences v (handle_stale_message_recovery s.worker m)
    recovery-MakesReferences v m (n, there, named, same) =
        recovery-Keeps (growth docs waiting (λ b. Refers b v)) s.worker
          (quiet-RepositoryLaws docs waiting (λ b. Refers b v) s.worker.repository
            laws.worker_repository)
          (λ d. Refers d.body v) (quiet-OtherLaws docs waiting (λ b. Refers b v) s laws) m
          (λ b encoded.
            (_, m.id, n, laws.marshal_lem _ b encoded, laws.worker_hex m.id, there, named, same))

    check-AllRefer : (w : W) → AllRefer w → AllRefer (check_stale_messages s.worker w).1
    unfolding check_stale_messages
    check-AllRefer w =
        list-AllRefer (s.worker.repository.find_stale_processing_messages (4 * minute))
          "failed to find stale messages" (handle_stale_message_recovery s.worker) w
          (laws.worker_repository.find_stale_lem (4 * minute)) (laws.stale_lem (4 * minute) w)
          recovery-MakesReferences

    delivery-AllRefer :
        (d : Delivery) (w : W)
        → IsWaiting docs waiting d.body w
        → AllRefer w
        → AllRefer (process_message s.worker d w).1
    delivery-AllRefer d w waits old =
        let New : Bytes → Type 0 = λ b. b ≡ d.body in
        let handled : Keeps (growth docs waiting New) (process_message s.worker d) =
          process_message-Keeps (growth docs waiting New) s.worker
            (quiet-RepositoryLaws docs waiting New s.worker.repository laws.worker_repository)
            (λ d'. New d'.body) (quiet-OtherLaws docs waiting New s laws) d refl in
        Grows-AllRefer New w (process_message s.worker d w).1 (handled.keeps w) old
          (λ b e. rw e (old d.body waits))

    Move-AllRefer : (v w : W) → Move docs waiting s v w → AllRefer v → AllRefer w
    unfolding perform
    Move-AllRefer v w (requests content to e) old = subst AllRefer (sym e) (
        quiet-AllRefer v
          (create_message-Keeps (growth docs waiting Nothing) s.sender laws.sender_repository
            laws.sender_clock content to)
          old)
    Move-AllRefer v w (publishes e) old = subst AllRefer (sym e) (round-AllRefer v old)
    Move-AllRefer v w (checks e) old = subst AllRefer (sym e) (check-AllRefer v old)
    Move-AllRefer v w (handles d waits e) old =
        subst AllRefer (sym e) (delivery-AllRefer d v waits old)
    Move-AllRefer v w (others grows) old = Grows-AllRefer Nothing v w grows old (λ c h. absurd h)

    -- If the ports keep their laws, then in every world that the services reach from one in which no
    -- message waits, by any series of requests, rounds, stale checks, deliveries of messages that
    -- wait, and changes by others that add no body, the body of each message that waits in a queue
    -- decodes to a queue message with the id of a stored message and with its text.
    pub Reach-AllRefer :
        (start w : W)
        → ((b : Bytes) → ¬ IsWaiting docs waiting b start)
        → Reach docs waiting s start w
        → AllRefer w
    Reach-AllRefer start w empty here = λ b waits. absurd (empty b waits)
    Reach-AllRefer start w empty (next {v = v} r move) =
        Move-AllRefer v w move (Reach-AllRefer start v empty r)
