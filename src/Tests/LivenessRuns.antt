-- ===== src/Tests/LivenessRuns.antt =====
-- A message from a round to the end of its delivery, over libraries that work.
use mathlib.Core.List.Memᴰ
use reliable_messaging_syste.Prelude.{
  ◌≡◌, refl, ap, inl, inr, true, none, some, Option-cases, pos, [], ◌∷◌, arith,
}
use reliable_messaging_syste.Effects.{ok, returns, for_each}
use reliable_messaging_syste.Models.{Message, sent}
use reliable_messaging_syste.Store.Evolution.{Evolves-refl}
use reliable_messaging_syste.Sender.Service.{process_unsent_messages, handle_message}
use reliable_messaging_syste.Processor.Service.{process_message}
use reliable_messaging_syste.Adapters.MessageRepository
use reliable_messaging_syste.Adapters.MessageQueue
use reliable_messaging_syste.Adapters.MessageQueue.Topology.{set_up-IsSetUp}
use reliable_messaging_syste.Adapters.IdempotencyService.{inbox_key, says_processed}
use reliable_messaging_syste.System.{Services, delivery, round, perform}
use reliable_messaging_syste.System.Queues.{IsWaiting}
use reliable_messaging_syste.System.Liveness.Adapters.{AvailableLaws}
use reliable_messaging_syste.System.Liveness.Queue.{broker_of}
use reliable_messaging_syste.System.Liveness.Inbox.{InboxAvailable}
use reliable_messaging_syste.System.Liveness.Implementation.{
  over_libraries, LeavesAlone, LibraryLaws,
}
use reliable_messaging_syste.System.Liveness.Listed.{IsSendable, listed_becomes_sent}
use reliable_messaging_syste.Tests.Simulation.{message_at}
use reliable_messaging_syste.Tests.Stores.{redis-RedisLaws, redis-CodecLaws}
use reliable_messaging_syste.Tests.Finds.{unsent_message}
use reliable_messaging_syste.Tests.QueueRuns.{
  topology_of, fresh_broker, fresh-IsOurs, queued_of_test, text_length-unary, unary,
}
use reliable_messaging_syste.Tests.Closed.{
  World, docs_in, topology_in, waiting_in, keys_in, mongo, mq, inbox, bare, start, handed,
  adapters-AdapterLaws,
}

abbrev services : Services World
services = over_libraries mongo mq inbox bare

mongo-AvailableLaws : AvailableLaws docs_in mongo
mongo-AvailableLaws = record {
  driver = adapters-AdapterLaws.driver;
  finds = record {
    found_lem = λ id w m e. elim (Option-cases (w.0 id)) [
      | inl none' ↦ absurd (ground (arith, none'))
      | inr (n, there) ↦ ground (arith, there)
    ];
    missing_lem = λ id w e. elim (Option-cases (w.0 id)) [
      | inl none' ↦ none'
      | inr (n, there) ↦ absurd (ground (arith, there))
    ];
  };
  clock = record { unchanged = λ w. refl };
  find_one_ends = λ id w. elim (Option-cases (w.0 id)) [
    | inl none' ↦ inr (ground (arith, none'))
    | inr (m, there) ↦ inl (m, ground (arith, there))
  ];
  update_one_ends = λ id u w. refl;
  now_ends = λ w e. absurd (ground arith);
  closed = record { execute_lem = λ m w. refl };
}

mongo-broker : LeavesAlone (broker_of topology_in docs_in waiting_in) mongo
mongo-broker = record {
  find_one_lem = λ f. record { unchanged = λ w. refl };
  find_lem = λ f limit. record { unchanged = λ w. refl };
  all_lem = λ c. record { unchanged = λ w. refl };
  close_cursor_lem = λ c. record { unchanged = λ w. refl };
  update_one_lem = λ f u. record { unchanged = λ w. refl };
  insert_one_lem = λ m. record { unchanged = λ w. refl };
  now_lem = record { unchanged = λ w. refl };
}

mongo-keys : LeavesAlone keys_in mongo
mongo-keys = record {
  find_one_lem = λ f. record { unchanged = λ w. refl };
  find_lem = λ f limit. record { unchanged = λ w. refl };
  all_lem = λ c. record { unchanged = λ w. refl };
  close_cursor_lem = λ c. record { unchanged = λ w. refl };
  update_one_lem = λ f u. record { unchanged = λ w. refl };
  insert_one_lem = λ m. record { unchanged = λ w. refl };
  now_lem = record { unchanged = λ w. refl };
}

inbox-InboxAvailable : InboxAvailable keys_in docs_in inbox
inbox-InboxAvailable = record {
  redis = record {
    get_reads = λ k. record { unchanged = λ w. refl };
    get_lem = λ k v w e. redis-RedisLaws.get_lem k v w.2 e;
    get_found_lem = λ k v w e. redis-RedisLaws.get_found_lem k v w.2 e;
    set_lem = λ k v ttl w. inl refl;
  };
  codec = redis-CodecLaws;
  clock = record { unchanged = λ w. refl };
  missing_lem = λ k w e. ground (arith, e);
  get_docs = λ k. record { unchanged = λ w. refl };
  set_ends = λ k v ttl w. refl;
  set_docs = λ k v ttl. record { unchanged = λ w. refl };
  clock_ends = λ w e. absurd (ground arith);
  clock_docs = record { unchanged = λ w. refl };
  encode_ends = λ at. ("processed", refl);
  closed = record { execute_lem = λ m w. refl };
}

libraries-LibraryLaws : LibraryLaws topology_in docs_in waiting_in keys_in mongo mq inbox bare
libraries-LibraryLaws = record {
  collection = mongo-AvailableLaws;
  finds = adapters-AdapterLaws.finds;
  collection_broker = mongo-broker;
  collection_keys = mongo-keys;
  broker = record {
    publish_lem = λ exchange key m w. (refl, refl, λ q. refl);
    publish_docs = λ exchange key m. record { unchanged = λ w. refl };
    now_ends = λ w e. absurd (ground arith);
    now_docs = record { unchanged = λ w. refl };
    now_broker = record { unchanged = λ w. refl };
  };
  redis = inbox-InboxAvailable;
  sender_clock_docs = record { unchanged = λ w. refl };
  sender_clock_broker = record { unchanged = λ w. refl };
  ack_ends = λ d w e. absurd (ground arith);
  ack_docs = λ d. record { unchanged = λ w. refl };
  ack_keys = λ d. record { unchanged = λ w. refl };
  now_ends = λ w e. absurd (ground arith);
  now_docs = record { unchanged = λ w. refl };
  send_message_docs = λ content to. record { unchanged = λ w. refl };
  decode_lem = λ q b h. ground (arith, queued_of_test q);
  hex_lem = λ id. ap ok (text_length-unary id);
}

abbrev after_round : World
after_round = perform services round start

-- What is stored of the message after the round.
abbrev after_round_message : Message
after_round_message = record (message_at 1 (pos 0)) { updated_at = 0 }

after_round-IsSendable :
    (n : Message)
    → docs_in after_round 1 ≡ some n
    → IsSendable topology_in docs_in waiting_in keys_in mongo mq inbox bare libraries-LibraryLaws n
unfolding perform process_unsent_messages handle_message for_each MessageQueue.publish_message
    MessageRepository.update_status MessageRepository.find_unsent_messages
after_round-IsSendable n there =
    let same : n ≡ after_round_message = ground (arith, there) in
    record {
      attempts_left = ground (arith, same);
      not_stale = λ at u read. ground (arith, same, read);
    }

listed_becomes_sent_example :
    IsWaiting docs_in waiting_in (7 ∷ []) after_round
    × ((process_message services.worker handed after_round).0 ≡ returns none)
    × ((n : Message) × (docs_in (perform services (delivery handed) after_round) 1 ≡ some n)
        × (n.status ≡ sent)
        × (n.to ≡ "+905321234567")
        × (n.content ≡ "hello"))
    × ((mark : _) × (keys_in (perform services (delivery handed) after_round) (inbox_key (unary 1))
          ≡ some mark)
        × (says_processed inbox.codec mark ≡ true))
unfolding perform process_unsent_messages handle_message for_each MessageQueue.publish_message
    MessageRepository.update_status MessageRepository.find_unsent_messages
listed_becomes_sent_example =
    listed_becomes_sent topology_in docs_in waiting_in keys_in mongo mq inbox bare
      libraries-LibraryLaws (unsent_message ∷ []) unsent_message (7 ∷ []) handed start after_round
      refl (Memᴰ.head refl) refl (set_up-IsSetUp (topology_of fresh_broker) fresh-IsOurs)
      (Evolves-refl (docs_in after_round)) refl (omega arith) refl after_round-IsSendable
      (λ u. (none, refl))
