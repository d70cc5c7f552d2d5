-- ===== src/Tests/AcceptanceRuns.antt =====
-- A request to the sender over a collection that works.
use reliable_messaging_syste.Prelude.{refl, true, none, some, [], ◌∷◌, ◌==◌, if◌then◌else◌, pos}
use reliable_messaging_syste.Effects.{Exec, external, ok, err, returns}
use reliable_messaging_syste.Store.Evolution.{Docs}
use reliable_messaging_syste.Sender.Service
use reliable_messaging_syste.Sender.Service.{SenderService}
use reliable_messaging_syste.Sender.Scheduler.{MessageScheduler, new_message_scheduler}
use reliable_messaging_syste.Sender.Domain.{prepare_message}
use reliable_messaging_syste.Adapters.MessageRepository
use reliable_messaging_syste.Adapters.MessageRepository.{MongoMessageRepository}
use reliable_messaging_syste.Adapters.MessageRepository.Contract.{CollectionLaws}
use reliable_messaging_syste.Api.Messages
use reliable_messaging_syste.Api.Messages.{bound}
use reliable_messaging_syste.Api.RateLimit.{rate_limit}
use reliable_messaging_syste.Webhook.{RateLimiter}
use reliable_messaging_syste.Programs.Sender.{Request, SenderLibraries, route_of, router, handle}
use reliable_messaging_syste.Programs.Sender.Acceptance.{IsStored, over_mongo, router-IsAccepted}
use reliable_messaging_syste.Tests.Simulation.{message_at, sender}
use reliable_messaging_syste.Tests.Stores.{closed_breaker, collection, collection-CollectionLaws}

abbrev World : Type 0
World = Docs × MessageScheduler

abbrev docs_in : World → Docs
docs_in w = w.0

abbrev on_docs : {A : Type 0} → Exec Docs A → Exec World A
on_docs m w = let (r, d) = m w.0 in (r, (d, w.1))

abbrev idle : {A : Type 0} → A → Exec World A
idle a w = (returns a, w)

abbrev mongo : MongoMessageRepository World
mongo = record {
  collection = record {
    insert_one = λ m. on_docs (collection.insert_one m);
    find_one = λ f. on_docs (collection.find_one f);
    find = λ f limit. on_docs (collection.find f limit);
    all = λ c. on_docs (collection.all c);
    close_cursor = λ c. on_docs (collection.close_cursor c);
    update_one = λ f u. on_docs (collection.update_one f u);
  };
  cb = closed_breaker;
  now = idle 1000;
}

mongo-CollectionLaws : CollectionLaws docs_in mongo.collection
mongo-CollectionLaws = record {
  find_one_lem = λ f. record { unchanged = λ w. refl };
  find_lem = λ f limit. record { unchanged = λ w. refl };
  all_lem = λ c. record { unchanged = λ w. refl };
  close_cursor_lem = λ c. record { unchanged = λ w. refl };
  update_one_lem = λ id u w. collection-CollectionLaws.update_one_lem id u w.0;
  insert_one_lem = λ m w. collection-CollectionLaws.insert_one_lem m w.0;
}

abbrev sender_service : SenderService World
sender_service = record {
  sender = sender;
  repository = MessageRepository.as_port mongo;
  queue = record {
    publish_message = λ m. idle none;
    consume_messages = λ q. idle none;
    move_to_dead_letter = λ d. idle none;
    move_to_retry_queue = λ d. idle none;
    get_dlq_message_count = idle (ok (pos 0));
    close = idle tt;
  };
  platform = record {
    now = idle 1000;
    ack = λ d multiple. idle none;
    nack = λ d multiple requeue. idle none;
    marshal = λ q. ok (7 ∷ []);
    unmarshal = λ body. err (external 4);
    hex = λ id. "01";
    object_id_from_hex = λ text. ok 1;
  };
}

abbrev allowing : RateLimiter World
allowing = record { wait = idle none; allow = idle true; reserve = idle 0 }

abbrev libraries : SenderLibraries World
libraries = record {
  common = record {
    lookup_env = λ key. none;
    atoi = λ text. err (external 6);
    connect = λ uri. idle (err (external 5));
    dial = λ uri. idle (some (external 5));
    open_channel = idle (err (external 5));
    close_connection = idle none;
    new_circuit_breaker = λ settings. closed_breaker;
    platform = sender_service.platform;
  };
  new_limiter = λ rate burst. allowing;
  get_url = λ url. idle (err (external 7));
  close_body = λ body. idle none;
  serve_until_signal = λ router. idle none;
  scheduler = record { load = λ w. w.1; store = λ s w. (w.0, s) };
}

abbrev request : Request
request = record {
  method = "POST";
  path = "/api/v1/messages";
  body = bound (record { to = "+905321234567"; content = "hello" });
}

abbrev start : World
start = (λ id. if id == 1 then some (message_at 1 (pos 0)) else none, new_message_scheduler)

router-IsAccepted_example :
    IsStored "hello" "+905321234567" start.0
      (router libraries (over_mongo mongo sender_service) allowing request start).1.0
unfolding router route_of rate_limit handle Messages.send_message Service.create_message
    prepare_message MessageRepository.create_message
router-IsAccepted_example =
    router-IsAccepted docs_in libraries sender_service mongo mongo-CollectionLaws
      (record { unchanged = λ w. refl }) allowing request start "01"
      (record { unchanged = λ w. refl }) refl
