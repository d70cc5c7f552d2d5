-- ===== src/Tests/ProgramRuns.antt =====
-- The theorems on the main programs, applied to libraries that answer, with a broker that does not.
use reliable_messaging_syste.Prelude.{◌≡◌, ◌≢◌, ◌↔◌, ◌⊎◌, refl, false, none, some, [], ◌∷◌, pos}
use reliable_messaging_syste.Effects.{Error, external, errorf, ok, err, Exec, returns}
use reliable_messaging_syste.Ports.{Platform}
use reliable_messaging_syste.Sender.Service.{SenderService}
use reliable_messaging_syste.Sender.Scheduler.{MessageScheduler, new_message_scheduler}
use reliable_messaging_syste.Adapters.Drivers.{Collection}
use reliable_messaging_syste.Adapters.MessageQueue.{new_message_queue}
use reliable_messaging_syste.Api.Messages.{invalid}
use reliable_messaging_syste.Webhook.{RateLimiter}
use reliable_messaging_syste.Programs.Libraries.{Libraries}
use reliable_messaging_syste.Programs.Sender.{
  Request, too_many_requests, route_of, SenderLibraries, router, main,
}
use reliable_messaging_syste.Programs.Sender.Routes.{router-too_many_requests}
use reliable_messaging_syste.Programs.Sender.Start.{
  MongoFailed, QueueFailed, ServerFailed, main_fatal,
}
use reliable_messaging_syste.Tests.Simulation.{message_at, sender}
use reliable_messaging_syste.Tests.Stores.{closed_breaker}

abbrev World : Type 0
World = MessageScheduler

abbrev idle : {A : Type 0} → A → Exec World A
idle a w = (returns a, w)

abbrev collection : Collection World
collection = record {
  insert_one = λ m. idle (none, m);
  find_one = λ f. idle (ok (message_at 1 (pos 0)));
  find = λ f limit. idle (ok 0);
  all = λ c. idle (ok []);
  close_cursor = λ c. idle none;
  update_one = λ f u. idle none;
}

abbrev platform : Platform World
platform = record {
  now = idle 1000;
  ack = λ d multiple. idle none;
  nack = λ d multiple requeue. idle none;
  marshal = λ q. ok (7 ∷ []);
  unmarshal = λ body. err (external 4);
  hex = λ id. "01";
  object_id_from_hex = λ text. ok 1;
}

abbrev libraries : Libraries World
libraries = record {
  lookup_env = λ key. none;
  atoi = λ text. err (external 6);
  connect = λ uri. idle (ok (record { collection = λ name. collection; disconnect = idle none }));
  dial = λ uri. idle (some (external 5));
  open_channel = idle (err (external 5));
  close_connection = idle none;
  new_circuit_breaker = λ settings. closed_breaker;
  platform = platform;
}

abbrev refusing : RateLimiter World
refusing = record { wait = idle none; allow = idle false; reserve = idle 0 }

abbrev sender_libraries : SenderLibraries World
sender_libraries = record {
  common = libraries;
  new_limiter = λ rate burst. refusing;
  get_url = λ url. idle (ok (record { status_code = 200; body = 1 }));
  close_body = λ body. idle none;
  serve_until_signal = λ router. idle none;
  scheduler = record { load = λ w. w; store = λ s w. s };
}

abbrev sender_service : SenderService World
sender_service = record {
  sender = sender;
  repository = record {
    find_unsent_messages = λ n. idle (ok []);
    update_status = λ id st. idle none;
    increment_retry_count = λ id. idle none;
    get_by_id = λ id. idle (ok none);
    create_message = λ m. idle (none, m);
    list_messages = idle (ok []);
    find_stale_processing_messages = λ d. idle (ok []);
  };
  queue = record {
    publish_message = λ m. idle none;
    consume_messages = λ q. idle none;
    move_to_dead_letter = λ d. idle none;
    move_to_retry_queue = λ d. idle none;
    get_dlq_message_count = idle (ok (pos 0));
    close = idle tt;
  };
  platform = platform;
}

abbrev start_request : Request
start_request = record { method = "POST"; path = "/api/v1/scheduler/start"; body = invalid [] }

abbrev idle_scheduler : World
idle_scheduler = new_message_scheduler

router-too_many_requests_example :
    let (reply, w) = router sender_libraries sender_service refusing start_request idle_scheduler in
    (reply ≡ returns too_many_requests) ↔ (
      (route_of start_request ≢ none)
      × ((refusing.allow idle_scheduler).0 ≡ returns false)
      × (w ≡ idle_scheduler))
router-too_many_requests_example =
    router-too_many_requests sender_libraries sender_service refusing start_request idle_scheduler

abbrev rabbit_error : Error
rabbit_error =
    errorf "Failed to connect to RabbitMQ" (errorf "failed to connect to RabbitMQ" (external 5))

main_fatal_example :
    let w' : World = (main sender_libraries idle_scheduler).1 in
    MongoFailed sender_libraries rabbit_error idle_scheduler w'
    ⊎ QueueFailed sender_libraries rabbit_error idle_scheduler w'
    ⊎ ServerFailed sender_libraries rabbit_error idle_scheduler w'
unfolding main new_message_queue
main_fatal_example = main_fatal sender_libraries rabbit_error idle_scheduler refl
