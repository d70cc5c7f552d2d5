-- ===== src/Programs/Sender.antt =====
-- sender_service/cmd/main.go, with the constructors that it calls.
pub mod Routes
pub mod Start
pub mod Acceptance
use reliable_messaging_syste.Prelude.{
  ℕ, ◌*◌, ◌&&◌, String, Bool, Option, none, some, pos, if◌then◌else◌,
}
use reliable_messaging_syste.Effects.{
  Error, errorf, Result, ok, err, Exec, Err, pure, defer, ◌>>=◌, ◌>>◌, try, try_err,
}
use reliable_messaging_syste.Models.{Duration, minute}
use reliable_messaging_syste.Ports.{MessageRepository, MessageQueue, Platform}
use reliable_messaging_syste.Config.{Config, load_config}
use reliable_messaging_syste.Sender.Domain.{MessageSender, new_message_sender}
use reliable_messaging_syste.Sender.Service.{SenderService}
use reliable_messaging_syste.Sender.Service
use reliable_messaging_syste.Sender.Scheduler.{MessageScheduler, new_message_scheduler}
use reliable_messaging_syste.Sender.Scheduler
use reliable_messaging_syste.Adapters.MessageRepository as Mongo
use reliable_messaging_syste.Adapters.MessageRepository.{new_message_repository}
use reliable_messaging_syste.Adapters.MessageQueue.{new_message_queue}
use reliable_messaging_syste.Api.Messages
use reliable_messaging_syste.Api.Messages.{Binding, MessageService, new_message_handler}
use reliable_messaging_syste.Api.Health.Sender.{
  HealthStatus, check_health, get_status, new_health_service, new_health_handler,
}
use reliable_messaging_syste.Api.RateLimit.{rate_limit}
use reliable_messaging_syste.Webhook.{RateLimiter, HttpResponse}
use reliable_messaging_syste.Programs.Libraries.{MongoClient, Libraries, Exit, finished, fatal}
use text.Mathlib.Text.{◌==◌ as str_eq}

-- A request as the router sees it, with what binding its body to a new message would give.
pub record Request : Type 0 where
  pub method : String
  pub path : String
  pub body : Binding

-- What the router answers: through a handler, or itself. `not_found` stands for all that is not in
-- the group of the API, the pages of the documentation included.
pub data Reply : Type 0 where
  message_reply : Messages.Response → Reply
  status_reply : ℕ × HealthStatus → Reply
  too_many_requests not_found : Reply

-- The routes of the group `/api/v1`.
pub data Route : Type 0 where
  send_message list_messages start_scheduler stop_scheduler status : Route

abbrev is_request : String → String → Request → Bool
is_request method path r = str_eq r.method method && str_eq r.path path

unfoldable pub route_of : Request → Option Route
route_of r =
    if is_request "POST" "/api/v1/messages" r
    then some send_message
    else if is_request "GET" "/api/v1/messages" r
    then some list_messages
    else if is_request "POST" "/api/v1/scheduler/start" r
    then some start_scheduler
    else if is_request "POST" "/api/v1/scheduler/stop" r
    then some stop_scheduler
    else if is_request "GET" "/api/v1/status" r
    then some status
    else none

-- Where the scheduler's state is in the world.
pub record SchedulerCell (W : Type 0) : Type 0 where
  pub load : W → MessageScheduler
  pub store : MessageScheduler → W → W

-- What only this program asks of libraries: a rate limiter for a rate and a burst, the GET of the
-- processor's status, and the server, which answers requests. It ends with no error when a signal
-- arrives, or before that with the error that `router.Run` returns.
pub record SenderLibraries (W : Type 0) : Type 1 where
  pub common : Libraries W
  pub new_limiter : ℕ → ℕ → RateLimiter W
  pub get_url : String → Exec W (Result HttpResponse)
  pub close_body : ℕ → Exec W Err
  pub serve_until_signal : (Request → Exec W Reply) → Exec W Err
  pub scheduler : SchedulerCell W

module _ {W : Type 0} (lib : SenderLibraries W) where
  open lib use {common, new_limiter, get_url, close_body, serve_until_signal, scheduler}

  -- `NewSenderService`; the scheduler that it makes is not running.
  unfoldable pub new_sender_service :
      MessageSender → MessageRepository W → MessageQueue W → Exec W (SenderService W)
  new_sender_service sender repository queue w =
      pure
        (record {
          sender = sender;
          repository = repository;
          queue = queue;
          platform = common.platform;
        })
        (scheduler.store new_message_scheduler w)

  -- `StartScheduler` and `StopScheduler`, up to the send on the scheduler's channel. Here nothing
  -- comes between the test and the write of the field; calls that race are steps of Scheduler.
  unfoldable pub start_scheduler_call : Exec W (Unit {0})
  start_scheduler_call w = pure tt (scheduler.store (Scheduler.start (scheduler.load w)) w)

  unfoldable pub stop_scheduler_call : Exec W (Unit {0})
  stop_scheduler_call w = pure tt (scheduler.store (Scheduler.stop (scheduler.load w)) w)

  -- The service as the handlers take it.
  abbrev pub message_service : SenderService W → MessageService W
  message_service s = record {
    create_message = Service.create_message s;
    list_messages = Service.list_messages s;
    start_scheduler = start_scheduler_call;
    stop_scheduler = stop_scheduler_call;
  }

  -- The handlers of `main`, over the service.
  unfoldable pub handle : SenderService W → Binding → Route → Exec W Reply
  unfolding new_message_handler new_health_service new_health_handler check_health get_status
  handle s body send_message =
      Messages.send_message (new_message_handler (message_service s)) common.platform.hex body
      >>= λ r. pure (message_reply r)
  handle s body list_messages =
      Messages.list_messages (new_message_handler (message_service s)) common.platform.hex >>= λ r.
      pure (message_reply r)
  handle s body start_scheduler =
      Messages.start_scheduler (new_message_handler (message_service s)) common.platform.hex
      >>= λ r. pure (message_reply r)
  handle s body stop_scheduler =
      Messages.stop_scheduler (new_message_handler (message_service s)) common.platform.hex >>= λ r.
      pure (message_reply r)
  handle s body status =
      get_status (
        new_health_handler
          (check_health (new_health_service get_url close_body s.repository s.queue)))
      >>= λ r. pure (status_reply r)

  -- The routes of `main`; the middleware of the group runs before each handler of the group.
  unfoldable pub router : SenderService W → RateLimiter W → Request → Exec W Reply
  router s limiter r = elim (route_of r) [
    | none ↦ pure not_found
    | some route ↦ rate_limit limiter too_many_requests (handle s r.body route)
  ]

  -- Each waits for at most 30 seconds; the time limits are left out.
  unfoldable mongodb_connect : String → Exec W (Result (MongoClient W))
  mongodb_connect uri = common.connect uri

  unfoldable mongodb_disconnect : MongoClient W → Exec W Err
  mongodb_disconnect client = client.disconnect

  -- `main` from the opened queue up to the signal, or to the error of the server.
  unfoldable pub serve_requests : Config → MongoClient W → MessageQueue W → Exec W Err
  unfolding new_message_repository new_message_sender new_sender_service router
  serve_requests cfg client queue = do
    service ←
        new_sender_service (new_message_sender (pos 2) (2 * minute))
          (Mongo.as_port (
            new_message_repository common.new_circuit_breaker
              (client.collection cfg.mongodb_database) common.platform.now))
          queue
    serve_until_signal (router service (new_limiter 50 100))

  -- `main` from the signal on. MongoDB is disconnected at the end and again by the deferred call.
  unfoldable pub shut_down : MongoClient W → MessageQueue W → Exec W Exit
  unfolding stop_scheduler_call mongodb_disconnect
  shut_down client queue =
      defer (mongodb_disconnect client)
        do stop_scheduler_call; queue.close; client.disconnect; pure finished

  -- The deferred call does not run where `log.Fatalf` ends the process.
  unfoldable pub main : Exec W Exit
  unfolding mongodb_connect
  main =
      let cfg : Config = load_config common.lookup_env common.atoi in
      try (mongodb_connect cfg.mongodb_uri)
        (λ e. pure (fatal (errorf "Failed to connect to MongoDB" e)))
        λ client.
          try
            (new_message_queue (common.dial cfg.rabbitmq_uri) common.open_channel
              common.close_connection)
            (λ e. pure (fatal (errorf "Failed to connect to RabbitMQ" e)))
            λ queue.
              try_err (serve_requests cfg client queue)
                (λ e. pure (fatal (errorf "Failed to start server" e))) (shut_down client queue)
