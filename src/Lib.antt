-- ===== src/Lib.antt =====
-- A system that sends messages to a webhook, in two services over MongoDB, RabbitMQ and Redis.
--
-- The sender service takes messages over HTTP, stores them as `unsent`, and a scheduler publishes
-- them to the queue and sets them to `processing`. The processor service takes each delivery from
-- the queue, asks an inbox in Redis whether its id was processed, reads the message from MongoDB,
-- calls the webhook, and then marks the inbox and sets the message to `sent`. A failed call raises
-- the retry count and moves the delivery to a retry queue, or to a dead-letter queue at the limit. A
-- monitor moves messages that stay in `processing` for too long to the dead-letter queue.
--
-- Effects writes Go's control flow: errors as values, a nil dereference as an outcome, and a world
-- that each call passes on. Services and adapters are functions over any such world, given the ports
-- and libraries they call as records of operations.
--   Models, Contracts    shared/models, shared/ports/rabbitmq/contracts
--   Ports                shared/ports, processor_service/internal/application/ports
--   Processor/Domain     processor_service/internal/domain/processor.go
--   Processor/Service    processor_service/internal/application/service/processor_service.go, one
--                        function per method; handle_queue_message, deliver_message and
--                        record_webhook_response are the parts of handleMessageProcessing from the
--                        decoded message on, from the message read on, and from the answer on
--   Sender/Domain        sender_service/internal/domain/sender.go
--   Sender/Service       sender_service/internal/application/service/sender_service.go
--   Sender/Scheduler     the scheduler's flag, goroutines and channel in the same file, as a step
--                        relation on the whole state; no lock guards the flag, so its test and its
--                        write are steps of their own
--   Adapters             shared/adapters: MessageRepository, IdempotencyService, MessageQueue, over
--                        the operations of the libraries in Drivers; Breaker has the settings of the
--                        circuit breakers
--   Webhook              processor_service/internal/infrastructure/webhook/http_client.go and
--                        shared/ratelimit/rate_limiter.go
--   Config               shared/config/config.go
--   Programs             sender_service/cmd/main.go and processor_service/cmd/main.go, with the
--                        constructors of the services; Sender/Acceptance goes from the router to
--                        the stored message
--   Api                  sender_service/internal/application/handlers, the middleware, and the
--                        health checks of both services
-- Trace is the world as a history of calls with their replies, which an arbitrary environment
-- chooses; the modules below Processor/Service and Sender/Service are about such histories.
-- Store takes the stored messages as the world sees them, says what may become of a message, and
-- has the rules for calls that make only allowed changes, or that do not panic, with what they give
-- for each method of the services; Adapters/MessageRepository/Changes and Writes are about the same
-- laws for the repository. System runs both services over one world, in any order of their
-- activities; Interleaving lets others change the world before each call through a port;
-- Stores and Recording put the worker over the adapters of both stores; Queues is about what waits
-- in the queues, with its laws for the ports and the adapters under them; Liveness is about the way
-- of one message from a round to the end of its delivery, while the libraries under the adapters are
-- available. Tests holds a simulated environment, stores that work, and the theorems applied to
-- them.
--
-- A loop over `select` is a function of the list of what the select takes, so it needs no fuel, and
-- the lists are the finite runs. Times are nanoseconds in ℕ, which the MongoDB collection keeps to
-- the millisecond, and durations are not negative. An `int` is an integer without bounds, but for
-- the 64-bit products of Config. A panic ends a run and keeps the world as it is, but for what the
-- deferred calls do.
--
-- Not modelled: log lines, contexts and time limits, HTTP binding, the pages of the documentation,
-- the test doubles, the expiry of keys in Redis, and what the broker does by itself between two
-- calls. `log.Fatalf` ends a program at once; the server that fails does it from its own goroutine,
-- which is modelled as an error that ends the wait for the signal. Two goroutines interleave
-- between calls through a port, not inside one. What the libraries do (the MongoDB driver, Redis,
-- AMQP, the circuit breaker, JSON, the clock, the HTTP server) is a parameter, with its documented
-- behaviour as the records of laws in the modules named Contract, in
-- Adapters/MessageRepository/Finding and Reading, in Webhook/Bodies, in
-- System/Queues/Implementation and in System/Liveness, whose laws also say that the libraries are
-- available.
pub mod Prelude
pub mod Effects
pub mod Models
pub mod Contracts
pub mod Ports
pub mod Processor
pub mod Trace
pub mod Sender
pub mod Adapters
pub mod Store
pub mod Webhook
pub mod System
pub mod Programs
pub mod Config
pub mod Api
pub mod Tests
