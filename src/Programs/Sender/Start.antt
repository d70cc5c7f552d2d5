-- ===== src/Programs/Sender/Start.antt =====
-- The start of the sender's program.
use reliable_messaging_syste.Prelude.{◌≡◌, ◌≢◌, ◌⊎◌, some, inl, inr, Option-cases, arith}
use reliable_messaging_syste.Effects.{
  Error, errorf, Result, ok, err, Exec, pure, try_err, Outcome-cases, Result-cases, returns,
}
use reliable_messaging_syste.Ports.{MessageQueue}
use reliable_messaging_syste.Config.{Config, load_config}
use reliable_messaging_syste.Adapters.MessageQueue.{new_message_queue}
use reliable_messaging_syste.Programs.Libraries.{MongoClient, Exit, fatal}
use reliable_messaging_syste.Programs.Sender.{SenderLibraries, serve_requests, shut_down, main}

module _ {W : Type 0} (lib : SenderLibraries W) where
  open lib use {common}

  abbrev config : Config
  config = load_config common.lookup_env common.atoi

  abbrev pub open_queue : Exec W (Result (MessageQueue W))
  open_queue =
      new_message_queue (common.dial config.rabbitmq_uri) common.open_channel
        common.close_connection

  -- MongoDB could not be connected, and nothing else was done.
  abbrev pub MongoFailed : Error → W → W → Type 0
  MongoFailed e w w' =
      (x : Error) × (common.connect config.mongodb_uri w ≡ (returns (err x), w'))
      × (e ≡ errorf "Failed to connect to MongoDB" x)

  -- MongoDB was connected, the queue could not be opened, and nothing else was done.
  abbrev pub QueueFailed : Error → W → W → Type 0
  QueueFailed e w w' =
      (client : MongoClient W) × (v : W) × (x : Error) × (common.connect config.mongodb_uri w
        ≡ (returns (ok client), v))
      × (open_queue v ≡ (returns (err x), w'))
      × (e ≡ errorf "Failed to connect to RabbitMQ" x)

  -- MongoDB and the queue were opened, the server failed before a signal arrived, and nothing was
  -- done after that.
  abbrev pub ServerFailed : Error → W → W → Type 0
  ServerFailed e w w' =
      (client : MongoClient W) × (queue : MessageQueue W) × (v u : W) × (x : Error)
      × (common.connect config.mongodb_uri w ≡ (returns (ok client), v))
      × (open_queue v ≡ (returns (ok queue), u))
      × (serve_requests lib config client queue u ≡ (returns (some x), w'))
      × (e ≡ errorf "Failed to start server" x)

  shut_down-ne-fatal :
      (client : MongoClient W) (queue : MessageQueue W) (e : Error) (w : W)
      → (shut_down lib client queue w).0 ≢ returns (fatal e)
  unfolding shut_down
  shut_down-ne-fatal client queue e w h = ground arith

  -- `main` from the opened queue on.
  abbrev from_queue : MongoClient W → MessageQueue W → Exec W Exit
  from_queue client queue =
      try_err (serve_requests lib config client queue)
        (λ e. pure (fatal (errorf "Failed to start server" e))) (shut_down lib client queue)

  from_queue-fatal :
      (client : MongoClient W) (queue : MessageQueue W) (e : Error) (w : W)
      → (from_queue client queue w).0 ≡ returns (fatal e)
      → (x : Error) × (serve_requests lib config client queue w
          ≡ (returns (some x), (from_queue client queue w).1))
        × (e ≡ errorf "Failed to start server" x)
  from_queue-fatal client queue e w h =
      elim (Outcome-cases (serve_requests lib config client queue w).0) [
        | inr p ↦ absurd (ground (arith, p))
        | inl (r, er) ↦ elim (Option-cases r) [
          | inr (x, ex) ↦ (x, ground (arith, er, ex), ground (arith, er, ex))
          | inl en ↦ absurd (
              shut_down-ne-fatal client queue e (serve_requests lib config client queue w).1
                (ground (arith, er, en)))
        ]
      ]

  main_fatal_queue :
      (e : Error) (w : W) (client : MongoClient W)
      → (common.connect config.mongodb_uri w).0 ≡ returns (ok client)
      → (main lib w).0 ≡ returns (fatal e)
      → QueueFailed e w (main lib w).1 ⊎ ServerFailed e w (main lib w).1
  unfolding main
  main_fatal_queue e w client c h =
      let v : W = (common.connect config.mongodb_uri w).1 in
      elim (Outcome-cases (open_queue v).0) [
        | inr p ↦ absurd (ground (arith, c, p))
        | inl (r, er) ↦ elim (Result-cases r) [
          | inl (q, eq) ↦
              let u : W = (open_queue v).1 in
              let (x, served, same) = from_queue-fatal client q e u (ground (arith, c, er, eq)) in
              inr (
                client,
                q,
                v,
                u,
                x,
                ground (arith, c),
                ground (arith, er, eq),
                ground (arith, c, er, eq, served),
                same,
              )
          | inr (x, ex) ↦ inl (
            client,
            v,
            x,
            ground (arith, c),
            ground (arith, c, er, ex),
            ground (arith, c, er, ex),
          )
        ]
      ]

  -- If the program ends by a fatal error, then MongoDB could not be connected, or the queue could
  -- not be opened after MongoDB was, or the server failed after both were. The error names which,
  -- and nothing was done after the failure: MongoDB was not disconnected, and the queue was not
  -- closed by `main`.
  pub main_fatal :
      (e : Error) (w : W)
      → (main lib w).0 ≡ returns (fatal e)
      → MongoFailed e w (main lib w).1
        ⊎ QueueFailed e w (main lib w).1
        ⊎ ServerFailed e w (main lib w).1
  unfolding main
  main_fatal e w h = elim (Outcome-cases (common.connect config.mongodb_uri w).0) [
    | inr p ↦ absurd (ground (arith, p))
    | inl (r, er) ↦ elim (Result-cases r) [
      | inr (x, ex) ↦ inl (x, ground (arith, er, ex), ground (arith, er, ex))
      | inl (client, ec) ↦ inr (main_fatal_queue e w client (ground (arith, er, ec)) h)
    ]
  ]
