-- ===== src/Programs/Libraries.antt =====
-- What both main programs ask of libraries.
use reliable_messaging_syste.Prelude.{String, Option, ℤ}
use reliable_messaging_syste.Effects.{Error, Result, Exec, Err}
use reliable_messaging_syste.Ports.{Platform}
use reliable_messaging_syste.Adapters.Drivers.{Collection, CircuitBreaker, Settings}
use reliable_messaging_syste.Adapters.MessageQueue.{RabbitMqAdapter}

-- `collection` takes the name of the database; the adapter names the collection itself.
pub record MongoClient (W : Type 0) : Type 0 where
  pub collection : String → Collection W
  pub disconnect : Exec W Err

pub record Libraries (W : Type 0) : Type 1 where
  pub lookup_env : String → Option String
  pub atoi : String → Result ℤ
  pub connect : String → Exec W (Result (MongoClient W))
  pub dial : String → Exec W Err
  pub open_channel : Exec W (Result (RabbitMqAdapter W))
  pub close_connection : Exec W Err
  pub new_circuit_breaker : Settings → CircuitBreaker W
  pub platform : Platform W

-- How a program ends: at the end of `main`, or by `log.Fatalf`, which runs no deferred call.
pub data Exit : Type 0 where
  finished : Exit
  fatal : Error → Exit
