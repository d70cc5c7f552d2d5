-- ===== src/Contracts.antt =====
-- shared/ports/rabbitmq/contracts, and the deliveries of the AMQP library.
use reliable_messaging_syste.Prelude.{ℕ, String, List, ℤ, pos, Option}
use reliable_messaging_syste.Models.{Bytes}

pub record QueueMessage : Type 0 where
  pub id : String
  pub content : String
  pub to : String
  pub retry : ℤ

-- The zero value that a `var queueMsg contracts.QueueMessage` starts from.
abbrev pub empty_queue_message : QueueMessage
empty_queue_message = record { id = ""; content = ""; to = ""; retry = pos 0 }

abbrev pub main_queue_name : String
main_queue_name = "messages"

abbrev pub retry_queue_name : String
retry_queue_name = "messages.retry"

abbrev pub dlq_queue_name : String
dlq_queue_name = "messages.dlq"

abbrev pub main_exchange : String
main_exchange = "messages.exchange"

abbrev pub retry_exchange : String
retry_exchange = "messages.retry.exchange"

abbrev pub max_retry_attempts : ℕ
max_retry_attempts = 5

-- The headers of a message; the values are passed on unread.
abbrev pub Table : Type 0
Table = List (String × String)

-- The fields of an `amqp.Delivery` that the services read. A nil header table is `none`.
pub record Delivery : Type 0 where
  pub delivery_tag : ℕ
  pub headers : Option Table
  pub content_type : String
  pub body : Bytes

-- `amqp.Delivery{Body: body}`
abbrev pub delivery_of : Bytes → Delivery
delivery_of body = record {
  delivery_tag = 0;
  headers = Option.none;
  content_type = "";
  body = body;
}
