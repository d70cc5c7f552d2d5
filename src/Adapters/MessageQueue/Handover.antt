-- ===== src/Adapters/MessageQueue/Handover.antt =====
-- What the broker hands out of what was published.
use reliable_messaging_syste.Prelude.{ℕ, Option}
use reliable_messaging_syste.Contracts.{Table, Delivery}
use reliable_messaging_syste.Adapters.Drivers.{Publishing}

-- How the broker hands out a message: under a tag and with headers of its own.
pub record Handover : Type 0 where
  pub tag : ℕ
  pub headers : Option Table

abbrev pub handed_out : Handover → Publishing → Delivery
handed_out h m = record {
  delivery_tag = h.tag;
  headers = h.headers;
  content_type = m.content_type;
  body = m.body;
}
