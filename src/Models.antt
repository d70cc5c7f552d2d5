-- ===== src/Models.antt =====
-- shared/models/message.go, and the values of the libraries that the services only pass on.
use reliable_messaging_syste.Prelude.{ℕ, ◌*◌, String, List, ℤ}

-- The 12 bytes of a `primitive.ObjectID` read as a number. `NilObjectID` is 0.
abbrev pub ObjectId : Type 0
ObjectId = ℕ

abbrev pub nil_object_id : ObjectId
nil_object_id = 0

-- `time.Time` and a `time.Duration` that is not negative, in nanoseconds.
abbrev pub Time : Type 0
Time = ℕ

abbrev pub Duration : Type 0
Duration = ℕ

abbrev pub millisecond : Duration
millisecond = 1_000_000

abbrev pub second : Duration
second = 1_000_000_000

abbrev pub minute : Duration
minute = 60 * second

abbrev pub hour : Duration
hour = 60 * minute

abbrev pub Bytes : Type 0
Bytes = List ℕ

pub data MessageStatus : Type 0 where
  unsent processing sent failed duplicate : MessageStatus

pub MessageStatus-discrete : Discrete MessageStatus
MessageStatus-discrete = hlevel

abbrev pub status_text : MessageStatus → String
status_text unsent = "unsent"
status_text processing = "processing"
status_text sent = "sent"
status_text failed = "failed"
status_text duplicate = "duplicate"

pub record Message : Type 0 where
  pub id : ObjectId
  pub to : String
  pub content : String
  pub status : MessageStatus
  pub retry_count : ℤ
  pub created_at : Time
  pub updated_at : Time
