-- ===== src/Api/Messages.antt =====
-- sender_service/internal/application/handlers/message_handler.go, over
-- sender_service/internal/application/ports/message.go.
pub mod Replies
use Prim.Native.String.{◌++◌}
use reliable_messaging_syste.Prelude.{ℕ, String, Option, none, some, List, [], ◌∷◌, if◌then◌else◌}
use reliable_messaging_syste.Effects.{Error, Result, ok, err, Exec, Err, pure, ◌>>=◌, ◌>>◌}
use reliable_messaging_syste.Models.{ObjectId, Message}
use text.Mathlib.Text.{◌==◌ as str_eq}

pub record SendMessageRequest : Type 0 where
  pub to : String
  pub content : String

-- `Message` and `MessageId`.
pub record SendMessageResponse : Type 0 where
  pub message : String
  pub message_id : String

pub record ListMessagesResponse : Type 0 where
  pub messages : List Message

-- A `validator.FieldError`: the field, and the tag of the rule that it breaks.
pub record FieldError : Type 0 where
  pub field : String
  pub tag : String

-- What `ShouldBindJSON` gives.
pub data Binding : Type 0 where
  bound : SendMessageRequest → Binding
  invalid : List FieldError → Binding
  unreadable : Error → Binding

-- A Go map from text to text; a later entry for a key stands first.
abbrev pub ErrorMap : Type 0
ErrorMap = List (String × String)

pub data Body : Type 0 where
  errors : ErrorMap → Body
  error : Error → Body
  sent : SendMessageResponse → Body
  listed : ListMessagesResponse → Body
  status : String → Body

pub record Response : Type 0 where
  pub code : ℕ
  pub body : Body

-- `MessageService`. The times that the handlers allow to each call are left out.
pub record MessageService (W : Type 0) : Type 0 where
  pub create_message : String → String → Exec W (ObjectId × Err)
  pub list_messages : Exec W (Result (List Message))
  pub start_scheduler : Exec W (Unit {0})
  pub stop_scheduler : Exec W (Unit {0})

pub record MessageHandler (W : Type 0) : Type 0 where
  pub service : MessageService W

unfoldable pub new_message_handler : {W : Type 0} → MessageService W → MessageHandler W
new_message_handler service = record { service = service }

-- The text for a field error; a rule that the `switch` does not know adds none.
unfoldable pub error_message : FieldError → Option String
error_message e =
    if str_eq e.tag "required"
    then some (e.field ++ " field is required")
    else if str_eq e.field "Content"
    then some "Content must not exceed 250 characters"
    else if str_eq e.field "To"
    then some "Phone number must be in E.164 format (e.g., +90111111111)"
    else none

abbrev pub add_entry : String → Option String → ErrorMap → ErrorMap
add_entry field none m = m
add_entry field (some text) m = (field, text) ∷ m

-- The loop over the validation errors.
unfoldable pub error_map : List FieldError → ErrorMap → ErrorMap
error_map [] m = m
error_map (e ∷ es) m = error_map es (add_entry e.field (error_message e) m)

module _ {W : Type 0} (h : MessageHandler W) (hex : ObjectId → String) where
  open h use {service}

  unfoldable pub send_message : Binding → Exec W Response
  unfolding error_map
  send_message (invalid ve) = pure (record { code = 400; body = errors (error_map ve []) })
  send_message (unreadable e) = pure (record { code = 400; body = error e })
  send_message (bound req) = do
    (id, e) ← service.create_message req.content req.to
    pure (elim e [
      | some e' ↦ record { code = 500; body = error e' }
      | none ↦ record {
        code = 200;
        body = sent (record { message = "Accepted"; message_id = hex id });
      }
    ])

  unfoldable pub list_messages : Exec W Response
  list_messages = do
    r ← service.list_messages
    pure (elim r [
      | err e ↦ record { code = 500; body = error e }
      | ok ms ↦ record { code = 200; body = listed (record { messages = ms }) }
    ])

  unfoldable pub start_scheduler : Exec W Response
  start_scheduler =
      service.start_scheduler >> pure (record { code = 200; body = status "scheduler started" })

  unfoldable pub stop_scheduler : Exec W Response
  stop_scheduler =
      service.stop_scheduler >> pure (record { code = 200; body = status "scheduler stopped" })
