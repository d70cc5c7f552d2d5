-- ===== src/Api/Messages/Replies.antt =====
-- What the reply to a new message tells.
use reliable_messaging_syste.Prelude.{
  refl, Option-cases, inl, inr, ◌≡◌, ◌≢◌, ◌⊎◌, ◌↔◌, String, none, some, Option, if◌then◌else◌, List,
  [], ◌∷◌, arith,
}
use mathlib.Core.Bool.{false≢true}
use mathlib.Core.Path.{sym, ◌∙◌}
use Prim.Native.String.{◌++◌}
use text.Mathlib.Text.{◌==◌ as str_eq}
use text.Mathlib.TextEquality.{eq_iff}
use reliable_messaging_syste.Effects.{returns, Outcome-cases}
use reliable_messaging_syste.Models.{ObjectId}
use reliable_messaging_syste.Api.Messages.{
  SendMessageRequest, FieldError, Binding, bound, invalid, unreadable, errors, error,
  MessageHandler, ErrorMap, Response, error_message, add_entry, error_map, send_message, sent,
}

-- The text that the map has for the field: the newest entry stands first, and a Go map keeps it
-- alone.
unfoldable pub text_of : String → ErrorMap → Option String
text_of field [] = none
text_of field ((f, text) ∷ m) = if str_eq f field then some text else text_of field m

-- The text that a broken rule is told by. The rule `required` names its field, and any other rule is
-- told by the field alone.
abbrev pub Says : FieldError → String → Type 0
Says e text =
    ((e.tag ≡ "required") × (text ≡ e.field ++ " field is required"))
    ⊎ ((e.tag ≢ "required")
        × (((e.field ≡ "Content") × (text ≡ "Content must not exceed 250 characters"))
            ⊎ ((e.field ≡ "To")
                × (text ≡ "Phone number must be in E.164 format (e.g., +90111111111)"))))

-- It is told by no text.
abbrev pub IsSilent : FieldError → Type 0
IsSilent e = (e.tag ≢ "required") × (e.field ≢ "Content") × (e.field ≢ "To")

-- None of these errors tells of the field.
abbrev pub NoneSays : String → List FieldError → Type 0
NoneSays field [] = Unit
NoneSays field (e ∷ es) = (e.field ≢ field ⊎ IsSilent e) × NoneSays field es

-- The last of these errors that tells of the field does it by this text.
abbrev pub LastSays : String → String → List FieldError → Type 0
LastSays field text [] = ⊥
LastSays field text (e ∷ es) =
    LastSays field text es ⊎ (NoneSays field es × (e.field ≡ field) × Says e text)

content-ne-to : (field : String) → field ≡ "Content" → field ≢ "To"
content-ne-to field h k = false≢true ((eq_iff "Content" "To").1 (sym h ∙ k))

error_message-Says : (e : FieldError) (text : String) → (error_message e ≡ some text) ↔ Says e text
unfolding error_message
error_message-Says e text =
    let tag = eq_iff e.tag "required" in
    let content = eq_iff e.field "Content" in
    let to = eq_iff e.field "To" in
    (
      λ h. ground (arith, h, tag, content, to),
      λ h. ground (arith, h, tag, content, to, content-ne-to e.field),
    )

error_message-IsSilent : (e : FieldError) → (error_message e ≡ none) ↔ IsSilent e
unfolding error_message
error_message-IsSilent e =
    let tag = eq_iff e.tag "required" in
    let content = eq_iff e.field "Content" in
    let to = eq_iff e.field "To" in
    (λ h. ground (arith, h, tag, content, to), λ h. ground (arith, h, tag, content, to))

text_of-add_entry :
    (field text : String) (e : FieldError) (m : ErrorMap)
    → (text_of field (add_entry e.field (error_message e) m) ≡ some text) ↔ (
        ((e.field ≡ field) × Says e text)
        ⊎ ((e.field ≢ field ⊎ IsSilent e) × (text_of field m ≡ some text)))
unfolding text_of
text_of-add_entry field text e m =
    let said = error_message-Says e text in
    let silent = error_message-IsSilent e in
    let same = eq_iff e.field field in
    elim (Option-cases (error_message e)) [
      | inl q ↦ (ground (arith, q, silent, same), ground (arith, q, said, silent, same))
      | inr (x, q) ↦ (ground (arith, q, said, same), ground (arith, q, said, silent, same))
    ]

text_of-error_map :
    (field text : String) (es : List FieldError) (m : ErrorMap)
    → (text_of field (error_map es m) ≡ some text)
      ↔ (LastSays field text es ⊎ (NoneSays field es × (text_of field m ≡ some text)))
unfolding error_map text_of
text_of-error_map field text [] m = (λ h. inr (tt, h), ground arith)
text_of-error_map field text (e ∷ es) m =
    let rest = text_of-error_map field text es (add_entry e.field (error_message e) m) in
    let entry = text_of-add_entry field text e m in
    (ground (arith, rest, entry), ground (arith, rest, entry))

-- The reply to an invalid request has a text for a field exactly if one of the validation errors
-- tells of the field by it, and no later one tells of this field: `required` by a text that names
-- the field, and any other rule, for `Content` and `To`, by the text of the field.
pub error_map_complete :
    (field text : String) (es : List FieldError)
    → (text_of field (error_map es []) ≡ some text) ↔ LastSays field text es
unfolding text_of
error_map_complete field text es =
    let all' = text_of-error_map field text es [] in (ground (arith, all'), ground (arith, all'))

-- The reply that accepts a message under this text.
abbrev pub accepted : String → Response
accepted text = record {
  code = 200;
  body = sent (record { message = "Accepted"; message_id = text });
}

module _ {W : Type 0} (handler : MessageHandler W) (hex : ObjectId → String) where
  open handler use {service}

  -- The request was bound, and the service created the message with this id and no error.
  abbrev Created : Binding → W → ObjectId → Type 0
  Created (bound req) w id = (service.create_message req.content req.to w).0 ≡ returns (id, none)
  Created _ w id = ⊥

  accepted-Created :
      (b : Binding) (w : W) (text : String)
      → (send_message handler hex b w).0 ≡ returns (accepted text)
      → (id : ObjectId) × Created b w id × (text ≡ hex id)
  unfolding send_message
  accepted-Created (bound req) w text h =
      elim (Outcome-cases (service.create_message req.content req.to w).0) [
        | inr p ↦ absurd (ground (arith, p))
        | inl ((id, e), r) ↦ (id, ground (arith, r), ground (arith, r))
      ]
  accepted-Created (invalid es) w text h = cc
  accepted-Created (unreadable e) w text h = cc

  -- The reply accepts a message under a text exactly if the request was bound and the service
  -- created the message, with no error, under an id that has this text.
  send_message_accepts :
      (b : Binding) (w : W) (text : String)
      → ((send_message handler hex b w).0 ≡ returns (accepted text))
        ↔ ((id : ObjectId) × Created b w id × (text ≡ hex id))
  unfolding send_message
  send_message_accepts b w text = (accepted-Created b w text, created-accepted b)
    where
      created-accepted :
          (b' : Binding)
          → ((id : ObjectId) × Created b' w id × (text ≡ hex id))
          → (send_message handler hex b' w).0 ≡ returns (accepted text)
      created-accepted (bound req) (id, made, same) = ground arith
      created-accepted (invalid es) (id, h, same) = absurd h
      created-accepted (unreadable e) (id, h, same) = absurd h

  -- A request that cannot be bound is answered by 400, and the service is not called.
  send_message_refuses :
      (b : Binding) (w : W)
      → ((req : SendMessageRequest) → b ≢ bound req)
      → let (r, w') = send_message handler hex b w in
        (w' ≡ w) × ((resp : Response) × (r ≡ returns resp) × (resp.code ≡ 400))
  unfolding send_message
  send_message_refuses (bound req) w h = absurd (h req refl)
  send_message_refuses (invalid es) w h =
      (refl, (record { code = 400; body = errors (error_map es []) }, refl, refl))
  send_message_refuses (unreadable e) w h =
      (refl, (record { code = 400; body = error e }, refl, refl))
