-- ===== src/Programs/Sender/Acceptance.antt =====
-- From an accepted request to the stored message: the router, the handler, the service and the
-- MongoDB repository.
use mathlib.Core.Path.{subst}
use reliable_messaging_syste.Prelude.{
  ◌≡◌, sym, ap, ◌∙◌, inl, inr, String, Option-cases, true, false, none, some, pos, arith,
}
use reliable_messaging_syste.Effects.{Err, Outcome, returns, Outcome-cases}
use reliable_messaging_syste.Models.{ObjectId, nil_object_id, Time, Message, unsent}
use reliable_messaging_syste.Store.Evolution.{Docs}
use reliable_messaging_syste.Sender.Domain.{prepare_message}
use reliable_messaging_syste.Sender.Service.{SenderService}
use reliable_messaging_syste.Sender.Service
use reliable_messaging_syste.Adapters.Breaker.Contract.{Reads}
use reliable_messaging_syste.Adapters.MessageRepository
use reliable_messaging_syste.Adapters.MessageRepository.{MongoMessageRepository}
use reliable_messaging_syste.Adapters.MessageRepository.Contract.{inserted, CollectionLaws}
use reliable_messaging_syste.Api.Messages
use reliable_messaging_syste.Api.Messages.{
  MessageHandler, new_message_handler, Binding, bound, invalid, unreadable,
}
use reliable_messaging_syste.Api.Messages.Replies.{accepted}
use reliable_messaging_syste.Api.RateLimit.{rate_limit}
use reliable_messaging_syste.Webhook.{RateLimiter}
use reliable_messaging_syste.Programs.Sender.{
  Request, message_reply, Route, send_message, list_messages, start_scheduler, stop_scheduler,
  status, route_of, SenderLibraries, message_service, handle, router,
}

-- A new message with these times, as it is stored under its id.
abbrev pub new_message : String → String → Time → Time → Message
new_message content to created_at updated_at = record {
  id = nil_object_id;
  to = to;
  content = content;
  status = unsent;
  retry_count = pos 0;
  created_at = created_at;
  updated_at = updated_at;
}

-- The messages `after` are those `before` and a new one under an id that was free.
abbrev pub IsStored : String → String → Docs → Docs → Type 0
IsStored content to before after =
    (id : ObjectId) × (created_at : Time) × (updated_at : Time) × (before id ≡ none)
    × (after ≡ inserted before id (new_message content to created_at updated_at))

-- The service over the MongoDB repository.
abbrev pub over_mongo : {W : Type 0} → MongoMessageRepository W → SenderService W → SenderService W
over_mongo mongo s = record s { repository = MessageRepository.as_port mongo }

module _ {W : Type 0} (docs : W → Docs) (lib : SenderLibraries W) (s : SenderService W)
    (mongo : MongoMessageRepository W) (driver : CollectionLaws docs mongo.collection)
    (clock : Reads docs s.platform.now) where
  abbrev insertion : String → String → Time → Time → W → Outcome (Err × Message) × W
  insertion content to at at' v = mongo.collection.insert_one (new_message content to at at') v

  -- An insertion that reports no error.
  insertion-IsStored :
      (content to : String) (at at' : Time) (w v : W) (m : Message)
      → docs v ≡ docs w
      → (insertion content to at at' v).0 ≡ returns (none, m)
      → IsStored content to (docs w) (docs (insertion content to at at' v).1)
  insertion-IsStored content to at at' w v m same done =
      elim (driver.insert_one_lem (new_message content to at at') v) [
        | inr (failed, _) ↦ absurd (failed m done)
        | inl (id, free, e) ↦ (
          id,
          at,
          at',
          sym (ap (λ (d : Docs). d id) same) ∙ free,
          e ∙ ap (λ d. inserted d id (new_message content to at at')) same,
        )
      ]

  create_message-IsStored :
      (content to : String) (w : W) (id : ObjectId)
      → (Service.create_message (over_mongo mongo s) content to w).0 ≡ returns (id, none)
      → IsStored content to
          (docs w)
          (docs (Service.create_message (over_mongo mongo s) content to w).1)
  unfolding Service.create_message prepare_message MessageRepository.create_message
  create_message-IsStored content to w id h =
      let u : W = (s.platform.now w).1 in
      let v : W = (s.platform.now u).1 in
      elim (Outcome-cases (s.platform.now w).0) [
        | inr p ↦ absurd (ground (arith, p))
        | inl (at, e) ↦ elim (Outcome-cases (s.platform.now u).0) [
          | inr p ↦ absurd (ground (arith, e, p))
          | inl (at', e') ↦ elim (Outcome-cases (insertion content to at at' v).0) [
            | inr p ↦ absurd (ground (arith, e, e', p))
            | inl ((some x, m), ex) ↦ absurd (ground (arith, e, e', ex))
            | inl ((none, m), done) ↦
                let same : (Service.create_message (over_mongo mongo s) content to w).1
                    ≡ (insertion content to at at' v).1 =
                  ground (arith, e, e', done) in
                subst (λ w'. IsStored content to (docs w) (docs w')) (sym same)
                  (insertion-IsStored content to at at' w v m
                    (clock.unchanged u ∙ clock.unchanged w) done)
          ]
        ]
      ]

  -- The request was bound to this text and recipient, and they are stored as a new message.
  abbrev pub IsAccepted : Binding → W → W → Type 0
  IsAccepted (bound req) w w' = IsStored req.content req.to (docs w) (docs w')
  IsAccepted _ w w' = ⊥

  IsAccepted-of_eq :
      (b : Binding) (v w w' : W) → docs v ≡ docs w → IsAccepted b v w' → IsAccepted b w w'
  IsAccepted-of_eq (bound req) v w w' same h =
      subst (λ d. IsStored req.content req.to d (docs w')) same h
  IsAccepted-of_eq (invalid es) v w w' same h = absurd h
  IsAccepted-of_eq (unreadable e) v w w' same h = absurd h

  abbrev handler : MessageHandler W
  handler = record { service = message_service lib (over_mongo mongo s) }

  send_message-IsAccepted :
      (hex : ObjectId → String) (b : Binding) (w : W) (text : String)
      → (Messages.send_message handler hex b w).0 ≡ returns (accepted text)
      → IsAccepted b w (Messages.send_message handler hex b w).1
  unfolding Messages.send_message
  send_message-IsAccepted hex (bound req) w text h =
      elim (Outcome-cases (Service.create_message (over_mongo mongo s) req.content req.to w).0) [
        | inr p ↦ absurd (ground (arith, p))
        | inl ((id, some e), r) ↦ absurd (ground (arith, r))
        | inl ((id, none), r) ↦
            subst (λ w'. IsStored req.content req.to (docs w) (docs w')) (ground (arith, r))
              (create_message-IsStored req.content req.to w id r)
      ]
  send_message-IsAccepted hex (invalid es) w text h = cc
  send_message-IsAccepted hex (unreadable e) w text h = cc

  handle-IsAccepted :
      (b : Binding) (route : Route) (w : W) (text : String)
      → (handle lib (over_mongo mongo s) b route w).0 ≡ returns (message_reply (accepted text))
      → IsAccepted b w (handle lib (over_mongo mongo s) b route w).1
  unfolding handle new_message_handler Messages.list_messages Messages.start_scheduler
      Messages.stop_scheduler
  handle-IsAccepted b send_message w text h =
      let call = Messages.send_message handler lib.common.platform.hex b w in
      elim (Outcome-cases call.0) [
        | inr p ↦ absurd (ground (arith, p))
        | inl (r, e) ↦
            let same : r ≡ accepted text = ground (arith, e) in
            subst (IsAccepted b w) (ground (arith, e))
              (send_message-IsAccepted lib.common.platform.hex b w text (e ∙ ap returns same))
      ]
  handle-IsAccepted b list_messages w text h = absurd (ground arith)
  handle-IsAccepted b start_scheduler w text h = absurd (ground arith)
  handle-IsAccepted b stop_scheduler w text h = absurd (ground arith)
  handle-IsAccepted b status w text h = absurd (ground arith)

  -- If the collection keeps its contract, and the clock and the limiter leave the messages alone:
  -- when the router accepts a request under some text, then its body was bound, and the stored
  -- messages are those before the request and one under an id that was free, unsent, with no retries
  -- and with the text and the recipient of the request.
  pub router-IsAccepted :
      (limiter : RateLimiter W) (r : Request) (w : W) (text : String)
      → Reads docs limiter.allow
      → (router lib (over_mongo mongo s) limiter r w).0 ≡ returns (message_reply (accepted text))
      → IsAccepted r.body w (router lib (over_mongo mongo s) limiter r w).1
  unfolding router rate_limit
  router-IsAccepted limiter r w text aside h = elim (Option-cases (route_of r)) [
    | inl none' ↦ absurd (ground (arith, none'))
    | inr (route, e) ↦ elim (Outcome-cases (limiter.allow w).0) [
      | inr p ↦ absurd (ground (arith, e, p))
      | inl (false, refused) ↦ absurd (ground (arith, e, refused))
      | inl (true, allowed) ↦
          let u : W = (limiter.allow w).1 in
          let same : router lib (over_mongo mongo s) limiter r w
              ≡ handle lib (over_mongo mongo s) r.body route u =
            ground (arith, e, allowed) in
          IsAccepted-of_eq r.body u w (router lib (over_mongo mongo s) limiter r w).1
            (aside.unchanged w)
            (subst (λ x. IsAccepted r.body u x.1) (sym same)
              (handle-IsAccepted r.body route u text (sym (ap (λ x. x.0) same) ∙ h)))
    ]
  ]
