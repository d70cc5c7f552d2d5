-- ===== src/Sender/Service/Creation.antt =====
-- A new message, and the id that its caller is told.
use reliable_messaging_syste.Prelude.{◌≡◌, String, none, some, ◌∷◌, pos, arith}
use reliable_messaging_syste.Effects.{Err, returns, errorf}
use reliable_messaging_syste.Models.{ObjectId, Message, unsent, nil_object_id}
use reliable_messaging_syste.Sender.Domain.{MessageSender}
use reliable_messaging_syste.Sender.Service.{create_message}
use reliable_messaging_syste.Sender.Service.Traced.{traced_service}
use reliable_messaging_syste.Trace.{Env, Trace, clock_read, created}

-- The caller is told the id of the message as the repository left it, or the nil id and an error.
abbrev pub creation_result : Err × Message → ObjectId × Err
creation_result (none, m) = (m.id, none)
creation_result (some e, m) = (nil_object_id, some (errorf "failed to create message" e))

module _ (env : Env) (sender : MessageSender) where
  -- Whatever the repository answers, it is asked exactly once, after two readings of the clock, to
  -- store an unsent message with no retries, no id, the given text and recipient and these two
  -- times, and the caller gets the id that the repository put into the message, or the nil id and
  -- the repository's error.
  pub create_message_lem :
      (content to : String) (t : Trace)
      → let t₁ : Trace = clock_read (env.now t) ∷ t in
        let t₂ : Trace = clock_read (env.now t₁) ∷ t₁ in
        let m : Message = record {
          id = nil_object_id;
          to = to;
          content = content;
          status = unsent;
          retry_count = pos 0;
          created_at = env.now t;
          updated_at = env.now t₁;
        } in
        let reply : Err × Message = env.create_message t₂ m in
        create_message (traced_service env sender) content to t
        ≡ (returns (creation_result reply), created m reply ∷ t₂)
  unfolding create_message
  create_message_lem content to t = ground arith
