-- ===== src/Webhook/Answers.antt =====
-- What an answer of the webhook client means.
use reliable_messaging_syste.Prelude.{
  ◌≡◌, ◌≢◌, ◌<◌, inl, inr, String, none, some, Bool-cases, leb, arith,
}
use reliable_messaging_syste.Effects.{ok, returns, Result-cases, Outcome-cases}
use reliable_messaging_syste.Models.{Bytes}
use reliable_messaging_syste.Ports.{WebhookResponse}
use reliable_messaging_syste.Adapters.Breaker.Contract.{BreakerLaws}
use reliable_messaging_syste.Webhook.{
  HttpRequest, HttpResponse, HttpWebhookClient, request_of, decode_or_empty, read_response, post,
  send_message,
}

module _ {W : Type 0} (c : HttpWebhookClient W) where
  -- The client never answers with a nil response and no error, so its caller's test for nil never
  -- fails.
  pub send_message-ne-nil :
      (content to : String) (w : W) → (send_message c content to w).0 ≢ returns (ok none)
  unfolding send_message
  send_message-ne-nil content to w h = ground arith

  read_response_ok :
      (resp : HttpResponse) (w : W) (r : WebhookResponse)
      → (read_response c resp w).0 ≡ returns (ok r)
      → (resp.status_code < 400)
        × ((b : Bytes) × ((c.driver.read_all resp.body w).0 ≡ returns (ok b))
            × (r ≡ decode_or_empty c.driver b))
  unfolding read_response
  read_response_ok resp w r h = elim (Bool-cases (leb 400 resp.status_code)) [
    | inl high ↦ absurd (ground (arith, high))
    | inr low ↦ elim (Outcome-cases (c.driver.read_all resp.body w).0) [
      | inr p ↦ absurd (ground (arith, low, p))
      | inl (x, e) ↦ elim (Result-cases x) [
        | inr (y, ex) ↦ absurd (ground (arith, low, e, ex))
        | inl (b, ex) ↦ (ground arith, (b, ground arith, ground (arith, low, e, ex)))
      ]
    ]
  ]

  -- Sent from the world `v`, the request for this text and recipient to the configured address got
  -- a response with a status below 400, and `r` is what its body decodes to.
  abbrev pub IsAnswered : String → String → W → WebhookResponse → Type 0
  IsAnswered content to v r =
      (body : Bytes) × (req : HttpRequest) × (resp : HttpResponse) × (answer : Bytes)
      × (c.driver.marshal_content to content ≡ ok body)
      × (c.driver.new_request (request_of c.base_url body) ≡ ok req)
      × ((c.driver.send_request req v).0 ≡ returns (ok resp))
      × (resp.status_code < 400)
      × ((c.driver.read_all resp.body (c.driver.send_request req v).1).0 ≡ returns (ok answer))
      × (r ≡ decode_or_empty c.driver answer)

  post_ok :
      (content to : String) (w : W) (r : WebhookResponse)
      → (post c content to w).0 ≡ returns (ok r)
      → IsAnswered content to w r
  unfolding post
  post_ok content to w r h = elim (Result-cases (c.driver.marshal_content to content)) [
    | inr (x, e) ↦ absurd (ground (arith, e))
    | inl (body, eb) ↦ elim (Result-cases (c.driver.new_request (request_of c.base_url body))) [
      | inr (x, e) ↦ absurd (ground (arith, eb, e))
      | inl (req, er) ↦ elim (Outcome-cases (c.driver.send_request req w).0) [
        | inr p ↦ absurd (ground (arith, eb, er, p))
        | inl (x, ex) ↦ elim (Result-cases x) [
          | inr (y, ey) ↦ absurd (ground (arith, eb, er, ex, ey))
          | inl (resp, ey) ↦
              let last : (read_response c resp (c.driver.send_request req w).1).0 ≡ returns (ok r) =
                ground (arith, eb, er, ex, ey) in
              let (below, (answer, read, decoded)) =
                read_response_ok resp (c.driver.send_request req w).1 r last in
              (body, req, resp, answer, eb, er, ground (arith, ex, ey), below, read, decoded)
        ]
      ]
    ]
  ]

  -- A success is the answer, with a status below 400, to a request for this text and recipient that
  -- was sent after the rate limiter let the call through, with nothing in between that a breaker
  -- that keeps its contract does not leave alone.
  pub send_message_ok :
      {V : Type 0} (view : W → V) (breaker : BreakerLaws view c.cb) (content to : String) (w : W)
      (r : WebhookResponse)
      → (send_message c content to w).0 ≡ returns (ok (some r))
      → ((c.rate_limiter.wait w).0 ≡ returns none)
        × ((v : W) × (view v ≡ view (c.rate_limiter.wait w).1) × IsAnswered content to v r)
  unfolding send_message
  send_message_ok view breaker content to w r h =
      elim (breaker.execute_lem (post c content to) (c.rate_limiter.wait w).1) [
        | inr (e, er, _) ↦ absurd (ground (arith, er))
        | inl (v, ev, er, _) ↦ (ground arith, (v, ev, post_ok content to v r (ground (arith, er))))
      ]
