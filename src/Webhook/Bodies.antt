-- ===== src/Webhook/Bodies.antt =====
-- The bodies of responses that the webhook client leaves open.
use mathlib.Core.Path.{subst}
use reliable_messaging_syste.Prelude.{
  ℕ, ◌≡◌, ◌≢◌, sym, ap, ◌∙◌, inl, inr, String, Bool, true, false, Bool-cases, leb, none, some,
  arith,
}
use reliable_messaging_syste.Effects.{ok, err, returns, Result-cases, Outcome-cases}
use reliable_messaging_syste.Adapters.Breaker.Contract.{Reads, BreakerLaws}
use reliable_messaging_syste.Webhook.{
  HttpRequest, HttpResponse, HttpDriver, HttpWebhookClient, request_of, read_response, post,
  send_message,
}

-- What `net/http` documents of the bodies that are open: a response that comes with no error holds
-- its own body open, a request that fails holds none, and `Close` closes the one that it is called on.
pub record HttpLaws {W : Type 0} (bodies : W → ℕ → Bool) (driver : HttpDriver W) : Type 0 where
  pub sent_lem :
      (req : HttpRequest) (w : W) (resp : HttpResponse) (h : ℕ)
      → (driver.send_request req w).0 ≡ returns (ok resp)
      → h ≢ resp.body
      → bodies (driver.send_request req w).1 h ≡ bodies w h
  pub unsent_lem :
      (req : HttpRequest) (w : W)
      → ((resp : HttpResponse) → (driver.send_request req w).0 ≢ returns (ok resp))
      → bodies (driver.send_request req w).1 ≡ bodies w
  pub read_lem : (h : ℕ) → Reads bodies (driver.read_all h)
  pub closed_lem : (h : ℕ) (w : W) → bodies (driver.close_body h w).1 h ≡ false
  pub others_lem : (h g : ℕ) (w : W) → g ≢ h → bodies (driver.close_body h w).1 g ≡ bodies w g

module _ {W : Type 0} (bodies : W → ℕ → Bool) where
  -- The body with this handle is open.
  abbrev pub IsOpen : ℕ → W → Type 0
  IsOpen h w = bodies w h ≡ true

module _ {W : Type 0} (bodies : W → ℕ → Bool) (c : HttpWebhookClient W)
    (http : HttpLaws bodies c.driver) where
  close_body-IsOpen :
      (b h : ℕ) (v : W)
      → IsOpen bodies h (c.driver.close_body b v).1
      → (h ≢ b) × (IsOpen bodies h v)
  close_body-IsOpen b h v held =
      let other : h ≢ b = λ e. ground (
        arith,
        subst (λ x. bodies (c.driver.close_body b v).1 x ≡ false) (sym e) (http.closed_lem b v),
      ) in
      (other, sym (http.others_lem b h v other) ∙ held)

  read_response-IsOpen :
      (resp : HttpResponse) (h : ℕ) (w : W)
      → IsOpen bodies h (read_response c resp w).1
      → (h ≢ resp.body) × (IsOpen bodies h w)
  unfolding read_response
  read_response-IsOpen resp h w held =
      let same : (k : ℕ) → bodies (c.driver.read_all resp.body w).1 k ≡ bodies w k =
        λ k. ap (λ f. f k) ((http.read_lem resp.body).unchanged w) in
      elim (Bool-cases (leb 400 resp.status_code)) [
        | inl high ↦ close_body-IsOpen resp.body h w (ground (arith, high))
        | inr low ↦
            let (other, before) =
              close_body-IsOpen resp.body h (c.driver.read_all resp.body w).1
                (ground (arith, low)) in
            (other, sym (same h) ∙ before)
      ]

  -- A request that fails leaves the bodies alone; a response's body is closed again.
  sent-IsOpen :
      (req : HttpRequest) (h : ℕ) (w : W)
      → ((resp : HttpResponse) → (c.driver.send_request req w).0 ≢ returns (ok resp))
      → IsOpen bodies h (c.driver.send_request req w).1
      → IsOpen bodies h w
  sent-IsOpen req h w failed held = sym (ap (λ f. f h) (http.unsent_lem req w failed)) ∙ held

  post-IsOpen :
      (content to : String) (h : ℕ) (w : W)
      → IsOpen bodies h (post c content to w).1
      → IsOpen bodies h w
  unfolding post
  post-IsOpen content to h w held = elim (Result-cases (c.driver.marshal_content to content)) [
    | inr (x, e) ↦ ground (arith, e)
    | inl (body, eb) ↦ elim (Result-cases (c.driver.new_request (request_of c.base_url body))) [
      | inr (x, e) ↦ ground (arith, eb, e)
      | inl (req, er) ↦ elim (Outcome-cases (c.driver.send_request req w).0) [
        | inr p ↦ sent-IsOpen req h w (λ resp s. ground (arith, p)) (ground (arith, eb, er, p))
        | inl (err y, ey) ↦
            sent-IsOpen req h w (λ resp s. ground (arith, ey)) (ground (arith, eb, er, ey))
        | inl (ok resp, ey) ↦
            let v : W = (c.driver.send_request req w).1 in
            let (other, before) = read_response-IsOpen resp h v (ground (arith, eb, er, ey)) in
            sym (http.sent_lem req w resp h ey other) ∙ before
      ]
    ]
  ]

  module _ (breaker : BreakerLaws bodies c.cb) (content to : String) (h : ℕ) where
    execute-IsOpen :
        (w : W) → IsOpen bodies h (c.cb.execute (post c content to) w).1 → IsOpen bodies h w
    execute-IsOpen w held = elim (breaker.execute_lem (post c content to) w) [
      | inr (e, _, kept) ↦ sym (ap (λ f. f h) kept) ∙ held
      | inl (v, before, _, after) ↦
          sym (ap (λ f. f h) before) ∙ post-IsOpen content to h v (sym (ap (λ f. f h) after) ∙ held)
    ]

  -- If the HTTP library and the breaker keep their contracts, and the limiter leaves the bodies of
  -- responses alone, then a call of the webhook, however it ends, leaves no body open that was not
  -- open before.
  pub send_message-IsOpen :
      (breaker : BreakerLaws bodies c.cb) (limiter : Reads bodies c.rate_limiter.wait)
      (content to : String) (h : ℕ) (w : W)
      → IsOpen bodies h (send_message c content to w).1
      → IsOpen bodies h w
  unfolding send_message
  send_message-IsOpen breaker limiter content to h w held =
      let v : W = (c.rate_limiter.wait w).1 in
      let waited : bodies v h ≡ bodies w h = ap (λ f. f h) (limiter.unchanged w) in
      sym waited ∙ elim (Outcome-cases (c.rate_limiter.wait w).0) [
        | inr p ↦ ground (arith, p)
        | inl (some e, ep) ↦ ground (arith, ep)
        | inl (none, ep) ↦
            execute-IsOpen breaker content to h v
              (elim (Outcome-cases (c.cb.execute (post c content to) v).0) [
                | inr p ↦ ground (arith, ep, p)
                | inl (err e, ee) ↦ ground (arith, ep, ee)
                | inl (ok r, er) ↦ ground (arith, ep, er)
              ])
      ]
