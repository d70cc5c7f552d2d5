-- ===== src/Webhook.antt =====
-- processor_service/internal/infrastructure/webhook/http_client.go, and the limiter that it shares
-- with the sender's middleware, shared/ratelimit/rate_limiter.go.
pub mod Answers
pub mod Bodies
use reliable_messaging_syste.Prelude.{
  ℕ, String, Option, none, some, leb, if◌then◌else◌, Bool, true, ℤ,
}
use reliable_messaging_syste.Effects.{
  Error, errorf, error_number, Result, ok, err, Exec, Err, pure, defer, try, try_err,
}
use reliable_messaging_syste.Models.{Bytes}
use reliable_messaging_syste.Ports
use reliable_messaging_syste.Ports.{WebhookResponse}
use reliable_messaging_syste.Adapters.Drivers.{CircuitBreaker, Settings}
use reliable_messaging_syste.Adapters.Breaker.{breaker_settings}

-- `rate.Limiter`, whose methods `RateLimiter` passes on. A `rate.Reservation` is known by a number.
pub record RateLimiter (W : Type 0) : Type 0 where
  pub wait : Exec W Err
  pub allow : Exec W Bool
  pub reserve : Exec W ℕ

-- An `http.Response`: its status, and a handle on its body.
pub record HttpResponse : Type 0 where
  pub status_code : ℕ
  pub body : ℕ

-- A request that is ready to be sent.
pub record HttpRequest : Type 0 where
  pub method : String
  pub url : String
  pub content_type : String
  pub body : Bytes

abbrev pub request_of : String → Bytes → HttpRequest
request_of url body = record {
  method = "POST";
  url = url;
  content_type = "application/json";
  body = body;
}

-- What the client asks of libraries. `new_request` checks a method and a URL.
pub record HttpDriver (W : Type 0) : Type 0 where
  pub marshal_content : String → String → Result Bytes
  pub new_request : HttpRequest → Result HttpRequest
  pub send_request : HttpRequest → Exec W (Result HttpResponse)
  pub read_all : ℕ → Exec W (Result Bytes)
  pub close_body : ℕ → Exec W Err
  pub unmarshal_response : Bytes → Result WebhookResponse

pub record HttpWebhookClient (W : Type 0) : Type 1 where
  pub base_url : String
  pub driver : HttpDriver W
  pub rate_limiter : RateLimiter W
  pub cb : CircuitBreaker W

-- The HTTP client is made with the time limit, and without the verification of certificates.
unfoldable pub new_http_webhook_client :
    {W : Type 0}
    → (Settings → CircuitBreaker W)
    → (new_limiter : ℕ → ℕ → RateLimiter W)
    → (new_http_client : (timeout : ℤ) (insecure_skip_verify : Bool) → HttpDriver W) → String
    → ℤ
    → HttpWebhookClient W
unfolding breaker_settings
new_http_webhook_client new_circuit_breaker new_limiter new_http_client url timeout = record {
  base_url = url;
  driver = new_http_client timeout true;
  rate_limiter = new_limiter 50 100;
  cb = new_circuit_breaker (breaker_settings "webhook-client");
}

-- A body that does not decode is answered by an empty response.
abbrev pub decode_or_empty : {W : Type 0} → HttpDriver W → Bytes → WebhookResponse
decode_or_empty driver body = elim (driver.unmarshal_response body) [
  | ok r ↦ r
  | err _ ↦ record { message = ""; message_id = "" }
]

module _ {W : Type 0} (c : HttpWebhookClient W) where
  open c use {base_url, driver, rate_limiter, cb}

  -- From the response on.
  unfoldable pub read_response : HttpResponse → Exec W (Result WebhookResponse)
  read_response resp = defer (driver.close_body resp.body) (
      if leb 400 resp.status_code
      then pure (err (error_number "webhook returned error status" resp.status_code))
      else try (driver.read_all resp.body)
          (λ e. pure (err (errorf "failed to read response body" e)))
          (λ bytes. pure (ok (decode_or_empty driver bytes))))

  -- The closure that `SendMessage` hands to the breaker.
  unfoldable pub post : String → String → Exec W (Result WebhookResponse)
  post content to = elim (driver.marshal_content to content) [
    | err e ↦ pure (err (errorf "failed to marshal content" e))
    | ok body ↦ elim (driver.new_request (request_of base_url body)) [
      | err e ↦ pure (err (errorf "failed to create request" e))
      | ok req ↦
          try (driver.send_request req) (λ e. pure (err (errorf "webhook request failed" e)))
            read_response
    ]
  ]

  -- The closure gives no nil response, so the assertion on its type holds.
  unfoldable pub send_message : String → String → Exec W (Result (Option WebhookResponse))
  send_message content to =
      try_err rate_limiter.wait (λ e. pure (err (errorf "rate limit exceeded" e)))
        (try (cb.execute (post content to)) (λ e. pure (err (errorf "circuit breaker error" e)))
          (λ r. pure (ok (some r))))

  abbrev pub as_port : Ports.WebhookClient W
  as_port = record { send_message = send_message }
