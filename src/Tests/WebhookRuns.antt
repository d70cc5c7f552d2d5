-- ===== src/Tests/WebhookRuns.antt =====
-- The theorem on the bodies of responses, applied to a client whose world is the set of open bodies.
use reliable_messaging_syste.Prelude.{
  ℕ, ◌==◌, Bool, true, false, if◌then◌else◌, none, refl, [], ◌∷◌, arith, ==_iff,
}
use reliable_messaging_syste.Effects.{ok, returns}
use reliable_messaging_syste.Webhook.{
  HttpWebhookClient, HttpDriver, send_message, post, read_response,
}
use reliable_messaging_syste.Webhook.Bodies.{HttpLaws, IsOpen, send_message-IsOpen}
use reliable_messaging_syste.Tests.Stores.{closed_breaker, closed_breaker-BreakerLaws}

abbrev World : Type 0
World = ℕ → Bool

abbrev set_body : ℕ → Bool → World → World
set_body b x w h = if h == b then x else w h

abbrev driver : HttpDriver World
driver = record {
  marshal_content = λ to content. ok (7 ∷ []);
  new_request = λ req. ok req;
  send_request =
      λ req w. (returns (ok (record { status_code = 202; body = 1 })), set_body 1 true w);
  read_all = λ body w. (returns (ok (8 ∷ [])), w);
  close_body = λ body w. (returns none, set_body body false w);
  unmarshal_response = λ b. ok (record { message = "Accepted"; message_id = "w1" });
}

abbrev client : HttpWebhookClient World
client = record {
  base_url = "http://localhost:8080/webhook";
  driver = driver;
  rate_limiter = record {
    wait = λ w. (returns none, w);
    allow = λ w. (returns true, w);
    reserve = λ w. (returns 0, w);
  };
  cb = closed_breaker;
}

abbrev bodies_of : World → ℕ → Bool
bodies_of w = w

driver-HttpLaws : HttpLaws bodies_of driver
driver-HttpLaws = record {
  sent_lem = λ req w resp h e other. ground arith;
  unsent_lem = λ req w failed. absurd (failed (record { status_code = 202; body = 1 }) refl);
  read_lem = λ h. record { unchanged = λ w. refl };
  closed_lem = λ h w. ground (arith, (==_iff h h).1 refl);
  others_lem = λ h g w other. ground arith;
}

abbrev third_open : World
third_open h = h == 3

send_message-IsOpen_example : IsOpen bodies_of 3 third_open
unfolding send_message post read_response
send_message-IsOpen_example =
    send_message-IsOpen bodies_of client driver-HttpLaws (closed_breaker-BreakerLaws bodies_of)
      (record { unchanged = λ w. refl }) "hello" "+905321234567" 3 third_open refl
