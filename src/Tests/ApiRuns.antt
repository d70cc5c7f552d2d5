-- ===== src/Tests/ApiRuns.antt =====
-- The theorems on the HTTP side and the configuration, applied to concrete requests.
use reliable_messaging_syste.Prelude.{◌≡◌, ◌↔◌, refl, none, some, List, [], ◌∷◌, true}
use reliable_messaging_syste.Effects.{ok, returns}
use reliable_messaging_syste.Api.Messages.{FieldError, error_map}
use reliable_messaging_syste.Api.Messages.Replies.{text_of, LastSays, error_map_complete}
use reliable_messaging_syste.Webhook
use reliable_messaging_syste.Webhook.Answers.{IsAnswered, send_message_ok}
use reliable_messaging_syste.Tests.Stores.{closed_breaker, closed_breaker-BreakerLaws}

abbrev World : Type 0
World = Unit {0}

abbrev field_errors : List FieldError
field_errors =
    record { field = "To"; tag = "e164" } ∷ record { field = "Content"; tag = "max" } ∷ []

error_map_complete_example :
    (text_of "To" (error_map field_errors [])
      ≡ some "Phone number must be in E.164 format (e.g., +90111111111)")
    ↔ LastSays "To" "Phone number must be in E.164 format (e.g., +90111111111)" field_errors
error_map_complete_example =
    error_map_complete "To" "Phone number must be in E.164 format (e.g., +90111111111)" field_errors

abbrev client : Webhook.HttpWebhookClient World
client = record {
  base_url = "http://localhost:8080/webhook";
  driver = record {
    marshal_content = λ to content. ok (7 ∷ []);
    new_request = λ req. ok req;
    send_request = λ req w. (returns (ok (record { status_code = 202; body = 1 })), w);
    read_all = λ body w. (returns (ok (8 ∷ [])), w);
    close_body = λ body w. (returns none, w);
    unmarshal_response = λ b. ok (record { message = "Accepted"; message_id = "w1" });
  };
  rate_limiter = record {
    wait = λ w. (returns none, w);
    allow = λ w. (returns true, w);
    reserve = λ w. (returns 0, w);
  };
  cb = closed_breaker;
}

send_message_ok_example :
    ((client.rate_limiter.wait tt).0 ≡ returns none)
    × ((v : World) × (v ≡ tt)
        × IsAnswered client "hello" "+905321234567" v
            (record { message = "Accepted"; message_id = "w1" }))
unfolding Webhook.send_message Webhook.post Webhook.read_response
send_message_ok_example =
    send_message_ok client (λ w. w) (closed_breaker-BreakerLaws (λ w. w)) "hello" "+905321234567" tt
      (record { message = "Accepted"; message_id = "w1" }) refl
