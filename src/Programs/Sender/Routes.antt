-- ===== src/Programs/Sender/Routes.antt =====
-- The router of the sender: which requests reach a handler.
use reliable_messaging_syste.Prelude.{◌≡◌, ◌≢◌, ◌↔◌, inl, inr, Option-cases, false, none, arith}
use reliable_messaging_syste.Effects.{returns, Outcome-cases}
use reliable_messaging_syste.Sender.Service.{SenderService}
use reliable_messaging_syste.Api.Messages.{Binding}
use reliable_messaging_syste.Api.RateLimit.{rate_limit}
use reliable_messaging_syste.Webhook.{RateLimiter}
use reliable_messaging_syste.Programs.Sender.{
  Request, too_many_requests, Route, send_message, list_messages, start_scheduler, stop_scheduler,
  status, route_of, SenderLibraries, handle, router,
}

module _ {W : Type 0} (lib : SenderLibraries W) (s : SenderService W)
    (limiter : RateLimiter W) where
  handle-ne-too_many_requests :
      (body : Binding) (route : Route) (w : W)
      → (handle lib s body route w).0 ≢ returns too_many_requests
  unfolding handle
  handle-ne-too_many_requests body send_message w h = ground arith
  handle-ne-too_many_requests body list_messages w h = ground arith
  handle-ne-too_many_requests body start_scheduler w h = ground arith
  handle-ne-too_many_requests body stop_scheduler w h = ground arith
  handle-ne-too_many_requests body status w h = ground arith

  -- The router answers that there are too many requests exactly if the request is for a route of the
  -- API and the limiter does not allow it, and then the limiter is all that was called.
  pub router-too_many_requests :
      (r : Request) (w : W)
      → let (reply, w') = router lib s limiter r w in
        (reply ≡ returns too_many_requests)
        ↔ ((route_of r ≢ none) × ((limiter.allow w).0 ≡ returns false) × (w' ≡ (limiter.allow w).1))
  unfolding router rate_limit
  router-too_many_requests r w = (
    λ h. elim (Option-cases (route_of r)) [
      | inl none' ↦ absurd (ground (arith, none'))
      | inr (route, e) ↦ elim (Outcome-cases (limiter.allow w).0) [
        | inr p ↦ absurd (ground (arith, e, p))
        | inl (b, eb) ↦
            ground (arith, e, eb, handle-ne-too_many_requests r.body route (limiter.allow w).1)
      ]
    ],
    λ h. elim (Option-cases (route_of r)) [
      | inl none' ↦ absurd (h.0 none')
      | inr (route, e) ↦ ground (arith, e, h.1)
    ],
  )
