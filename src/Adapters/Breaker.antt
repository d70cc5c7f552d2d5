-- ===== src/Adapters/Breaker.antt =====
-- The settings that each adapter gives its circuit breaker.
pub mod Contract
use reliable_messaging_syste.Prelude.{ℕ, ◌*◌, ◌&&◌, String, Bool, none, some, leb}
use reliable_messaging_syste.Effects.{Result, ok, err, errorf, Exec, Err, pure, try, try_err, ◌>>=◌}
use reliable_messaging_syste.Models.{second}
use reliable_messaging_syste.Adapters.Drivers.{Counts, Settings, CircuitBreaker}

-- `counts.Requests >= 3 && failureRatio >= 0.6`. The ratio of two `uint32` in `float64` reaches the
-- constant exactly if 5 * failures >= 3 * requests: division rounds to the nearest value, and no
-- other ratio of such numbers is close enough to 3/5 to be rounded to it. Without requests the
-- first test fails.
unfoldable pub ready_to_trip : Counts → Bool
ready_to_trip counts =
    leb 3 counts.requests && leb (3 * counts.requests) (5 * counts.total_failures)

unfoldable pub breaker_settings : String → Settings
unfolding ready_to_trip
breaker_settings name = record {
  name = name;
  max_requests = 3;
  interval = 10 * second;
  timeout = 30 * second;
  ready_to_trip = ready_to_trip;
}

module _ {W : Type 0} where
  -- A closure that returns `(nil, err)`.
  abbrev pub of_err : Exec W Err → Exec W (Result (Unit {0}))
  of_err m = try_err m (λ e. pure (err e)) (pure (ok tt))

  -- `cb.Execute(m)`, with its error wrapped.
  abbrev pub guarded : {A : Type 0} → CircuitBreaker W → Exec W (Result A) → Exec W (Result A)
  guarded cb m =
      try (cb.execute m) (λ e. pure (err (errorf "circuit breaker error" e))) (λ a. pure (ok a))

  abbrev pub guarded_err : CircuitBreaker W → Exec W Err → Exec W Err
  guarded_err cb m =
      try (cb.execute (of_err m)) (λ e. pure (some (errorf "circuit breaker error" e)))
        (λ _. pure none)
