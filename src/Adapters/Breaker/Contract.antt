-- ===== src/Adapters/Breaker/Contract.antt =====
-- What the circuit breaker documents, stated on a view of the world that it has no part in: the
-- messages of the collection, or the keys of Redis.
use reliable_messaging_syste.Prelude.{◌≡◌, ◌⊎◌, refl, ap, inl}
use reliable_messaging_syste.Effects.{Error, Result, err, Exec, returns}
use reliable_messaging_syste.Adapters.Drivers.{CircuitBreaker}

module _ {W V : Type 0} (view : W → V) where
  -- A call that leaves the view alone.
  pub record Reads {A : Type 0} (m : Exec W A) : Type 0 where
    pub unchanged : (w : W) → view (m w).1 ≡ view w

  -- A breaker runs a request once and passes its result on, or rejects it with an error of its own.
  pub record BreakerLaws (cb : CircuitBreaker W) : Type 1 where
    pub execute_lem :
        {A : Type 0} (m : Exec W (Result A)) (w : W)
        → let (r, w') = cb.execute m w in
          ((v : W) × (view v ≡ view w) × (r ≡ (m v).0) × (view w' ≡ view (m v).1))
          ⊎ ((e : Error) × (r ≡ returns (err e)) × (view w' ≡ view w))

-- A closed breaker runs the request and passes its result on.
pub record IsClosed {W : Type 0} (cb : CircuitBreaker W) : Type 1 where
  pub execute_lem : {A : Type 0} (m : Exec W (Result A)) (w : W) → cb.execute m w ≡ m w

pub IsClosed-BreakerLaws :
    {W V : Type 0} (view : W → V) (cb : CircuitBreaker W) → IsClosed cb → BreakerLaws view cb
IsClosed-BreakerLaws view cb closed = record {
  execute_lem = λ m w. inl (
    w,
    refl,
    ap (λ x. x.0) (closed.execute_lem m w),
    ap (λ x. view x.1) (closed.execute_lem m w),
  );
}
