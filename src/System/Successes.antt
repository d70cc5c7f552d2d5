-- ===== src/System/Successes.antt =====
-- Postconditions of the calls that report no error, and how they are put together.
use reliable_messaging_syste.Prelude.{
  ◌≡◌, Option, none, some, Bool, true, false, if◌then◌else◌, arith,
}
use reliable_messaging_syste.Effects.{
  Error, Result, ok, err, Exec, Err, Outcome, returns, panics, pure, ◌>>=◌, ◌>>◌, try, try_err,
  deref,
}

module _ {ℓ} {W : Type 0} (P : W → Type ℓ) where
  -- If the call returns nil, then `P` holds afterwards.
  pub record Succeeds (m : Exec W Err) : Type ℓ where
    pub holds : (w : W) → (m w).0 ≡ returns none → P (m w).1

  pub fail-Succeeds : (e : Error) → Succeeds (pure {A = Err} (some e))
  fail-Succeeds e = record { holds = λ w h. absurd (ground arith) }

  after :
      {A : Type 0} (f : A → Exec W Err) (w : W) (r : Outcome A)
      → ((a : A) → Succeeds (f a))
      → let (out, w') = elim r as (λ _. Outcome Err × W) [
        | returns a ↦ f a w
        | panics ↦ (panics, w)
      ] in
        out ≡ returns none → P w'
  after f w (returns a) k h = (k a).holds w h
  after f w panics k h = cc

  pub bind-Succeeds :
      {A : Type 0} (m : Exec W A) (f : A → Exec W Err)
      → ((a : A) → Succeeds (f a))
      → Succeeds (m >>= f)
  bind-Succeeds m f k = record { holds = λ w h. after f (m w).1 (m w).0 k h }

  pub then-Succeeds : {A : Type 0} (m : Exec W A) {k : Exec W Err} → Succeeds k → Succeeds (m >> k)
  then-Succeeds m {k = k} h = bind-Succeeds m (λ _. k) (λ _. h)

  pub try-Succeeds :
      {A : Type 0} (m : Exec W (Result A)) {failed : Error → Exec W Err} {k : A → Exec W Err}
      → ((e : Error) → Succeeds (failed e))
      → ((a : A) → Succeeds (k a))
      → Succeeds (try m failed k)
  try-Succeeds {A} m {failed} {k} hf hk = bind-Succeeds m branch branch-Succeeds
    where
      branch : Result A → Exec W Err
      branch (ok a) = k a
      branch (err e) = failed e

      branch-Succeeds : (r : Result A) → Succeeds (branch r)
      branch-Succeeds (ok a) = hk a
      branch-Succeeds (err e) = hf e

  pub try_err-Succeeds :
      (m : Exec W Err) {failed : Error → Exec W Err} {k : Exec W Err}
      → ((e : Error) → Succeeds (failed e))
      → Succeeds k
      → Succeeds (try_err m failed k)
  try_err-Succeeds m {failed} {k} hf hk = bind-Succeeds m branch branch-Succeeds
    where
      branch : Err → Exec W Err
      branch none = k
      branch (some e) = failed e

      branch-Succeeds : (r : Err) → Succeeds (branch r)
      branch-Succeeds none = hk
      branch-Succeeds (some e) = hf e

  pub deref-Succeeds :
      {A : Type 0} (o : Option A) {k : A → Exec W Err}
      → ((a : A) → Succeeds (k a))
      → Succeeds (deref o k)
  deref-Succeeds none h = record { holds = λ w e. absurd (ground arith) }
  deref-Succeeds (some a) h = h a

  pub if-Succeeds :
      (b : Bool) {x y : Exec W Err} → Succeeds x → Succeeds y → Succeeds (if b then x else y)
  if-Succeeds true h k = h
  if-Succeeds false h k = k
