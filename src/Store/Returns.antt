-- ===== src/Store/Returns.antt =====
-- Actions that do not panic while a message stays stored, and how they are put together.
use reliable_messaging_syste.Prelude.{
  ◌≡◌, ◌≢◌, refl, Option, none, some, Bool, true, false, if◌then◌else◌, arith,
}
use reliable_messaging_syste.Effects.{
  Error, Result, ok, err, Exec, Err, Outcome, returns, panics, pure, ◌>>=◌, ◌>>◌, try, try_err,
}

module _ {W : Type 0} (P : W → Type 0) where
  -- While `P` holds the action returns, and `P` holds afterwards.
  pub record Returns {A : Type 0} (m : Exec W A) : Type 0 where
    pub ends : (w : W) → P w → ((m w).0 ≢ panics) × P (m w).1

  pub pure-Returns : {A : Type 0} (a : A) → Returns (pure a)
  pure-Returns a = record { ends = λ w h. (λ e. absurd (ground arith), h) }

  after :
      {A B : Type 0} (f : A → Exec W B) (w : W) (r : Outcome A)
      → ((a : A) → r ≡ returns a → Returns (f a))
      → r ≢ panics
      → P w
      → let (out, w') = elim r as (λ _. Outcome B × W) [
        | returns a ↦ f a w
        | panics ↦ (panics, w)
      ] in
        (out ≢ panics) × P w'
  after f w (returns a) k ended h = (k a refl).ends w h
  after f w panics k ended h = absurd (ended refl)

  pub bind-Returns :
      {A B : Type 0} (m : Exec W A) (f : A → Exec W B)
      → Returns m
      → ((a : A) → Returns (f a))
      → Returns (m >>= f)
  bind-Returns m f h k = record {
    ends = λ w p.
        let (ended, after_m) = h.ends w p in after f (m w).1 (m w).0 (λ a e. k a) ended after_m;
  }

  pub then-Returns :
      {A B : Type 0} {m : Exec W A} {k : Exec W B} → Returns m → Returns k → Returns (m >> k)
  then-Returns {m = m} {k = k} h h' = bind-Returns m (λ _. k) h (λ _. h')

  pub try-Returns :
      {A B : Type 0} {m : Exec W (Result A)} {failed : Error → Exec W B} {k : A → Exec W B}
      → Returns m
      → ((e : Error) → Returns (failed e))
      → ((a : A) → Returns (k a))
      → Returns (try m failed k)
  try-Returns {A} {B} {m} {failed} {k} h hf hk = bind-Returns m branch h branch-Returns
    where
      branch : Result A → Exec W B
      branch (ok a) = k a
      branch (err e) = failed e

      branch-Returns : (r : Result A) → Returns (branch r)
      branch-Returns (ok a) = hk a
      branch-Returns (err e) = hf e

  pub try_err-Returns :
      {B : Type 0} {m : Exec W Err} {failed : Error → Exec W B} {k : Exec W B}
      → Returns m
      → ((e : Error) → Returns (failed e))
      → Returns k
      → Returns (try_err m failed k)
  try_err-Returns {B} {m} {failed} {k} h hf hk = bind-Returns m branch h branch-Returns
    where
      branch : Err → Exec W B
      branch none = k
      branch (some e) = failed e

      branch-Returns : (r : Err) → Returns (branch r)
      branch-Returns none = hk
      branch-Returns (some e) = hf e

  pub if-Returns :
      {B : Type 0} (b : Bool) {x y : Exec W B}
      → Returns x
      → Returns y
      → Returns (if b then x else y)
  if-Returns true h k = h
  if-Returns false h k = k

  -- A read that gives no nil message while `P` holds.
  pub found-Returns :
      {A B : Type 0} {m : Exec W (Result (Option A))} {failed : Error → Exec W B}
      (k : Option A → Exec W B) (Found : A → Type 0)
      → Returns m
      → ((w : W) (o : Option A) → P w → (m w).0 ≡ returns (ok o) → (a : A) × (o ≡ some a) × Found a)
      → ((e : Error) → Returns (failed e))
      → ((a : A) → Found a → Returns (k (some a)))
      → Returns (try m failed k)
  found-Returns {A} {B} {m} {failed} k Found h found hf hk = record {
    ends = λ w p.
        let (ended, after_m) = h.ends w p in
        after branch (m w).1 (m w).0 (branch-Returns w p) ended after_m;
  }
    where
      branch : Result (Option A) → Exec W B
      branch (ok a) = k a
      branch (err e) = failed e

      branch-Returns :
          (w : W) → P w → (r : Result (Option A)) → (m w).0 ≡ returns r → Returns (branch r)
      branch-Returns w p (err e) _ = hf e
      branch-Returns w p (ok o) e = let (a, is_some, ok_a) = found w o p e in rw is_some (hk a ok_a)
