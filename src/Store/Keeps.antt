-- ===== src/Store/Keeps.antt =====
-- Actions that only make allowed changes to the world, and how they are put together.
use reliable_messaging_syste.Prelude.{
  Option, none, some, List, [], ◌∷◌, Bool, true, false, if◌then◌else◌, All,
}
use reliable_messaging_syste.Effects.{
  Error, Result, ok, err, Exec, Err, Outcome, returns, panics, pure, defer, ◌>>=◌, ◌>>◌, try,
  try_err, deref, for_each,
}
use reliable_messaging_syste.Store.Evolution.{Docs, Evolves, Evolves-refl, Evolves-trans}

-- The allowed changes: none, and one after the other.
pub record Preorder {W : Type 0} (R : W → W → Type 0) : Type 0 where
  pub refl : (w : W) → R w w
  pub trans : (u v w : W) → R u v → R v w → R u w

-- The stored messages evolve.
abbrev pub evolution : {W : Type 0} (docs : W → Docs) → Preorder (λ v w. Evolves (docs v) (docs w))
evolution docs = record {
  refl = λ w. Evolves-refl (docs w);
  trans = λ u v w. Evolves-trans (docs u) (docs v) (docs w);
}

module _ {W : Type 0} {R : W → W → Type 0} (o : Preorder R) where
  pub record Keeps {A : Type 0} (m : Exec W A) : Type 0 where
    pub keeps : (w : W) → R w (m w).1

  pub pure-Keeps : {A : Type 0} (a : A) → Keeps (pure a)
  pure-Keeps a = record { keeps = λ w. o.refl w }

  after :
      {A B : Type 0} (f : A → Exec W B) (v w : W) (r : Outcome A)
      → ((a : A) → Keeps (f a))
      → R v w
      → R v (elim r as (λ _. Outcome B × W) [ returns a ↦ f a w | panics ↦ (panics, w) ]).1
  after f v w (returns a) k h = o.trans v w (f a w).1 h ((k a).keeps w)
  after f v w panics k h = h

  pub bind-Keeps :
      {A B : Type 0} (m : Exec W A) (f : A → Exec W B)
      → Keeps m
      → ((a : A) → Keeps (f a))
      → Keeps (m >>= f)
  bind-Keeps m f h k = record { keeps = λ w. after f w (m w).1 (m w).0 k (h.keeps w) }

  pub then-Keeps : {A B : Type 0} {m : Exec W A} {k : Exec W B} → Keeps m → Keeps k → Keeps (m >> k)
  then-Keeps {m = m} {k = k} h h' = bind-Keeps m (λ _. k) h (λ _. h')

  pub defer-Keeps :
      {A B : Type 0} {k : Exec W B} {m : Exec W A} → Keeps k → Keeps m → Keeps (defer k m)
  defer-Keeps {k = k} {m = m} hk h = record {
    keeps = λ w. o.trans w (m w).1 (k (m w).1).1 (h.keeps w) (hk.keeps (m w).1);
  }

  pub try-Keeps :
      {A B : Type 0} {m : Exec W (Result A)} {failed : Error → Exec W B} {k : A → Exec W B}
      → Keeps m
      → ((e : Error) → Keeps (failed e))
      → ((a : A) → Keeps (k a))
      → Keeps (try m failed k)
  try-Keeps {A} {B} {m} {failed} {k} h hf hk = bind-Keeps m branch h branch-Keeps
    where
      branch : Result A → Exec W B
      branch (ok a) = k a
      branch (err e) = failed e

      branch-Keeps : (r : Result A) → Keeps (branch r)
      branch-Keeps (ok a) = hk a
      branch-Keeps (err e) = hf e

  pub try_err-Keeps :
      {B : Type 0} {m : Exec W Err} {failed : Error → Exec W B} {k : Exec W B}
      → Keeps m
      → ((e : Error) → Keeps (failed e))
      → Keeps k
      → Keeps (try_err m failed k)
  try_err-Keeps {B} {m} {failed} {k} h hf hk = bind-Keeps m branch h branch-Keeps
    where
      branch : Err → Exec W B
      branch none = k
      branch (some e) = failed e

      branch-Keeps : (r : Err) → Keeps (branch r)
      branch-Keeps none = hk
      branch-Keeps (some e) = hf e

  pub deref-Keeps :
      {A B : Type 0} (o : Option A) {k : A → Exec W B} → ((a : A) → Keeps (k a)) → Keeps (deref o k)
  deref-Keeps none h = record { keeps = λ w. o.refl w }
  deref-Keeps (some a) h = h a

  pub if-Keeps :
      {B : Type 0} (b : Bool) {x y : Exec W B} → Keeps x → Keeps y → Keeps (if b then x else y)
  if-Keeps true h k = h
  if-Keeps false h k = k

  pub for_each-Keeps :
      {A : Type 0} (xs : List A) (body : A → Exec W Err)
      → All (λ x. Keeps (body x)) xs
      → Keeps (for_each xs body)
  unfolding for_each
  for_each-Keeps [] body h = pure-Keeps tt
  for_each-Keeps (x ∷ xs) body h = then-Keeps h.0 (for_each-Keeps xs body h.1)
