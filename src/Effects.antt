-- ===== src/Effects.antt =====
-- How Go's control flow is written: errors are values, a function acts on a world `W` that it
-- passes on, and a nil dereference ends the run. `W` is what the services cannot see inside: the
-- databases, the broker, the network and the clock. Log lines are left out.
use reliable_messaging_syste.Prelude.{
  ℕ, String, ◌≡◌, refl, ◌⊎◌, inl, inr, Option, none, some, List, [], ◌∷◌, arith,
}

-- An `error` that is not nil: one of a library, told apart by a number, one of the two sentinels
-- that the code compares with, `fmt.Errorf("<text>: %v", err)`, or `fmt.Errorf("<text>")`.
pub data Error : Type 0 where
  external : ℕ → Error
  no_documents redis_nil : Error
  errorf : String → Error → Error
  error_text : String → Error
  error_number : String → ℕ → Error

-- What a function of type `(A, error)` returns.
pub data Result {ℓ} (A : Type ℓ) : Type ℓ where
  ok : A → Result A
  err : Error → Result A

-- How a call ends.
pub data Outcome {ℓ} (A : Type ℓ) : Type ℓ where
  returns : A → Outcome A
  panics : Outcome A

abbrev pub Exec : Type 0 → Type 0 → Type 0
Exec W A = W → Outcome A × W

-- An `error` result: `none` is nil.
abbrev pub Err : Type 0
Err = Option Error

module _ {W : Type 0} where
  abbrev pub pure : {A : Type 0} → A → Exec W A
  pure a w = (returns a, w)

  abbrev pub panic : {A : Type 0} → Exec W A
  panic w = (panics, w)

  infixl 5 ◌>>=◌
  infixr 5 ◌>>◌
  abbrev pub ◌>>=◌ : {A B : Type 0} → Exec W A → (A → Exec W B) → Exec W B
  ◌>>=◌ m f w = let (r, w') = m w in elim r [ returns a ↦ f a w' | panics ↦ (panics, w') ]

  -- The result of the first call is not read, as after a logged error.
  abbrev pub ◌>>◌ : {A B : Type 0} → Exec W A → Exec W B → Exec W B
  m >> k = m >>= λ _. k

  -- `a, err := m; if err != nil { failed(err) }`, and `k a` otherwise.
  abbrev pub try :
      {A B : Type 0} → Exec W (Result A) → (Error → Exec W B) → (A → Exec W B) → Exec W B
  try m failed k = m >>= λ r. elim r [ ok a ↦ k a | err e ↦ failed e ]

  -- `if err := m; err != nil { failed(err) }`, and `k` otherwise.
  abbrev pub try_err : {B : Type 0} → Exec W Err → (Error → Exec W B) → Exec W B → Exec W B
  try_err m failed k = m >>= λ r. elim r [ none ↦ k | some e ↦ failed e ]

  -- `defer k()` before `m`: it runs also if `m` panics, and its result is not read.
  abbrev pub defer : {A B : Type 0} → Exec W B → Exec W A → Exec W A
  defer k m w =
      let (r, v) = m w in let (x, w') = k v in (elim x [ returns _ ↦ r | panics ↦ panics ], w')

  -- The use of a pointer, which panics at nil.
  abbrev pub deref : {A B : Type 0} → Option A → (A → Exec W B) → Exec W B
  deref none k = panic
  deref (some a) k = k a

  -- `return err`
  abbrev pub fail : Error → Exec W Err
  fail e = pure (some e)

  -- `return nil`
  abbrev pub nil : Exec W Err
  nil = pure none

  -- A `for … range` whose body logs its error and goes on.
  unfoldable pub for_each : {A : Type 0} → List A → (A → Exec W Err) → Exec W (Unit {0})
  for_each [] body = pure tt
  for_each (a ∷ as') body = body a >> for_each as' body

pub Result-cases {ℓ} :
    {A : Type ℓ} (r : Result A) → ((a : A) × (r ≡ ok a)) ⊎ ((e : Error) × (r ≡ err e))
Result-cases (ok a) = inl (a, refl)
Result-cases (err e) = inr (e, refl)

pub for_each_inv {ℓ} :
    {W A : Type 0} (P : W → Type ℓ) (body : A → Exec W Err)
    → ((a : A) (w : W) → P w → P (body a w).1)
    → (xs : List A) (w : W) → P w
    → P (for_each xs body w).1
unfolding for_each
for_each_inv P body keep [] w h = h
for_each_inv P body keep (x ∷ xs) w h =
    ground (arith, keep x w h, for_each_inv P body keep xs (body x w).1)

pub Outcome-cases {ℓ} : {A : Type ℓ} (r : Outcome A) → ((a : A) × (r ≡ returns a)) ⊎ (r ≡ panics)
Outcome-cases (returns a) = inl (a, refl)
Outcome-cases panics = inr refl
