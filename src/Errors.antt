-- ===== src/Errors.antt =====
-- The exceptions that the services raise (backend/app/core/exceptions.py), and those of Python and
-- of the database that pass through them, with the chaining of calls that may raise.
use vyaparaflowai.Prelude.{ℕ, ◌≡◌, refl, ap, ◌⊎◌, inl, inr, Bool, true, false}

-- `key_error` is that of a missing key of a dictionary, `integrity_error` the database's refusal of
-- a row that violates a constraint, `data_error` that of a value that its column cannot hold.
pub data Error : Type 0 where
  not_found conflict validation : Error
  value_error assertion_error key_error integrity_error data_error : Error

pub data Result {κ} (Answer : Type κ) : Type κ where
  err : Error → Result Answer
  ok : Answer → Result Answer

-- `if test: raise problem`
abbrev pub raise_if : Bool → Error → Result (Unit {0})
raise_if false problem = ok tt
raise_if true problem = err problem

infixl 5 ◌>>◌
module _ {ℓ₁ ℓ₂} {A : Type ℓ₁} {B : Type ℓ₂} where
  infixl 5 ◌>>=◌
  -- The rest of the code, with the answer of the call.
  abbrev pub ◌>>=◌ : Result A → (A → Result B) → Result B
  err problem >>= rest = err problem
  ok answer >>= rest = rest answer

  -- What the call and the rest of the code gave, if nothing was raised.
  pub >>=-eq-ok :
      (call : Result A) (rest : A → Result B) {b : B}
      → (call >>= rest) ≡ ok b
      → (answer : A) × (call ≡ ok answer) × (rest answer ≡ ok b)
  >>=-eq-ok (err problem) rest raised = cc
  >>=-eq-ok (ok answer) rest gave = (answer, refl, gave)

abbrev pub ◌>>◌ {κ} : {B : Type κ} → Result (Unit {0}) → Result B → Result B
test >> rest = test >>= λ passed. rest

-- The status code of the answer (`AppError.status_code`); whatever is not an `AppError` is a 500.
pub status_code : Error → ℕ
status_code not_found = 404
status_code conflict = 409
status_code validation = 422
status_code _ = 500

pub Result-cases {ℓ} :
    {A : Type ℓ} (r : Result A) → ((a : A) × (r ≡ ok a)) ⊎ ((e : Error) × (r ≡ err e))
Result-cases (ok a) = inl (a, refl)
Result-cases (err e) = inr (e, refl)

pub ok-inj {ℓ} : {A : Type ℓ} {a b : A} → ok a ≡ ok b → a ≡ b
ok-inj h = cc

-- The exceptions of the services (`AppError`), which the caller gets as an answer of its own.
abbrev pub IsAppError : Error → Type 0
IsAppError not_found = Unit
IsAppError conflict = Unit
IsAppError validation = Unit
IsAppError _ = ⊥

-- An answer, or an exception of the services: nothing else is raised.
pub data IsHandled {ℓ} {A : Type ℓ} (call : Result A) : Type ℓ where
  answered : (answer : A) → call ≡ ok answer → IsHandled call
  refused : (problem : Error) → call ≡ err problem → IsAppError problem → IsHandled call

pub >>=-IsHandled {ℓ κ} :
    {A : Type ℓ} {B : Type κ} (call : Result A) (rest : A → Result B)
    → IsHandled call
    → ((answer : A) → call ≡ ok answer → IsHandled (rest answer))
    → IsHandled (call >>= rest)
>>=-IsHandled (ok answer) rest h later = later answer refl
>>=-IsHandled (err problem) rest (answered answer e) later = cc
>>=-IsHandled (err problem) rest (refused other e handled) later =
    let same : problem ≡ other = cc in refused other (ap (λ x. err x) same) handled

pub raise_if-IsHandled :
    (test : Bool) (problem : Error) → IsAppError problem → IsHandled (raise_if test problem)
raise_if-IsHandled false problem h = answered tt refl
raise_if-IsHandled true problem h = refused problem refl h

-- A test that was passed.
pub raise_if-passed : (test : Bool) (problem : Error) → raise_if test problem ≡ ok tt → test ≡ false
raise_if-passed false problem h = refl
raise_if-passed true problem h = cc
