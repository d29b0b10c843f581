-- ===== src/Errors.antt =====
-- The exceptions of the program as one type of values, and methods that may raise: the exceptions
-- of providers/base.py, services/routing_service.py, services/rate_limit_service.py and
-- domain/exceptions/auth_errors.py, with `other` for an exception of a client library.
pub mod Inversion
pub mod Fallible
use llmops_gateway.Prelude.{ℕ, String, Bool, true, false, Option, none, List, leb}
use llmops_gateway.Prelude.Int.{ℤ}

-- `ProviderError` and its subclasses. `retry_after_seconds` is in milliseconds here.
pub data ProviderError : Type 0 where
  rate_limited : Option ℤ → ProviderError
  timeout connection : ProviderError
  response : ℕ → ProviderError
  unavailable : String → ProviderError

abbrev pub retryable : ProviderError → Bool
retryable (rate_limited after) = true
retryable timeout = true
retryable connection = true
retryable (response status_code) = leb 500 status_code
retryable (unavailable name) = false

-- `getattr(exc, "retry_after_seconds", None)`
abbrev pub retry_after : ProviderError → Option ℤ
retry_after (rate_limited after) = after
retry_after timeout = none
retry_after connection = none
retry_after (response status_code) = none
retry_after (unavailable name) = none

-- A duration of `num / den` milliseconds.
pub record Fraction : Type 0 where
  pub num : ℕ
  pub den : ℕ

pub data Exn : Type 0 where
  provider : ProviderError → Exn
  all_exhausted : List (String × ProviderError) → Exn
  value_error : String → Exn
  authentication authorization insufficient_scope : String → Exn
  rate_limit_exceeded : Fraction → Exn
  http : ℕ → Exn
  other : String → Exn

pub data Result {ℓ} (A : Type ℓ) : Type ℓ where
  ok : A → Result A
  err : Exn → Result A

-- A method call over the world `W`: what was written before a raise stays written.
abbrev pub Exec : Type 0 → Type 0 → Type 0
Exec W A = W → Result A × W

infixl 5 ◌>>=◌ ◌>>◌
abbrev pub ◌>>=◌ : {W A B : Type 0} → Exec W A → (A → Exec W B) → Exec W B
◌>>=◌ m f w = let (r, w') = m w in elim r [ ok a ↦ f a w' | err e ↦ (err e, w') ]

abbrev pub ◌>>◌ : {W A B : Type 0} → Exec W A → Exec W B → Exec W B
m >> k = m >>= λ _. k

module _ {W A : Type 0} where
  abbrev pub pure : A → Exec W A
  pure a w = (ok a, w)

  abbrev pub raise : Exn → Exec W A
  raise e w = (err e, w)

  abbrev pub gets : (W → A) → Exec W A
  gets f w = (ok (f w), w)

  -- `try: return m` with `except Exception: return d`.
  abbrev pub or_default : Exec W A → A → Exec W A
  or_default m d w = let (r, w') = m w in elim r [ ok a ↦ (ok a, w') | err e ↦ (ok d, w') ]

abbrev pub modify : {W : Type 0} → (W → W) → Exec W (Unit {0})
modify f w = (ok tt, f w)

abbrev pub is_ok : {A : Type 0} → Result A → Bool
is_ok (ok a) = true
is_ok (err e) = false
