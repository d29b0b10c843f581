-- ===== src/Errors/Fallible.antt =====
-- Steps that may raise and touch no state, for `do` blocks over `Result`.
use llmops_gateway.Prelude.{Option, none, some}
use llmops_gateway.Errors.{Exn, Result, ok, err, Exec}

infixl 5 ◌>>=◌ ◌>>◌
abbrev pub ◌>>=◌ : {A B : Type 0} → Result A → (A → Result B) → Result B
ok a >>= f = f a
err e >>= f = err e

abbrev pub ◌>>◌ : {A B : Type 0} → Result A → Result B → Result B
m >> k = m >>= λ _. k

-- Such a step as a call that leaves the world alone.
abbrev pub lift : {W A : Type 0} → Result A → Exec W A
lift r w = (r, w)

-- A value that is needed, or the exception.
abbrev pub required : {A : Type 0} → Exn → Option A → Result A
required e none = err e
required e (some a) = ok a
