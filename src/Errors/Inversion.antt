-- ===== src/Errors/Inversion.antt =====
-- What a successful call says of its parts.
use llmops_gateway.Prelude.{◌≡◌, refl, ap, Option, none, some}
use llmops_gateway.Errors.{Exn, Result, ok, err, Exec, ◌>>=◌, or_default}

module _ {W A B : Type 0} where
  bind_parts :
      (r : Result A) (v : W) (f : A → Exec W B) {b : B} {w' : W}
      → elim r [ ok a ↦ f a v | err e ↦ (err e, v) ] ≡ (ok b, w')
      → (a : A) × (r ≡ ok a) × (f a v ≡ (ok b, w'))
  bind_parts (ok a) v f h = (a, refl, h)
  bind_parts (err e) v f h = cc

  -- A bind that returned ran its first part to a value, and then the rest.
  pub >>=-eq-ok :
      (m : Exec W A) (f : A → Exec W B) (w : W) {b : B} {w' : W}
      → (m >>= f) w ≡ (ok b, w')
      → (a : A) × (v : W) × (m w ≡ (ok a, v)) × (f a v ≡ (ok b, w'))
  >>=-eq-ok m f w h =
      let (a, e, k) = bind_parts (m w).0 (m w).1 f h in
      (a, (m w).1, ap (λ (r : Result A). (r, (m w).1)) e, k)

module _ {W A : Type 0} where
  default_parts :
      (r : Result (Option A)) (v : W) {a : A} {w' : W}
      → ◌≡◌ {A = Result (Option A) × W}
          (elim r [ ok o ↦ (ok o, v) | err e ↦ (ok none, v) ])
          (ok (some a), w')
      → ◌≡◌ {A = Result (Option A) × W} (r, v) (ok (some a), w')
  default_parts (ok o) v h = h
  default_parts (err e) v h = cc

  -- A value that is not the default came from the call.
  pub or_default-eq-some :
      (m : Exec W (Option A)) (w : W) {a : A} {w' : W}
      → or_default m none w ≡ (ok (some a), w')
      → m w ≡ (ok (some a), w')
  or_default-eq-some m w h = default_parts (m w).0 (m w).1 h

-- A call that returns hands its value and world to what follows.
pub bind_run :
    {W A B : Type 0} (m : Exec W A) (k : A → Exec W B) (w : W) {a : A} {w' : W}
    → m w ≡ (ok a, w')
    → (m >>= k) w ≡ k a w'
bind_run {W} {A} {B} m k w h =
    ap
      (λ (x : Result A × W). elim x.0 as (λ r. Result B × W) [
        | ok a ↦ k a x.1
        | err e ↦ (err e, x.1)
      ])
      h

-- An exception skips what follows.
pub bind_err :
    {W A B : Type 0} (m : Exec W A) (k : A → Exec W B) (w : W) {e : Exn} {w' : W}
    → m w ≡ (err e, w')
    → (m >>= k) w ≡ (err e, w')
bind_err {W} {A} {B} m k w h =
    ap
      (λ (x : Result A × W). elim x.0 as (λ r. Result B × W) [
        | ok a ↦ k a x.1
        | err e ↦ (err e, x.1)
      ])
      h
