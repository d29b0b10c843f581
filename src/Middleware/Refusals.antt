-- ===== src/Middleware/Refusals.antt =====
-- What a client is told whom middleware/auth.py or middleware/rate_limit.py refuses.
use native.Mathlib.Nat.{div-add-mod, mod-lt}
use llmops_gateway.Prelude.{
  ℕ, zero, suc, ◌%◌, ◌+◌, ◌-◌, ◌*◌, ◌/◌, ◌≤◌, ◌<◌, max, String, ◌≡◌, refl, true, Option, some, ◌⊎◌,
  inl, inr, arith,
}
use llmops_gateway.Errors.{
  Fraction, Exn, provider, all_exhausted, value_error, authentication, authorization,
  insufficient_scope, rate_limit_exceeded, http, other, ok, err, Exec,
}
use llmops_gateway.Auth.{Backend}
use llmops_gateway.Middleware.Responses.{Response, to_error_response, retry_after_seconds}
use llmops_gateway.Middleware.Access.{
  Request, AccessSettings, admit, is_auth_error, auth_middleware_dispatch,
}

-- A refusal's response: 401 or 403, with the trace id.
abbrev pub Refusal : Option String → Response → Type 0
Refusal trace_id response =
    ((response.status_code ≡ 401) ⊎ (response.status_code ≡ 403)) × (response.trace_id ≡ trace_id)

to_error_response-Refusal :
    (t : Option String) (e : Exn)
    → is_auth_error e ≡ true
    → (response : Response) × (to_error_response t e ≡ some response) × Refusal t response
unfolding to_error_response
to_error_response-Refusal t (authentication m) h = (_, refl, (inl refl, refl))
to_error_response-Refusal t (authorization m) h = (_, refl, (inr refl, refl))
to_error_response-Refusal t (insufficient_scope m) h = (_, refl, (inr refl, refl))
to_error_response-Refusal t (provider e) h = cc
to_error_response-Refusal t (all_exhausted m) h = cc
to_error_response-Refusal t (value_error m) h = cc
to_error_response-Refusal t (rate_limit_exceeded m) h = cc
to_error_response-Refusal t (http m) h = cc
to_error_response-Refusal t (other m) h = cc

-- Where the checks of the auth middleware raise one of its exceptions, the client gets a response
-- of status 401 or 403 with the trace id of the request, the world is the one that the checks
-- left, and what the request would have gone on to is not called.
pub auth_middleware_dispatch-Refusal :
    {W : Type 0} (settings : AccessSettings) (s : Backend W) (r : Request)
    (call_next : Request → Exec W Response) (w w' : W) (e : Exn)
    → admit settings s r w ≡ (err e, w')
    → is_auth_error e ≡ true
    → (response : Response) × Refusal r.trace_id response
      × (auth_middleware_dispatch settings s r call_next w ≡ (ok response, w'))
unfolding auth_middleware_dispatch
auth_middleware_dispatch-Refusal settings s r call_next w w' e h caught =
    let (response, made, refusal) = to_error_response-Refusal r.trace_id e caught in
    (response, refusal, ground (arith, h, caught, made))

ceiling_covers : (q d r num : ℕ) → d * q + r ≡ num + (d - 1) → r < d → num ≤ max 1 q * d
ceiling_covers zero d r num h k = omega arith
ceiling_covers (suc q) d r num h k = grind arith

-- The `Retry-After` of a response is at least a second and covers the wait that the bucket asked
-- for, where that is a fraction with a positive denominator.
pub retry_after_seconds_covers :
    (f : Fraction)
    → 0 < f.den
    → (1 ≤ retry_after_seconds f) × (f.num ≤ retry_after_seconds f * (f.den * 1000))
unfolding retry_after_seconds
retry_after_seconds_covers f h =
    let d : ℕ = f.den * 1000 in
    let n : ℕ = f.num + (d - 1) in
    (omega arith, ceiling_covers (n / d) d (n % d) f.num (div-add-mod n d) (mod-lt n (omega arith)))
