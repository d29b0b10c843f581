-- ===== src/Middleware/Access.antt =====
-- middleware/auth.py, middleware/rate_limit.py and middleware/request_context.py, and the order in
-- which main.py runs them. `call_next` is what the request goes on to.
use Prim.Native.String.{◌++◌}
use llmops_gateway.Prelude.{
  ℕ, String, Bool, true, false, Option, none, some, or_else, truthy, List, [], ◌∷◌, ◌==◌, string_eq,
  if◌then◌else◌,
}
use llmops_gateway.Prelude.Int.{ℤ}
use llmops_gateway.Errors.{
  Exn, authentication, authorization, insufficient_scope, rate_limit_exceeded, ok, err, Exec, ◌>>=◌,
  ◌>>◌, pure, raise,
}
use llmops_gateway.Auth
use llmops_gateway.Auth.{AuthenticatedPrincipal, Backend}
use llmops_gateway.RateLimit.{BucketStore, Config, check_and_increment, token}
use llmops_gateway.Middleware.Scopes.{
  is_exempt_path, required_scopes_for_request, principal_has_any_scope,
}
use llmops_gateway.Middleware.Responses.{Response, to_error_response}

-- The parts of a request that the middleware reads, and `request.state`.
pub record Request : Type 0 where
  pub path : String
  pub method : String
  pub api_key : Option String
  pub trace_id_header : Option String
  pub trace_id : Option String
  pub auth : Option AuthenticatedPrincipal
  pub tenant_id : Option String
  pub api_key_id : Option String
  pub scopes : Option (List String)

abbrev pub default_tenant_id : String
default_tenant_id = "00000000-0000-0000-0000-000000000001"

-- The settings that the middleware reads.
pub record AccessSettings : Type 0 where
  pub auth_require_api_key : Bool
  pub api_key_header_name : String
  pub upper : String → String

abbrev pub anonymous : AuthenticatedPrincipal
anonymous = record {
  tenant_id = default_tenant_id;
  api_key_id = "";
  tenant_status = "active";
  scopes = "*" ∷ [];
  rate_limit_per_minute = none;
}

unfoldable pub attach_principal : AuthenticatedPrincipal → Request → Request
attach_principal p r = record r {
  auth = some p;
  tenant_id = some p.tenant_id;
  api_key_id = some p.api_key_id;
  scopes = some p.scopes;
}

unfoldable pub attach_anonymous_principal : Request → Request
attach_anonymous_principal r = record r {
  auth = some anonymous;
  tenant_id = some anonymous.tenant_id;
  api_key_id = none;
  scopes = some anonymous.scopes;
}

-- `next(iter(required))`
abbrev pub first_scope : List String → String
first_scope [] = ""
first_scope (scope ∷ scopes) = scope

module _ {W : Type 0} (settings : AccessSettings) (s : Backend W) where
  -- The checks on a principal that the key stands for.
  unfoldable pub authorize : Request → Option AuthenticatedPrincipal → Exec W Request
  authorize r none = raise (authentication "Invalid API key")
  authorize r (some p) =
      if p.tenant_status == "active"
      then elim (required_scopes_for_request settings.upper r.path r.method) [
        | none ↦ pure (attach_principal p r)
        | some required ↦
            if principal_has_any_scope p.scopes required
            then pure (attach_principal p r)
            else raise (insufficient_scope (first_scope required))
      ]
      else raise (authorization "Tenant is not active")

  -- The request as it goes on, or the exception: `_auth_middleware_impl` up to `call_next`.
  unfoldable pub admit : Request → Exec W Request
  unfolding authorize attach_principal attach_anonymous_principal
  admit r =
      if is_exempt_path r.path
      then pure r
      else if settings.auth_require_api_key
      then elim r.api_key [
        | none ↦ raise (authentication ("Missing " ++ (settings.api_key_header_name ++ " header")))
        | some raw_key ↦
            if truthy (some raw_key)
            then (do found ← Auth.authenticate s raw_key; authorize r found)
            else raise (authentication ("Missing " ++ (settings.api_key_header_name ++ " header")))
      ]
      else pure (attach_anonymous_principal r)

-- `except (AuthenticationError, AuthorizationError, InsufficientScopeError)`
abbrev pub is_auth_error : Exn → Bool
is_auth_error (authentication m) = true
is_auth_error (authorization m) = true
is_auth_error (insufficient_scope m) = true
is_auth_error e = false

abbrev pub is_rate_error : Exn → Bool
is_rate_error (rate_limit_exceeded after) = true
is_rate_error e = false

-- `getattr(request.state, "tenant_id", None) or DEFAULT_TENANT_ID`
abbrev pub limited_tenant : Request → String
limited_tenant r = if truthy r.tenant_id then or_else r.tenant_id "" else default_tenant_id

abbrev pub limit_override : Option AuthenticatedPrincipal → Option ℤ
limit_override none = none
limit_override (some p) = p.rate_limit_per_minute

module _ {W : Type 0} where
  -- The handler of a dispatch function: exceptions that `caught` accepts become responses.
  unfoldable pub respond : (Exn → Bool) → Option String → Exec W Response → Exec W Response
  respond caught trace_id m w =
      let (r, w') = m w in
      elim r [
        | ok response ↦ (ok response, w')
        | err e ↦
            if caught e
            then elim (to_error_response trace_id e) [
              | some response ↦ (ok response, w')
              | none ↦ (err e, w')
            ]
            else (err e, w')
      ]

  unfoldable pub auth_middleware_dispatch :
      AccessSettings → Backend W → Request → (Request → Exec W Response) → Exec W Response
  unfolding admit respond
  auth_middleware_dispatch settings s r call_next =
      respond is_auth_error r.trace_id (admit settings s r >>= call_next)

  unfoldable pub rate_limit_middleware_dispatch :
      BucketStore W → Config → (W → ℕ) → Request → (Request → Exec W Response) → Exec W Response
  unfolding respond
  rate_limit_middleware_dispatch redis config now_ms r call_next =
      respond is_rate_error r.trace_id (
        if is_exempt_path r.path then call_next r else (do
          now ← (λ w. (ok (now_ms w), w))
          check_and_increment redis config now (limited_tenant r) (limit_override r.auth) token
          call_next r))

  -- `fresh` is `str(uuid.uuid4())`.
  unfoldable pub request_context_middleware_dispatch :
      String → Request → (Request → Exec W Response) → Exec W Response
  request_context_middleware_dispatch fresh r call_next =
      let trace_id = if truthy r.trace_id_header then or_else r.trace_id_header "" else fresh in
      (do
        response ← call_next (record r { trace_id = some trace_id })
        pure (record response { trace_header = some trace_id }))

  -- The stack of main.py: the last middleware registered runs first.
  unfoldable pub app :
      AccessSettings
      → Backend W
      → BucketStore W
      → Config
      → (W → ℕ)
      → String
      → (Request → Exec W Response)
      → Request
      → Exec W Response
  unfolding request_context_middleware_dispatch auth_middleware_dispatch
      rate_limit_middleware_dispatch
  app settings s redis config now_ms fresh handler r =
      request_context_middleware_dispatch fresh r λ r1.
        auth_middleware_dispatch settings s r1
          λ r2. rate_limit_middleware_dispatch redis config now_ms r2 handler
