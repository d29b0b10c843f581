-- ===== src/Middleware/Responses.antt =====
-- middleware/error_handling.py: exceptions to responses.
use Prim.Native.String.{◌++◌}
use llmops_gateway.Prelude.{ℕ, ◌+◌, ◌-◌, ◌*◌, ◌/◌, max, String, Option, none, some}
use llmops_gateway.Errors.{
  Fraction, Exn, provider, all_exhausted, value_error, authentication, authorization,
  insufficient_scope, rate_limit_exceeded, http, other,
}

-- A response, as far as the middleware makes it: `retry_after` is the header of that name, and
-- `trace_id` is in the content of an error and, once `traced`, in the header X-Trace-Id.
pub record Response : Type 0 where
  pub status_code : ℕ
  pub error : String
  pub trace_id : Option String
  pub message : Option String
  pub required_scope : Option String
  pub retry_after : Option ℕ
  pub trace_header : Option String

abbrev pub error_response : Option String → ℕ → String → Option String → Response
error_response trace_id status_code error message = record {
  status_code = status_code;
  error = error;
  trace_id = trace_id;
  message = message;
  required_scope = none;
  retry_after = none;
  trace_header = none;
}

-- `max(1, math.ceil(exc.retry_after_seconds))`
unfoldable pub retry_after_seconds : Fraction → ℕ
retry_after_seconds f = max 1 ((f.num + (f.den * 1000 - 1)) / (f.den * 1000))

-- `none` where the exception is none of these. `InsufficientScopeError` is tested before the
-- `AuthorizationError` that it extends.
unfoldable pub to_error_response : Option String → Exn → Option Response
unfolding retry_after_seconds
to_error_response t (authentication m) = some (error_response t 401 "unauthorized" (some m))
to_error_response t (insufficient_scope scope) =
    some (record (error_response t 403 "forbidden" (some ("Missing required scope: " ++ scope))) {
      required_scope = some scope;
    })
to_error_response t (authorization m) = some (error_response t 403 "forbidden" (some m))
to_error_response t (rate_limit_exceeded after) =
    some (record (error_response t 429 "rate_limit_exceeded" (some "Rate limit exceeded")) {
      retry_after = some (retry_after_seconds after);
    })
to_error_response t e = none

-- The handlers that `register_exception_handlers` registers for exceptions of the routes.
unfoldable pub handle_exception : Option String → Exn → Response
unfolding to_error_response
handle_exception t (provider e) =
    error_response t 502 "upstream_provider_error" (some "Upstream provider request failed")
handle_exception t (all_exhausted attempts) =
    error_response t 503 "service_unavailable" (some "All upstream providers are unavailable")
handle_exception t (value_error m) =
    error_response t 500 "internal_server_error" (some "An unexpected error occurred")
handle_exception t (other m) =
    error_response t 500 "internal_server_error" (some "An unexpected error occurred")
handle_exception t (http status_code) = error_response t status_code "http_error" none
handle_exception t e = elim (to_error_response t e) [
  | some r ↦ r
  | none ↦ error_response t 500 "internal_server_error" (some "An unexpected error occurred")
]
