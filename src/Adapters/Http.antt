-- ===== src/Adapters/Http.antt =====
-- What both provider adapters share: the calls of httpx, the exceptions they become, and reading
-- the `Retry-After` header. httpx, `float` and Pydantic's validation are parameters.
use llmops_gateway.Prelude.{ℕ, String, Option, none, some, ◌==◌, nat_eq, leb, List, if◌then◌else◌}
use llmops_gateway.Prelude.Int.{ℤ}
use llmops_gateway.Errors.{
  ProviderError, rate_limited, timeout, connection, response, Exn, provider, other, Result, ok, err,
  Exec,
}
use llmops_gateway.Json.{Json}

pub record HttpResponse : Type 0 where
  pub status_code : ℕ
  pub retry_after : Option String
  pub body : String

-- `httpx.TimeoutException`, `httpx.TransportError` and any other exception.
pub data HttpFailure : Type 0 where
  timed_out transport : HttpFailure
  raised : Exn → HttpFailure

pub data HttpOutcome : Type 0 where
  answered : HttpResponse → HttpOutcome
  failed : HttpFailure → HttpOutcome

-- A streamed response: its lines, and the failure that cut them off, if any.
pub record HttpLines : Type 0 where
  pub head : HttpResponse
  pub lines : List String
  pub cut_off : Option HttpFailure

pub data StreamOutcome : Type 0 where
  opened : HttpLines → StreamOutcome
  refused : HttpFailure → StreamOutcome

-- `parse_float` is `float(value)` in milliseconds, `none` for a `ValueError`; `loads` is `none` for
-- a `ValueError`; `as_count` and `as_text` are the validation of an `int` and of a `str` field, and
-- `as_chunk` is what the consumer of a stream makes of a value: a text is itself.
pub record Client (W : Type 0) : Type 0 where
  pub post : String → Json → W → HttpOutcome × W
  pub stream : String → Json → W → StreamOutcome × W
  pub loads : String → Option Json
  pub parse_float : String → Option ℤ
  pub as_count : Json → Option ℕ
  pub as_text : Json → Option String
  pub as_chunk : Json → String
  pub now : W → ℕ
  pub uuid : W → String × W

unfoldable pub failure : HttpFailure → Exn
failure timed_out = provider timeout
failure transport = provider connection
failure (raised e) = e

module _ {W : Type 0} (c : Client W) where
  abbrev pub retry_after_from_headers : Option String → Option ℤ
  retry_after_from_headers none = none
  retry_after_from_headers (some value) = c.parse_float value

  -- The exception that the status raises, if any.
  unfoldable pub status_error : HttpResponse → Option ProviderError
  status_error r =
      if r.status_code == 429
      then some (rate_limited (retry_after_from_headers r.retry_after))
      else if leb 400 r.status_code
      then some (response r.status_code)
      else none

  abbrev pub raising : Option ProviderError → Result (Unit {0})
  raising none = ok tt
  raising (some e) = err (provider e)

  unfoldable pub raise_for_status : HttpResponse → Result (Unit {0})
  raise_for_status r = raising (status_error r)

  abbrev pub outcome_of : HttpOutcome → Result HttpResponse
  outcome_of (answered r) = ok r
  outcome_of (failed f) = err (failure f)

  unfoldable pub post : String → Json → Exec W HttpResponse
  post path payload w = let (outcome, w') = c.post path payload w in (outcome_of outcome, w')

  -- `response.json()`: a `ValueError` becomes a `ProviderResponseError`.
  abbrev pub decoded : HttpResponse → Result Json
  decoded r = elim (c.loads r.body) [
    | none ↦ err (provider (response r.status_code))
    | some value ↦ ok value
  ]

  abbrev pub validated : {A : Type 0} → Option A → Result A
  validated none = err (other "ValidationError")
  validated (some a) = ok a

  -- A text or a count of a response, with its default where the key is missing.
  abbrev pub text_or : String → Option Json → Result String
  text_or d none = ok d
  text_or d (some v) = validated (c.as_text v)

  abbrev pub count_or_zero : Option Json → Result ℕ
  count_or_zero none = ok 0
  count_or_zero (some v) = validated (c.as_count v)
