-- ===== src/Tracing.antt =====
-- `TracingService.span` of services/tracing_service.py with domain/entities/trace_span.py. The
-- tracing object of a request lives in the world. Spans of one object follow one another, so a
-- span that stands in the list from its start is one that is added at its end.
use Prim.Native.String.{◌++◌}
use llmops_gateway.Prelude.{ℕ, String, Option, none, some, List, [], ◌∷◌, ◌++◌ as append, length}
use llmops_gateway.Errors.{Result, ok, err, Exec}

pub record TraceSpan : Type 0 where
  pub trace_id : String
  pub span_id : String
  pub span_name : String
  pub parent_span_id : Option String
  pub started_at : ℕ
  pub ended_at : Option ℕ
  pub metadata : List (String × String)

-- The spans of the object, the clock, and how Python prints a length.
pub record Tracer (W : Type 0) : Type 0 where
  pub spans : W → List TraceSpan
  pub set_spans : List TraceSpan → W → W
  pub clock : W → ℕ
  pub print_length : ℕ → String

abbrev pub annotated :
    {A : Type 0} → (A → List (String × String)) → Result A → List (String × String)
annotated metadata (ok a) = metadata a
annotated metadata (err e) = []

-- `with tracing.span(name) as span: m`, which ends the span on an exception too; `metadata` is what
-- the caller notes in it where `m` returns. No caller gives a parent.
unfoldable pub span :
    {W A : Type 0} → Tracer W → String → String → (A → List (String × String)) → Exec W A → Exec W A
span t trace_id name metadata m w =
    let earlier = t.spans w in
    let (r, w') = m w in
    let ended : TraceSpan = record {
      trace_id = trace_id;
      span_id = trace_id ++ (":" ++ (name ++ (":" ++ t.print_length (length earlier))));
      span_name = name;
      parent_span_id = none;
      started_at = t.clock w;
      ended_at = some (t.clock w');
      metadata = annotated metadata r;
    } in
    (r, t.set_spans (append earlier (ended ∷ [])) w')
