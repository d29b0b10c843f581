-- ===== src/Tests/Traces.antt =====
-- The tables of traces as a world, and the payloads of the jobs with times in unary.
use package.text.Mathlib.TextLemmas.{cons≢nil}
use Prim.Native.String.{String as Text}
use llmops_gateway.Prelude.{
  ℕ, zero, suc, ◌≡◌, refl, ap, String, false, Option, none, some, List, [], ◌∷◌, is_empty,
  Bool-cases, inl, inr, eq_iff,
}
use llmops_gateway.Prelude.Int.{pos}
use llmops_gateway.Errors.{Exn, other, ok, err, Exec}
use llmops_gateway.Json.{Fields, int, text, obj, end, field, fields}
use llmops_gateway.Tracing.{TraceSpan}
use llmops_gateway.Traces.{TraceStore, TraceTables, Trace, get_by_trace_id, write, persist}
use llmops_gateway.Traces.Persisted.{StoreLaws, written, Persisted}
use llmops_gateway.Traces.Races.{write_twice}
use llmops_gateway.Workers.Payloads.{Codec, CodecLaws, text_values}
use llmops_gateway.Tests.Providers.{hello, greeting}

abbrev pub empty : TraceTables
empty = record { requests = []; request_spans = []; token_usage = [] }

-- A database whose world is its tables; `refusal` is what it says to a row of usage.
abbrev store : Option Exn → TraceStore TraceTables
store refusal = record {
  tables = λ w. w;
  set_tables = λ t w. t;
  outage = λ w. none;
  refuses_request = λ row w. none;
  refuses_spans = λ rows w. none;
  refuses_usage = λ row w. refusal;
  parse_uuid = λ s. some s;
  new_id = λ w. ("id", w);
}

store-laws : (refusal : Option Exn) → StoreLaws (store refusal)
store-laws refusal = record { tables_tables = λ t w. refl; tables_id = λ w. refl }

abbrev lookup_span : TraceSpan
lookup_span = record {
  trace_id = "t1";
  span_id = "t1:cache_lookup:0";
  span_name = "cache_lookup";
  parent_span_id = none;
  started_at = 5;
  ended_at = some 9;
  metadata = ("cache_status", "MISS") ∷ [];
}

abbrev pub trace : Trace
trace = record {
  trace_id = "t1";
  tenant_id = "tenant";
  api_key_id = some "key";
  http_status = 200;
  request = hello;
  response = greeting;
  spans = lookup_span ∷ [];
}

abbrev after_one : TraceTables
after_one = written "id" "tenant" (some "key") trace empty

absent : get_by_trace_id "t1" empty ≡ ok none
unfolding get_by_trace_id
absent = refl

wrote :
    (w : TraceTables)
    → write (store none) "tenant" trace w ≡ (ok tt, written "id" "tenant" (some "key") trace w)
unfolding write
wrote w = refl

write_twice_example :
    (get_by_trace_id "t1" (written "id" "tenant" (some "key") trace after_one)
      ≡ err (other "MultipleResultsFound"))
    × ((persist (store none) trace (written "id" "tenant" (some "key") trace after_one)).0
        ≡ err (other "MultipleResultsFound"))
write_twice_example =
    write_twice (store none) (store-laws none) trace trace "tenant" "tenant" empty after_one
      (written "id" "tenant" (some "key") trace after_one) refl absent (wrote empty)
      (wrote after_one) refl refl

-- An exporter that raises, and one that does nothing.
abbrev exporters : List (List TraceSpan → Exec TraceTables (Unit {0}))
exporters = (λ spans w. (err (other "down"), w)) ∷ (λ spans w. (ok tt, w)) ∷ []

abbrev unary : ℕ → String
unary zero = "0"
unary (suc n) = Text.◌∷◌ "x" (unary n)

abbrev count_ones : String → ℕ
count_ones Text.[] = 0
count_ones (Text.◌∷◌ c Text.[]) = 0
count_ones (Text.◌∷◌ c (Text.◌∷◌ d s)) = suc (count_ones (Text.◌∷◌ d s))

abbrev texts_in : Fields → List (String × String)
texts_in end = []
texts_in (field k (text v) rest) = (k, v) ∷ texts_in rest
texts_in (field k v rest) = texts_in rest

abbrev pub codec : Codec
codec = record {
  isoformat = unary;
  fromisoformat = λ v. elim v [ text s ↦ ok (count_ones s) | _ ↦ err (other "TypeError") ];
  as_text = λ v. elim v [ text s ↦ s | _ ↦ "" ];
  as_number = λ v. elim v [ int n ↦ elim n [ pos m ↦ m | _ ↦ 0 ] | _ ↦ 0 ];
  as_metadata = λ v. elim v [ obj fs ↦ texts_in fs | _ ↦ [] ];
  dump_request = λ r. obj end;
  validate_request = λ v. ok hello;
  dump_response = λ r. obj end;
  validate_response = λ v. ok greeting;
}

count-unary : (n : ℕ) → count_ones (unary n) ≡ n
count-unary zero = refl
count-unary (suc zero) = refl
count-unary (suc (suc n)) = ap suc (count-unary (suc n))

unary_not_empty : (n : ℕ) → is_empty (unary n) ≡ false
unary_not_empty zero = refl
unary_not_empty (suc n) = elim (Bool-cases (is_empty (unary (suc n)))) [
  | inl e ↦ elim (cons≢nil ((eq_iff (unary (suc n)) "").0 e)) [ ]
  | inr e ↦ e
]

texts-in : (m : List (String × String)) → texts_in (fields (text_values m)) ≡ m
texts-in [] = refl
texts-in ((k, v) ∷ m) = ap (λ rest. (k, v) ∷ rest) (texts-in m)

pub codec-laws : CodecLaws codec
codec-laws = record {
  time = λ t. ap (λ n. ok n) (count-unary t);
  time_not_empty = unary_not_empty;
  text_lem = λ s. refl;
  number = λ n. refl;
  metadata = texts-in;
}
