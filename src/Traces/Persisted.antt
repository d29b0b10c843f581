-- ===== src/Traces/Persisted.antt =====
-- What `TracePersistenceService.persist` writes, and when it writes nothing.
use llmops_gateway.Prelude.{
  String, ◌≡◌, refl, ap, sym, ◌∙◌, Option, none, some, List, [], ◌∷◌, ◌++◌, string_eq, truthy,
  or_else, Bool-cases, inl, inr, ◌⊎◌, if◌then◌else◌, subst,
}
use mathlib.Core.List.{append-nil}
use llmops_gateway.Errors.{Exn, Result, ok, err, Exec, ◌>>◌}
use llmops_gateway.Errors.Inversion.{>>=-eq-ok}
use llmops_gateway.Tracing.{TraceSpan}
use llmops_gateway.Traces.{
  TraceStore, TraceTables, Trace, RequestRow, one_or_none, get_by_trace_id, request_row, span_rows,
  usage_row, write, look_and_write, in_session, closed, opened, persist, persist_for, flushed,
  bulk_create, parsed, key_uuid, create_request, create_usage, draw_id, insert, insert_rows,
}

pub record StoreLaws {W : Type 0} (s : TraceStore W) : Type 0 where
  pub tables_tables : (t : TraceTables) (w : W) → s.tables (s.set_tables t w) ≡ t
  pub tables_id : (w : W) → s.tables (s.new_id w).1 ≡ s.tables w

pub none_empty : (rows : List RequestRow) → one_or_none rows ≡ ok none → rows ≡ []
none_empty [] h = refl
none_empty (row ∷ []) h = cc
none_empty (row ∷ next ∷ rows) h = cc

-- The tables with the rows of a trace.
abbrev pub written : String → String → Option String → Trace → TraceTables → TraceTables
written id tenant_uuid api_key_uuid t d = record {
  requests = d.requests ++ (request_row id tenant_uuid api_key_uuid t ∷ []);
  request_spans = d.request_spans ++ span_rows id t.spans;
  token_usage = d.token_usage ++ (usage_row id t.response.usage t.response.cost_usd ∷ []);
}

-- The id of the key as a UUID, where the trace has one.
abbrev pub key_of : {W : Type 0} → TraceStore W → Option String → Option String
key_of s api_key_id = if truthy api_key_id then s.parse_uuid (or_else api_key_id "") else none

-- What a call does to the tables: nothing, or the rows of a trace that was not there.
abbrev pub Persisted : {W : Type 0} → TraceStore W → Trace → TraceTables → TraceTables → Type 0
Persisted s t d d' =
    (d' ≡ d)
    ⊎ ((id : String) × (u : String) × (s.parse_uuid t.tenant_id ≡ some u)
        × (get_by_trace_id t.trace_id d ≡ ok none)
        × (d' ≡ written id u (key_of s t.api_key_id) t d))

module _ {W : Type 0} (s : TraceStore W) (laws : StoreLaws s) where
  closed_err :
      (w : W) (r : Result (Unit {0}) × W) {e : Exn} {w' : W}
      → closed s w r ≡ (err e, w')
      → s.tables w' ≡ s.tables w
  closed_err w (ok a, v) h = cc
  closed_err w (err x, v) h = ap (λ r. s.tables r.1) (sym h) ∙ laws.tables_tables (s.tables w) v

  opened_err :
      (o : Option Exn) (m : Exec W (Unit {0})) (w : W) {e : Exn} {w' : W}
      → opened s o m w ≡ (err e, w')
      → s.tables w' ≡ s.tables w
  opened_err (some x) m w h = ap (λ r. s.tables r.1) (sym h)
  opened_err none m w h = closed_err w (m w) h

  persist_for_err :
      (t : Trace) (tenant : Option String) (w : W) {e : Exn} {w' : W}
      → persist_for s t tenant w ≡ (err e, w')
      → s.tables w' ≡ s.tables w
  unfolding in_session
  persist_for_err t none w h = cc
  persist_for_err t (some u) w h = opened_err (s.outage w) (look_and_write s u t) w h

  -- A call of `persist` that raises leaves all three tables as they were.
  pub persist-err :
      (t : Trace) (w : W) {e : Exn} {w' : W}
      → persist s t w ≡ (err e, w')
      → s.tables w' ≡ s.tables w
  unfolding persist
  persist-err t w h = persist_for_err t (s.parse_uuid t.tenant_id) w h

  flushed_ok :
      (o : Option Exn) (change : TraceTables → TraceTables) (w : W) {a : Unit {0}} {w' : W}
      → flushed s o change w ≡ (ok a, w')
      → s.tables w' ≡ change (s.tables w)
  flushed_ok none change w h =
      ap (λ r. s.tables r.1) (sym h) ∙ laws.tables_tables (change (s.tables w)) w
  flushed_ok (some e) change w h = cc

  bulk_create_ok :
      (id : String) (spans : List TraceSpan) (w : W) {a : Unit {0}} {w' : W}
      → bulk_create s id spans w ≡ (ok a, w')
      → s.tables w'
        ≡ record (s.tables w) { request_spans = (s.tables w).request_spans ++ span_rows id spans }
  bulk_create_ok id [] w h = rw append-nil (ap (λ r. s.tables r.1) (sym h))
  bulk_create_ok id (span ∷ spans) w h =
      flushed_ok (s.refuses_spans (span_rows id (span ∷ spans)) w)
        (λ d. record d { request_spans = d.request_spans ++ span_rows id (span ∷ spans) }) w h

  parsed_world : (x : String) (o : Option String) (w : W) → (parsed s x o w).1 ≡ w
  parsed_world x none w = refl
  parsed_world x (some id) w = refl

  key_uuid_world : (k : Option String) (w : W) → (key_uuid s k w).1 ≡ w
  key_uuid_world k w = elim (Bool-cases (truthy k)) [
    | inl e ↦ rw e (parsed_world (or_else k "") (s.parse_uuid (or_else k "")) w)
    | inr e ↦ rw e
  ]

  parsed_ok :
      (x : String) (o : Option String) (w : W) {key : Option String} {v : W}
      → parsed s x o w ≡ (ok key, v)
      → key ≡ o
  parsed_ok x none w h = cc
  parsed_ok x (some id) w h = cc

  key_uuid_ok :
      (k : Option String) (w : W) {key : Option String} {v : W}
      → key_uuid s k w ≡ (ok key, v)
      → key ≡ key_of s k
  key_uuid_ok k w h = elim (Bool-cases (truthy k)) [
    | inl e ↦ rw e (parsed_ok (or_else k "") (s.parse_uuid (or_else k "")) w (rw e at h))
    | inr e ↦ rw e (nothing_ok (rw e at h))
  ]
    where
      nothing_ok :
          {key : Option String} {v : W}
          → ◌≡◌ {A = Result (Option String) × W} (ok none, w) (ok key, v)
          → key ≡ none
      nothing_ok h = cc

  insert_rows_ok :
      (u : String) (t : Trace) (key : Option String) (id : String) (w : W) {w' : W}
      → insert_rows s u t key id w ≡ (ok tt, w')
      → s.tables w' ≡ written id u key t (s.tables w)
  insert_rows_ok u t key id w h =
      let row = request_row id u key t in
      let usage = usage_row id t.response.usage t.response.cost_usd in
      let (a, v, e, k) =
        >>=-eq-ok (create_request s row) (λ _. bulk_create s id t.spans >> create_usage s usage) w
          h in
      let (b, v', e', k') = >>=-eq-ok (bulk_create s id t.spans) (λ _. create_usage s usage) v k in
      let first =
        flushed_ok (s.refuses_request row w) (λ d. record d { requests = d.requests ++ (row ∷ []) })
          w e in
      let second = bulk_create_ok id t.spans v e' in
      let third =
        flushed_ok (s.refuses_usage usage v')
          (λ d. record d { token_usage = d.token_usage ++ (usage ∷ []) }) v' k' in
      rw (third, second, first)

  pub write_ok :
      (u : String) (t : Trace) (w : W) {w' : W}
      → write s u t w ≡ (ok tt, w')
      → (id : String) × (s.tables w' ≡ written id u (key_of s t.api_key_id) t (s.tables w))
  unfolding write
  write_ok u t w {w'} h =
      let (key, v, e, k) = >>=-eq-ok (key_uuid s t.api_key_id) (insert s u t) w h in
      let (id, v', e', k') = >>=-eq-ok (draw_id s) (insert_rows s u t key) v k in
      let first : s.tables v ≡ s.tables w =
        ap (λ r. s.tables r.1) (sym e) ∙ ap s.tables (key_uuid_world t.api_key_id w) in
      let second : s.tables v' ≡ s.tables v = ap (λ r. s.tables r.1) (sym e') ∙ laws.tables_id v in
      let done : s.tables w' ≡ written id u key t (s.tables w) =
        insert_rows_ok u t key id v' k' ∙ ap (written id u key t) (second ∙ first) in
      (
        id,
        subst (λ key. s.tables w' ≡ written id u key t (s.tables w)) (key_uuid_ok t.api_key_id w e)
            done,
      )
