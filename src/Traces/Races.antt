-- ===== src/Traces/Races.antt =====
-- Two calls of `TracePersistenceService.persist` for one trace that overlap. Both look before either
-- writes, and `requests.trace_id` has an index that is not unique.
use llmops_gateway.Prelude.{
  String, Bool, true, ◌≡◌, refl, none, some, List, [], ◌∷◌, ◌++◌, ◌==◌, string_eq, eq_iff, select,
  select-append,
}
use llmops_gateway.Errors.{other, ok, err}
use llmops_gateway.Traces.{
  TraceStore, Trace, RequestRow, get_by_trace_id, request_row, write, look_and_write, in_session,
  persist,
}
use llmops_gateway.Traces.Persisted.{StoreLaws, key_of, write_ok, none_empty}

abbrev has_trace : String → RequestRow → Bool
has_trace x r = r.trace_id == x

twice :
    (x : String) (rows : List RequestRow) (a b : RequestRow)
    → a.trace_id ≡ x
    → b.trace_id ≡ x
    → select (has_trace x) rows ≡ []
    → select (has_trace x) ((rows ++ (a ∷ [])) ++ (b ∷ [])) ≡ a ∷ b ∷ []
twice x rows a b p q h =
    let ea : (a.trace_id == x) ≡ true = (eq_iff a.trace_id x).1 p in
    let eb : (b.trace_id == x) ≡ true = (eq_iff b.trace_id x).1 q in
    rw (
      select-append (has_trace x) (rows ++ (a ∷ [])) (b ∷ []),
      select-append (has_trace x) rows (a ∷ []),
      h,
      ea,
      eb,
    )

module _ {W : Type 0} (s : TraceStore W) (laws : StoreLaws s) where
  -- Where no row has the trace when two calls look for it, and then both write, two rows have it. A
  -- lookup by the trace raises, and so does the next call of `persist` for it where the database can
  -- be reached and its tenant is a UUID.
  pub write_twice :
      (t t' : Trace) (u u' : String) (w w1 w2 : W)
      → t'.trace_id ≡ t.trace_id
      → get_by_trace_id t.trace_id (s.tables w) ≡ ok none
      → write s u t w ≡ (ok tt, w1)
      → write s u' t' w1 ≡ (ok tt, w2)
      → s.outage w2 ≡ none
      → s.parse_uuid t.tenant_id ≡ some u
      → (get_by_trace_id t.trace_id (s.tables w2) ≡ err (other "MultipleResultsFound"))
        × ((persist s t w2).0 ≡ err (other "MultipleResultsFound"))
  unfolding get_by_trace_id persist look_and_write in_session
  write_twice t t' u u' w w1 w2 same absent first second up tenant =
      let (id, e) = write_ok s laws u t w first in
      let (id', e') = write_ok s laws u' t' w1 second in
      let rows =
        twice t.trace_id (s.tables w).requests (request_row id u (key_of s t.api_key_id) t)
          (request_row id' u' (key_of s t'.api_key_id) t') refl same
          (none_empty (select (has_trace t.trace_id) (s.tables w).requests) absent) in
      let found : get_by_trace_id t.trace_id (s.tables w2) ≡ err (other "MultipleResultsFound") =
        rw (e', e, rows) in
      (found, rw (tenant, up, found))
