-- ===== src/Observability/Parents.antt =====
-- That one pass of `OtelTraceExporter.export` finds the parents.
use llmops_gateway.Prelude.{
  ℕ, suc, ◌+◌, String, true, false, ◌≡◌, refl, ap, ◌∙◌, some, truthy, List, [], ◌∷◌, ◌++◌, ◌==◌,
  string_eq, eq_iff, length, length-append, All, arith,
}
use llmops_gateway.Tracing.{TraceSpan}
use llmops_gateway.Observability.{
  OtelSpan, start_span, context_of, parent_context, export_from, otel_export,
}

-- The contexts after a number of rounds.
abbrev contexts_after : ℕ → List TraceSpan → List (String × ℕ) → List (String × ℕ)
contexts_after n [] contexts = contexts
contexts_after n (span ∷ spans) contexts =
    contexts_after (suc n) spans ((span.span_id, n) ∷ contexts)

export-append :
    (n : ℕ) (contexts : List (String × ℕ)) (xs ys : List TraceSpan)
    → export_from n contexts (xs ++ ys)
      ≡ export_from n contexts xs ++ export_from (n + length xs) (contexts_after n xs contexts) ys
unfolding export_from
export-append n contexts [] ys =
    let e : n ≡ n + 0 = omega arith in ap (λ k. export_from k contexts ys) e
export-append n contexts (x ∷ xs) ys =
    let e : suc n + length xs ≡ n + suc (length xs) = omega arith in
    let later = contexts_after (suc n) xs ((x.span_id, n) ∷ contexts) in
    ap (λ rest. start_span x (parent_context contexts x.parent_span_id) ∷ rest)
      (export-append (suc n) ((x.span_id, n) ∷ contexts) xs ys
        ∙ ap (λ k. export_from (suc n) ((x.span_id, n) ∷ contexts) xs ++ export_from k later ys) e)

contexts-append :
    (n : ℕ) (contexts : List (String × ℕ)) (xs ys : List TraceSpan)
    → contexts_after n (xs ++ ys) contexts
      ≡ contexts_after (n + length xs) ys (contexts_after n xs contexts)
contexts-append n contexts [] ys =
    let e : n ≡ n + 0 = omega arith in ap (λ k. contexts_after k ys contexts) e
contexts-append n contexts (x ∷ xs) ys =
    let e : suc n + length xs ≡ n + suc (length xs) = omega arith in
    let later = contexts_after (suc n) xs ((x.span_id, n) ∷ contexts) in
    contexts-append (suc n) ((x.span_id, n) ∷ contexts) xs ys
    ∙ ap (λ k. contexts_after k ys later) e

length-export_from :
    (n : ℕ) (contexts : List (String × ℕ)) (xs : List TraceSpan)
    → length (export_from n contexts xs) ≡ length xs
unfolding export_from
length-export_from n contexts [] = refl
length-export_from n contexts (x ∷ xs) =
    ap suc (length-export_from (suc n) ((x.span_id, n) ∷ contexts) xs)

context_kept :
    (id : String) (n : ℕ) (xs : List TraceSpan) (contexts : List (String × ℕ))
    → All (λ x. (x.span_id == id) ≡ false) xs
    → context_of id (contexts_after n xs contexts) ≡ context_of id contexts
context_kept id n [] contexts h = refl
context_kept id n (x ∷ xs) contexts h =
    context_kept id (suc n) xs ((x.span_id, n) ∷ contexts) h.1 ∙ rw h.0

-- A span whose parent was created before it, with no span of the parent's id in between, is handed
-- to the tracer at its own place and with the place of that parent.
pub otel_export_parent :
    (a b later : List TraceSpan) (parent child : TraceSpan)
    → child.parent_span_id ≡ some parent.span_id
    → truthy (some parent.span_id) ≡ true
    → All (λ x. (x.span_id == parent.span_id) ≡ false) b
    → (before : List OtelSpan) × (after : List OtelSpan) × (otel_export
          ((a ++ (parent ∷ b)) ++ (child ∷ later))
        ≡ before ++ (start_span child (some (length a)) ∷ after))
      × (length before ≡ length a + suc (length b))
unfolding otel_export export_from
otel_export_parent a b later parent child has named between =
    let xs = a ++ (parent ∷ b) in
    let contexts = contexts_after 0 xs [] in
    let z : 0 + length a ≡ length a = omega arith in
    let z' : 0 + length xs ≡ length xs = omega arith in
    let own : (parent.span_id == parent.span_id) ≡ true =
      (eq_iff parent.span_id parent.span_id).1 refl in
    let found : context_of parent.span_id contexts ≡ some (length a) =
      ap (context_of parent.span_id) (contexts-append 0 [] a (parent ∷ b))
      ∙ (ap (λ k. context_of parent.span_id (contexts_after k (parent ∷ b) (contexts_after 0 a [])))
            z
          ∙ (context_kept parent.span_id (suc (length a)) b
                ((parent.span_id, length a) ∷ contexts_after 0 a []) between
              ∙ rw own)) in
    let parented : parent_context contexts child.parent_span_id ≡ some (length a) =
      rw (has, named) found in
    let rest = export_from (suc (length xs)) ((child.span_id, length xs) ∷ contexts) later in
    (
      export_from 0 [] xs,
      rest,
      export-append 0 [] xs (child ∷ later)
          ∙ (ap (λ k. export_from 0 [] xs ++ export_from k contexts (child ∷ later)) z'
              ∙ ap (λ p. export_from 0 [] xs ++ (start_span child p ∷ rest)) parented),
      length-export_from 0 [] xs ∙ length-append a (parent ∷ b),
    )
