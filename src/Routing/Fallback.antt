-- ===== src/Routing/Fallback.antt =====
-- How `RoutingService.complete` and `RoutingService.stream` of services/routing_service.py fall
-- back along the planned attempts.
use mathlib.Core.List.{append_assoc, append-nil}
use llmops_gateway.Prelude.{
  String, ◌≡◌, refl, ◌∙◌, Option, none, some, List, [], ◌∷◌, ◌++◌, ◌⊎◌, inl, inr, Bool, true, false,
}
use llmops_gateway.Domain.Chat.{ChatRequest, ChatResponse}
use llmops_gateway.Errors.{ProviderError, Exn, provider, all_exhausted, Result, ok, err}
use llmops_gateway.Providers.Resilient.{Provider, Runtime, Streamed}
use llmops_gateway.Providers.Resilient
use llmops_gateway.Routing.{
  attempt_request, complete_next, complete_attempts, Routed, stream_next, stream_attempts,
}

module _ {W : Type 0} (rt : Runtime W) (request : ChatRequest) where
  -- From the attempts `a` in world `w`, every attempt before those in `b` failed with a
  -- `ProviderError`, which left the errors `es` and the world `w'`.
  pub data Falls
      : List (Provider W × String)
        → W
        → List (Provider W × String)
        → W
        → List (String × ProviderError)
        → Type 0 where
    here : {a : List (Provider W × String)} {w : W} → Falls a w a w []
    next :
        {p : Provider W} {model : String} {a b : List (Provider W × String)} {w w' v : W}
        {e : ProviderError} {es : List (String × ProviderError)}
        → Resilient.complete rt p (attempt_request request model) w ≡ (err (provider e), w')
        → Falls a w' b v es
        → Falls ((p, model) ∷ a) w b v ((p.name, e) ∷ es)

  -- Where every attempt fails with a `ProviderError`, the call raises that all providers are
  -- exhausted, with the name and error of each in order.
  pub complete-exhausted :
      {a : List (Provider W × String)} {w v : W} {es : List (String × ProviderError)}
      (errors : List (String × ProviderError))
      → Falls a w [] v es
      → complete_attempts rt request a errors w ≡ (err (all_exhausted (errors ++ es)), v)
  unfolding complete_attempts complete_next
  complete-exhausted errors here = rw append-nil
  complete-exhausted errors (next {p} {e} {es} failed rest) =
      rw (failed, ← append_assoc errors ((p.name, e) ∷ []) es)
        (complete-exhausted (errors ++ ((p.name, e) ∷ [])) rest)

  -- How a response came about: some attempts failed with a `ProviderError`, the next one gave it.
  abbrev pub Served : List (Provider W × String) → W → ChatResponse → W → Type 0
  Served a w response v =
      (p : Provider W) × (model : String) × (rest : List (Provider W × String)) × (u : W)
      × (es : List (String × ProviderError)) × Falls a w ((p, model) ∷ rest) u es
      × (Resilient.complete rt p (attempt_request request model) u ≡ (ok response, v))

  next-Served :
      (p : Provider W) (model : String) (a : List (Provider W × String))
      (errors : List (String × ProviderError)) (r : Result ChatResponse) {w w' v : W}
      {response : ChatResponse}
      → Resilient.complete rt p (attempt_request request model) w ≡ (r, w')
      → complete_next rt p.name errors (complete_attempts rt request a) r w' ≡ (ok response, v)
      → ((errors' : List (String × ProviderError)) (u : W)
          → complete_attempts rt request a errors' u ≡ (ok response, v)
          → Served a u response v)
      → Served ((p, model) ∷ a) w response v
  unfolding complete_next
  next-Served p model a errors (ok r) {w} eq h more = (p, model, a, w, [], here, eq ∙ h)
  next-Served p model a errors (err (provider e)) {w} {w'} eq h more =
      let (p', model', rest, u, es, falls, served) = more (errors ++ ((p.name, e) ∷ [])) w' h in
      (p', model', rest, u, (p.name, e) ∷ es, next eq falls, served)
  next-Served p model a errors (err x) eq h more = cc

  -- A response is the one that the first attempt that does not fail with a `ProviderError` gave,
  -- and nothing is done after it.
  pub complete-Served :
      (a : List (Provider W × String)) (errors : List (String × ProviderError)) (w : W)
      {response : ChatResponse} {v : W}
      → complete_attempts rt request a errors w ≡ (ok response, v)
      → Served a w response v
  unfolding complete_attempts
  complete-Served [] errors w h = cc
  complete-Served ((p, model) ∷ a) errors w {response} {v} h =
      next-Served p model a errors (Resilient.complete rt p (attempt_request request model) w).0
        refl h (λ errors' u. complete-Served a errors' u)

  -- From the attempts `a` in world `w`, the streams of those before `b` failed with a
  -- `ProviderError` before any chunk, which left the errors `es` and the world `w'`.
  pub data Dry
      : List (Provider W × String)
        → W
        → List (Provider W × String)
        → W
        → List (String × ProviderError)
        → Type 0 where
    all : {a : List (Provider W × String)} {w : W} → Dry a w a w []
    more :
        {p : Provider W} {model : String} {a b : List (Provider W × String)} {w w' v : W}
        {e : ProviderError} {es : List (String × ProviderError)}
        → Resilient.stream rt p (attempt_request request model) w
          ≡ (record { chunks = []; ended = some (provider e) }, w')
        → Dry a w' b v es
        → Dry ((p, model) ∷ a) w b v ((p.name, e) ∷ es)

  -- Whether an attempt failed with a `ProviderError` before any chunk.
  abbrev pub is_dry : List String → Option Exn → Bool
  is_dry (c ∷ cs) ended = false
  is_dry [] none = false
  is_dry [] (some x) = elim x [ provider e ↦ true | _ ↦ false ]

  -- Either all attempts failed before any chunk, and the stream ends with the exception that all
  -- providers are exhausted, with the name and error of each in order, and nothing was selected. Or
  -- those before one attempt did and that one did not, and the stream is the whole of that
  -- attempt's, which is selected if it had a chunk.
  abbrev pub OneProvider :
      List (String × ProviderError) → List (Provider W × String) → W → Routed W × W → Type 0
  OneProvider errors a w (r, v) =
      ((es : List (String × ProviderError)) × Dry a w [] v es
        × (r ≡ record {
          streamed = record { chunks = []; ended = some (all_exhausted (errors ++ es)) };
          selected = none;
        }))
      ⊎ ((p : Provider W) × (model : String) × (rest : List (Provider W × String)) × (u : W)
          × (es : List (String × ProviderError)) × Dry a w ((p, model) ∷ rest) u es
          × (Resilient.stream rt p (attempt_request request model) u ≡ (r.streamed, v))
          × (is_dry r.streamed.chunks r.streamed.ended ≡ false)
          × (r.selected ≡ elim r.streamed.chunks [
            | [] ↦ none
            | c ∷ cs ↦ some (p, attempt_request request model)
          ]))

  one_more :
      {p : Provider W} {model : String} {a : List (Provider W × String)} {e : ProviderError}
      {w w' : W} (errors : List (String × ProviderError)) (x : Routed W × W)
      → Resilient.stream rt p (attempt_request request model) w
        ≡ (record { chunks = []; ended = some (provider e) }, w')
      → OneProvider (errors ++ ((p.name, e) ∷ [])) a w' x
      → OneProvider errors ((p, model) ∷ a) w x
  one_more {p} {e} errors x dry (inl (es, falls, same)) =
      inl ((p.name, e) ∷ es, more dry falls, rw (← append_assoc errors ((p.name, e) ∷ []) es) same)
  one_more {p} {e} errors x dry (inr (p', model', rest, u, es, falls, run, wet, selected)) =
      inr (p', model', rest, u, (p.name, e) ∷ es, more dry falls, run, wet, selected)

  next_OneProvider :
      (p : Provider W) (model : String) (a : List (Provider W × String))
      (errors : List (String × ProviderError)) (chunks : List String) (ended : Option Exn)
      (w w' : W)
      → Resilient.stream rt p (attempt_request request model) w
        ≡ (record { chunks = chunks; ended = ended }, w')
      → ((errors' : List (String × ProviderError)) (u : W)
          → OneProvider errors' a u (stream_attempts rt request a errors' u))
      → OneProvider errors ((p, model) ∷ a) w (
          stream_next rt p
            (attempt_request request model)
            errors
            (stream_attempts rt request a)
            chunks
            ended
            w')
  unfolding stream_next
  next_OneProvider p model a errors [] none w w' eq later =
      inr (p, model, a, w, [], all, eq, refl, refl)
  next_OneProvider p model a errors (c ∷ cs) none w w' eq later =
      inr (p, model, a, w, [], all, eq, refl, refl)
  next_OneProvider p model a errors [] (some (provider e)) w w' eq later =
      one_more errors (stream_attempts rt request a (errors ++ ((p.name, e) ∷ [])) w') eq
        (later (errors ++ ((p.name, e) ∷ [])) w')
  next_OneProvider p model a errors (c ∷ cs) (some (provider e)) w w' eq later =
      inr (p, model, a, w, [], all, eq, refl, refl)
  next_OneProvider p model a errors [] (some x) w w' eq later =
      inr (p, model, a, w, [], all, eq, refl, refl)
  next_OneProvider p model a errors (c ∷ cs) (some x) w w' eq later =
      inr (p, model, a, w, [], all, eq, refl, refl)

  -- A routed stream is never stitched together from two providers. Either every planned attempt
  -- failed before its first chunk, and the stream has no chunks and ends with the exception that
  -- lists all their errors; or it has the chunks and the end of the first attempt that did not, and
  -- that attempt was selected exactly when there was a chunk.
  pub stream-OneProvider :
      (a : List (Provider W × String)) (errors : List (String × ProviderError)) (w : W)
      → OneProvider errors a w (stream_attempts rt request a errors w)
  unfolding stream_attempts
  stream-OneProvider [] errors w = inl ([], all, rw append-nil)
  stream-OneProvider ((p, model) ∷ a) errors w =
      next_OneProvider p model a errors
        (Resilient.stream rt p (attempt_request request model) w).0.chunks
        (Resilient.stream rt p (attempt_request request model) w).0.ended w
        (Resilient.stream rt p (attempt_request request model) w).1 refl
        (λ errors' u. stream-OneProvider a errors' u)
