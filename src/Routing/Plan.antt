-- ===== src/Routing/Plan.antt =====
-- The attempts that `RoutingService._resolve_attempts` of services/routing_service.py plans.
use llmops_gateway.Prelude.{
  first_passes, String, ◌≡◌, refl, sym, subst, true, false, ◌||◌, ◌⊎◌, inl, inr, Option, none, some,
  List, [], ◌∷◌, ◌++◌, ◌==◌, string_eq, eq_iff, contains, All, Bool-cases, Option-cases, arith,
}
use llmops_gateway.Domain.Chat.{ChatRequest}
use llmops_gateway.Errors.{Exn, Result, ok, err}
use llmops_gateway.Providers.Resilient.{Provider}
use llmops_gateway.Providers.Registry
use llmops_gateway.Providers.Registry.{Settings, try_get, find_supporting}
use llmops_gateway.Routing.{
  append_missing, append_results, ordered_names, attempt_for, attempts_for, resolve_attempts,
}

-- No text stands twice in the list.
abbrev pub Distinct : List String → Type 0
Distinct [] = Unit
Distinct (x ∷ xs) = (contains x xs ≡ false) × Distinct xs

contains-append :
    (x : String) (xs ys : List String) → contains x (xs ++ ys) ≡ contains x xs || contains x ys
contains-append x [] ys = refl
contains-append x (y ∷ xs) ys = ground (arith, contains-append x xs ys)

Distinct-snoc :
    (xs : List String) (n : String)
    → contains n xs ≡ false
    → Distinct xs
    → Distinct (xs ++ (n ∷ []))
Distinct-snoc [] n h d = (refl, tt)
Distinct-snoc (x ∷ xs) n h (fresh, d) = (
  ground (arith, contains-append x xs (n ∷ []), eq_iff n x, eq_iff x n),
  Distinct-snoc xs n (ground arith) d,
)

append_missing-Distinct :
    (xs chain : List String) → Distinct xs → Distinct (append_missing xs chain)
unfolding append_missing
append_missing-Distinct xs [] d = d
append_missing-Distinct xs (n ∷ chain) d = elim (Bool-cases (contains n xs)) [
  | inl old ↦ rw old (append_missing-Distinct xs chain d)
  | inr new ↦ rw new (append_missing-Distinct (xs ++ (n ∷ [])) chain (Distinct-snoc xs n new d))
]

module _ {W : Type 0} (settings : Settings) (providers : List (Provider W)) where
  ordered_names-Distinct :
      (request : ChatRequest) → Distinct (ordered_names settings providers request)
  unfolding ordered_names
  ordered_names-Distinct request = elim (Option-cases (find_supporting providers request.model)) [
    | inl unknown ↦
        rw (unknown, ordered_names) (append_missing-Distinct [] settings.provider_fallback_chain tt)
    | inr (p, e) ↦
        rw (e, ordered_names)
          (append_missing-Distinct (p.name ∷ []) settings.provider_fallback_chain (refl, tt))
  ]

  try_get-name : (name : String) {p : Provider W} → try_get providers name ≡ some p → p.name ≡ name
  unfolding try_get
  try_get-name name {p} h = (eq_iff p.name name).0 (first_passes (λ q. q.name == name) providers h)

  -- The provider is the registered one of its name, and it serves the requested model itself, or it
  -- does not and has a configured equivalent.
  abbrev pub Planned : ChatRequest → Provider W × String → Type 0
  Planned request (p, model) =
      (try_get providers p.name ≡ some p)
      × (((p.supports_model request.model ≡ true) × (model ≡ request.model))
          ⊎ ((p.supports_model request.model ≡ false)
              × (Registry.resolve_equivalent_model settings providers request.model p.name
                  ≡ ok (some model))))

  -- One turn of the loop raises, skips the name, or plans one attempt with its provider.
  data Turn (request : ChatRequest) (name : String)
      : Result (List (Provider W × String)) → Type 0 where
    raised : (e : Exn) → Turn request name (err e)
    skipped : Turn request name (ok [])
    planned :
        (p : Provider W) (model : String)
        → Planned request (p, model)
        → p.name ≡ name
        → Turn request name (ok ((p, model) ∷ []))

  equivalent-Turn :
      (request : ChatRequest) (name : String) (p : Provider W) (r : Result (Option String))
      → try_get providers name ≡ some p
      → p.supports_model request.model ≡ false
      → Registry.resolve_equivalent_model settings providers request.model name ≡ r
      → Turn request name
          (elim r [ err e ↦ err e | ok none ↦ ok [] | ok (some model) ↦ ok ((p, model) ∷ []) ])
  equivalent-Turn request name p (err e) h foreign eq = raised e
  equivalent-Turn request name p (ok none) h foreign eq = skipped
  equivalent-Turn request name p (ok (some model)) h foreign eq =
      let named : p.name ≡ name = try_get-name name h in
      planned p model
        (
          subst (λ n. try_get providers n ≡ some p) (sym named) h,
          inr (
            foreign,
            subst
                (λ n.
                  Registry.resolve_equivalent_model settings providers request.model n
                  ≡ ok (some model))
                (sym named) eq,
          ),
        )
        named

  attempt_for-Turn :
      (request : ChatRequest) (name : String)
      → Turn request name (attempt_for settings providers request name)
  unfolding attempt_for
  attempt_for-Turn request name = elim (Option-cases (try_get providers name)) [
    | inl absent ↦ rw (absent, attempt_for) skipped
    | inr (p, h) ↦ elim (Bool-cases (p.supports_model request.model)) [
      | inl native ↦
          let named : p.name ≡ name = try_get-name name h in
          rw (h, native, attempt_for)
            (planned p request.model
              (subst (λ n. try_get providers n ≡ some p) (sym named) h, inl (native, refl)) named)
      | inr foreign ↦
          rw (h, foreign, attempt_for)
            (equivalent-Turn request name p
              (Registry.resolve_equivalent_model settings providers request.model name) h foreign
              refl)
    ]
  ]

  -- A property of what is planned, where nothing was raised.
  abbrev Holds :
      (List (Provider W × String) → Type 0) → Result (List (Provider W × String)) → Type 0
  Holds P (ok attempts) = P attempts
  Holds P (err e) = Unit

  abbrev pub names_of : List (Provider W × String) → List String
  names_of [] = []
  names_of (a ∷ attempts) = a.0.name ∷ names_of attempts

  Turn-Planned :
      (request : ChatRequest) (name : String) (r rest : Result (List (Provider W × String)))
      → Turn request name r
      → Holds (All (Planned request)) rest
      → Holds (All (Planned request)) (append_results r rest)
  unfolding append_results
  Turn-Planned request name r (err e) (raised _) h = tt
  Turn-Planned request name r (err e) skipped h = tt
  Turn-Planned request name r (err e) (planned p m q n) h = tt
  Turn-Planned request name r (ok rest) (raised _) h = tt
  Turn-Planned request name r (ok rest) skipped h = h
  Turn-Planned request name r (ok rest) (planned p m q n) h = (q, h)

  attempts_for-Planned :
      (request : ChatRequest) (names : List String)
      → Holds (All (Planned request)) (attempts_for settings providers request names)
  unfolding attempts_for
  attempts_for-Planned request [] = tt
  attempts_for-Planned request (name ∷ names) =
      Turn-Planned request name (attempt_for settings providers request name)
        (attempts_for settings providers request names) (attempt_for-Turn request name)
        (attempts_for-Planned request names)

  Turn-fresh :
      (request : ChatRequest) (name x : String) (r rest : Result (List (Provider W × String)))
      → Turn request name r
      → (name == x) ≡ false
      → Holds (λ found. contains x (names_of found) ≡ false) rest
      → Holds (λ found. contains x (names_of found) ≡ false) (append_results r rest)
  unfolding append_results
  Turn-fresh request name x r (err e) (raised _) ne h = tt
  Turn-fresh request name x r (err e) skipped ne h = tt
  Turn-fresh request name x r (err e) (planned p m q n) ne h = tt
  Turn-fresh request name x r (ok rest) (raised _) ne h = tt
  Turn-fresh request name x r (ok rest) skipped ne h = h
  Turn-fresh request name x r (ok rest) (planned p m q n) ne h = rw n (rw ne h)

  attempts_for-fresh :
      (request : ChatRequest) (x : String) (names : List String)
      → contains x names ≡ false
      → Holds
          (λ found. contains x (names_of found) ≡ false)
          (attempts_for settings providers request names)
  unfolding attempts_for
  attempts_for-fresh request x [] h = refl
  attempts_for-fresh request x (name ∷ names) h =
      Turn-fresh request name x (attempt_for settings providers request name)
        (attempts_for settings providers request names) (attempt_for-Turn request name)
        (ground arith) (attempts_for-fresh request x names (ground arith))

  Turn-Distinct :
      (request : ChatRequest) (name : String) (r rest : Result (List (Provider W × String)))
      → Turn request name r
      → Holds (λ found. contains name (names_of found) ≡ false) rest
      → Holds (λ found. Distinct (names_of found)) rest
      → Holds (λ found. Distinct (names_of found)) (append_results r rest)
  unfolding append_results
  Turn-Distinct request name r (err e) (raised _) fresh h = tt
  Turn-Distinct request name r (err e) skipped fresh h = tt
  Turn-Distinct request name r (err e) (planned p m q n) fresh h = tt
  Turn-Distinct request name r (ok rest) (raised _) fresh h = tt
  Turn-Distinct request name r (ok rest) skipped fresh h = h
  Turn-Distinct request name r (ok rest) (planned p m q n) fresh h = (rw n fresh, h)

  attempts_for-Distinct :
      (request : ChatRequest) (names : List String)
      → Distinct names
      → Holds (λ found. Distinct (names_of found)) (attempts_for settings providers request names)
  unfolding attempts_for
  attempts_for-Distinct request [] d = tt
  attempts_for-Distinct request (name ∷ names) d =
      Turn-Distinct request name (attempt_for settings providers request name)
        (attempts_for settings providers request names) (attempt_for-Turn request name)
        (attempts_for-fresh request name names d.0) (attempts_for-Distinct request names d.1)

  -- Unless a provider is pinned: whatever the loop plans, no provider is planned twice, and every
  -- attempt is at the registered provider of its name, with the requested model where that
  -- provider supports it and else with the configured equivalent.
  pub resolve_attempts-Planned :
      (request : ChatRequest) {attempts : List (Provider W × String)}
      → request.provider_override ≡ none
      → resolve_attempts settings providers request ≡ ok attempts
      → Distinct (names_of attempts) × All (Planned request) attempts
  unfolding resolve_attempts
  resolve_attempts-Planned request {attempts} free h =
      let planned_ok : attempts_for settings providers request
            (ordered_names settings providers request)
          ≡ ok attempts =
        rw (free, resolve_attempts) at h in
      (
        subst (Holds (λ found. Distinct (names_of found))) planned_ok (
            attempts_for-Distinct request (ordered_names settings providers request)
              (ordered_names-Distinct request)),
        subst (Holds (All (Planned request))) planned_ok
            (attempts_for-Planned request (ordered_names settings providers request)),
      )
