-- ===== src/Admin/Isolation.antt =====
-- What a tenant's administrator can reach through the handlers of api/v1/admin.py.
use llmops_gateway.Prelude.{
  ℕ, String, true, false, not, ◌≡◌, refl, ap, sym, ◌∙◌, Option, none, some, List, [], ◌∷◌, ◌++◌,
  ◌==◌, string_eq, eq_iff, contains, select, first, arith, Bool-cases, Option-cases, inl, inr,
  if◌then◌else◌,
}
use llmops_gateway.Errors.{Exn, Result, ok, err, http, Exec, ◌>>◌}
use llmops_gateway.Errors.Inversion.{bind_run, bind_err}
use llmops_gateway.Auth.{Backend, AuthenticatedPrincipal, in_session}
use llmops_gateway.Persistence.ApiKeys
use llmops_gateway.Persistence.ApiKeys.{ApiKeyRow}
use llmops_gateway.Persistence.AdapterRoutes
use llmops_gateway.Persistence.AdapterRoutes.{
  AdapterRoute, RouteKey, RouteValues, has_key, change_first, new_row, written,
}
use llmops_gateway.Middleware.Access.{Request}
use llmops_gateway.Admin.{
  Office, OfficeLaws, get_authenticated_principal, with_session, rolled_back, closed, principal_of,
}
use llmops_gateway.Admin.Keys.{owned, find_owned, revoke_found, revoke_api_key}
use llmops_gateway.Admin.Routes.{
  UpsertAdapterRouteRequest, is_valid_upsert, asked_tenant, key_of, values_of, upsert_row,
  upsert_for, upsert_body, upsert_adapter_route, found_row, disable_row, disable_body,
  disable_adapter_route,
}

-- The rows of the tenants but one.
abbrev pub of_others : String → List AdapterRoute → List AdapterRoute
of_others tenant_id = select (λ row. not (row.tenant_id == tenant_id))

others-change_first :
    (k : RouteKey) (change : AdapterRoute → AdapterRoute) (rows : List AdapterRoute)
    → ((row : AdapterRoute) → (change row).tenant_id ≡ row.tenant_id)
    → of_others k.tenant_id (change_first (has_key k) change rows) ≡ of_others k.tenant_id rows
others-change_first k change [] same = refl
others-change_first k change (r ∷ rows) same = elim (Bool-cases (has_key k r)) [
  | inl here ↦
      let own : (r.tenant_id == k.tenant_id) ≡ true = ground arith in rw (here, same r, own)
  | inr there ↦ rw there (
      ap (λ rest. if not (r.tenant_id == k.tenant_id) then r ∷ rest else rest)
        (others-change_first k change rows same))
]

others-append :
    (t : String) (rows : List AdapterRoute) (row : AdapterRoute)
    → row.tenant_id ≡ t
    → of_others t (rows ++ (row ∷ [])) ≡ of_others t rows
others-append t [] row h = ground (arith, eq_iff row.tenant_id t)
others-append t (r ∷ rows) row h =
    ap (λ rest. if not (r.tenant_id == t) then r ∷ rest else rest) (others-append t rows row h)

others-upsert :
    (id : String) (now : ℕ) (k : RouteKey) (v : RouteValues) (rows : List AdapterRoute)
    → of_others k.tenant_id (AdapterRoutes.upsert id now k v rows) ≡ of_others k.tenant_id rows
unfolding AdapterRoutes.upsert
others-upsert id now k v rows = elim (Option-cases (first (has_key k) rows)) [
  | inl absent ↦
      rw (absent, AdapterRoutes.upsert) (others-append k.tenant_id rows (new_row id now k v) refl)
  | inr (row, e) ↦ rw (e, AdapterRoutes.upsert) (others-change_first k (written v) rows (λ r. refl))
]

others-disable :
    (k : RouteKey) (rows : List AdapterRoute)
    → of_others k.tenant_id (AdapterRoutes.disable k rows).1 ≡ of_others k.tenant_id rows
unfolding AdapterRoutes.disable
others-disable k rows = elim (Option-cases (first (has_key k) rows)) [
  | inl absent ↦ rw (absent, AdapterRoutes.disable)
  | inr (row, e) ↦
      rw (e, AdapterRoutes.disable)
        (others-change_first k (λ r. record r { enabled = false }) rows (λ r. refl))
]

module _ {W : Type 0} (o : Office W) (laws : OfficeLaws o) where
  routes_rolled_back : (w w' : W) → o.routes (rolled_back o w w') ≡ o.routes w
  routes_rolled_back w w' =
      laws.routes_prices (o.prices w)
        (o.set_routes (o.routes w) (o.backend.set_db (o.backend.db w) w'))
      ∙ laws.routes_routes (o.routes w) (o.backend.set_db (o.backend.db w) w')

  module _ {A B : Type 0} (f : List AdapterRoute → B) (w : W) where
    routes-closed :
        (r : Result A × W)
        → f (o.routes r.1) ≡ f (o.routes w)
        → f (o.routes (closed o w r).1) ≡ f (o.routes w)
    routes-closed (ok a, w') h = h
    routes-closed (err e, w') h = ap f (routes_rolled_back w w')

    -- What a handler leaves of the routes, its session leaves too.
    routes-with_session :
        (m : Exec W A)
        → f (o.routes (m w).1) ≡ f (o.routes w)
        → f (o.routes (with_session o m w).1) ≡ f (o.routes w)
    unfolding with_session
    routes-with_session m h = elim (Option-cases (o.backend.outage w)) [
      | inl e ↦ rw e (routes-closed (m w) h)
      | inr (x, e) ↦ rw e
    ]

  module _ (p : AuthenticatedPrincipal) where
    upsert_row-others :
        (id : String) (k : RouteKey) (v : RouteValues) (w : W)
        → k.tenant_id ≡ p.tenant_id
        → of_others p.tenant_id (o.routes (upsert_row o id k v w).1)
          ≡ of_others p.tenant_id (o.routes w)
    upsert_row-others id k v w h =
        let rows = AdapterRoutes.upsert id (o.backend.now w) k v (o.routes w) in
        rw (laws.routes_routes rows w, sym h) (others-upsert id (o.backend.now w) k v (o.routes w))

    upsert_for-others :
        (payload : UpsertAdapterRouteRequest) (t : String) (w : W)
        → contains "*" p.scopes ≡ false
        → of_others p.tenant_id (o.routes (upsert_for o p payload t w).1)
          ≡ of_others p.tenant_id (o.routes w)
    unfolding upsert_for
    upsert_for-others payload t w no_star = elim (Bool-cases (t == p.tenant_id)) [
      | inl own ↦
          rw (no_star, own)
            (upsert_row-others (o.new_id w).0 (key_of t payload) (values_of payload) (o.new_id w).1
                ((eq_iff t p.tenant_id).0 own)
              ∙ ap (of_others p.tenant_id) (laws.routes_id w))
      | inr foreign ↦ rw (no_star, foreign)
    ]

    upsert_body-others :
        (payload : UpsertAdapterRouteRequest) (w : W)
        → contains "*" p.scopes ≡ false
        → of_others p.tenant_id (o.routes (upsert_body o p payload w).1)
          ≡ of_others p.tenant_id (o.routes w)
    unfolding upsert_body
    upsert_body-others payload w no_star = elim (Bool-cases (is_valid_upsert payload)) [
      | inl good ↦ elim (Option-cases (o.parse_uuid (asked_tenant payload p))) [
        | inl e ↦ rw (good, e)
        | inr (t, e) ↦ rw (good, e) (upsert_for-others payload t w no_star)
      ]
      | inr bad ↦ rw bad
    ]

    run_upsert :
        (request : Request) (payload : UpsertAdapterRouteRequest) (w : W)
        → get_authenticated_principal request ≡ ok p
        → upsert_adapter_route o request payload w ≡ with_session o (upsert_body o p payload) w
    unfolding upsert_adapter_route
    run_upsert request payload w auth =
        bind_run (principal_of o request)
          (λ principal. with_session o (upsert_body o principal payload)) w (ap (λ r. (r, w)) auth)

    -- Whatever the body asks for and however it ends, an upsert by a principal without the wildcard
    -- leaves the routes of every other tenant as they were.
    pub upsert_adapter_route-others :
        (request : Request) (payload : UpsertAdapterRouteRequest) (w : W)
        → get_authenticated_principal request ≡ ok p
        → contains "*" p.scopes ≡ false
        → of_others p.tenant_id (o.routes (upsert_adapter_route o request payload w).1)
          ≡ of_others p.tenant_id (o.routes w)
    upsert_adapter_route-others request payload w auth no_star =
        rw (run_upsert request payload w auth) (
          routes-with_session (of_others p.tenant_id) w (upsert_body o p payload)
            (upsert_body-others payload w no_star))

    found_row_world : (row : Option AdapterRoute) (w : W) → (found_row o row w).1 ≡ w
    found_row_world none w = refl
    found_row_world (some row) w = refl

    disable_row-others :
        (k : RouteKey) (w : W)
        → k.tenant_id ≡ p.tenant_id
        → of_others p.tenant_id (o.routes (disable_row o k w).1)
          ≡ of_others p.tenant_id (o.routes w)
    disable_row-others k w h =
        let rows = (AdapterRoutes.disable k (o.routes w)).1 in
        rw
          (
            found_row_world (AdapterRoutes.disable k (o.routes w)).0 (o.set_routes rows w),
            laws.routes_routes rows w,
            sym h,
          )
          (others-disable k (o.routes w))

    disable_body-others :
        (model_alias stage : String) (w : W)
        → o.parse_uuid p.tenant_id ≡ some p.tenant_id
        → of_others p.tenant_id (o.routes (disable_body o p model_alias stage w).1)
          ≡ of_others p.tenant_id (o.routes w)
    unfolding disable_body
    disable_body-others model_alias stage w e = rw e (
        disable_row-others
          (record { tenant_id = p.tenant_id; model_alias = model_alias; stage = stage }) w refl)

    run_disable :
        (request : Request) (model_alias stage : String) (w : W)
        → get_authenticated_principal request ≡ ok p
        → disable_adapter_route o request model_alias stage w
          ≡ with_session o (disable_body o p model_alias stage) w
    unfolding disable_adapter_route
    run_disable request model_alias stage w auth =
        bind_run (principal_of o request)
          (λ principal. with_session o (disable_body o principal model_alias stage)) w
          (ap (λ r. (r, w)) auth)

    -- Disabling a route leaves the routes of every other tenant as they were, for any principal
    -- whose tenant id is a UUID in its canonical form.
    pub disable_adapter_route-others :
        (request : Request) (model_alias stage : String) (w : W)
        → get_authenticated_principal request ≡ ok p
        → o.parse_uuid p.tenant_id ≡ some p.tenant_id
        → of_others p.tenant_id (o.routes (disable_adapter_route o request model_alias stage w).1)
          ≡ of_others p.tenant_id (o.routes w)
    disable_adapter_route-others request model_alias stage w auth e =
        rw (run_disable request model_alias stage w auth) (
          routes-with_session (of_others p.tenant_id) w (disable_body o p model_alias stage)
            (disable_body-others model_alias stage w e))

in_session-err :
    {W A : Type 0} (s : Backend W) (m : Exec W A) (w : W) {e : Exn} {w' : W}
    → s.outage w ≡ none
    → m w ≡ (err e, w')
    → in_session s m w ≡ (err e, s.set_db (s.db w) w')
unfolding in_session
in_session-err s m w up h = ground arith

-- The answer 404 to a key that is missing or is another tenant's, with everything as it was.
module _ {W : Type 0} (o : Office W) (laws : OfficeLaws o) where
  not_owned :
      (t : String) (found : Option ApiKeyRow) (w : W)
      → ((key : ApiKeyRow) → found ≡ some key → (key.tenant_id == t) ≡ false)
      → owned o t found w ≡ (err (http 404), w)
  not_owned t none w h = refl
  not_owned t (some key) w h = rw (h key refl)

  find_owned-not_owned :
      (t i : String) (w : W)
      → o.backend.outage w ≡ none
      → ((key : ApiKeyRow)
          → ApiKeys.get_by_id (o.backend.db w) i ≡ some key
          → (key.tenant_id == t) ≡ false)
      → find_owned o t i w ≡ (err (http 404), o.backend.set_db (o.backend.db w) w)
  unfolding find_owned
  find_owned-not_owned t i w up foreign =
      in_session-err o.backend (λ v. owned o t (ApiKeys.get_by_id (o.backend.db v) i) v) w up
        (not_owned t (ApiKeys.get_by_id (o.backend.db w) i) w foreign)

  -- Where the database can be reached and the key is missing or another tenant's, revoking it
  -- answers 404, and the tables of keys and tenants stay as they were.
  pub revoke_api_key-not_owned :
      (request : Request) (p : AuthenticatedPrincipal) (api_key_id : String) (w : W)
      → get_authenticated_principal request ≡ ok p
      → o.backend.outage w ≡ none
      → ((key : ApiKeyRow)
          → ApiKeys.get_by_id (o.backend.db w) api_key_id ≡ some key
          → (key.tenant_id == p.tenant_id) ≡ false)
      → (w' : W) × (revoke_api_key o request api_key_id w ≡ (err (http 404), w'))
        × (o.backend.db w' ≡ o.backend.db w)
  unfolding revoke_api_key
  revoke_api_key-not_owned request p api_key_id w auth up foreign =
      let rest = λ (principal : AuthenticatedPrincipal).
        find_owned o principal.tenant_id api_key_id >> revoke_found o api_key_id in
      (
        o.backend.set_db (o.backend.db w) w,
        bind_run (principal_of o request) rest w (ap (λ r. (r, w)) auth)
            ∙ bind_err (find_owned o p.tenant_id api_key_id) (λ _. revoke_found o api_key_id) w
                (find_owned-not_owned p.tenant_id api_key_id w up foreign),
        laws.db_db (o.backend.db w) w,
      )
