-- ===== src/Admin.antt =====
-- What the handlers of api/v1/admin.py share: api/deps.py, the tables, and the checks that FastAPI
-- makes of a body before a handler runs, which answer 422.
pub mod Keys
pub mod Tables
pub mod Routes
pub mod Issued
pub mod Isolation
use Prim.Native.String.{count}
use llmops_gateway.Prelude.{
  ℕ, ◌≡◌, String, Bool, ◌&&◌, Option, none, some, List, leb, if◌then◌else◌,
}
use llmops_gateway.Errors.{
  Exn, Result, ok, err, value_error, authentication, http, Exec, pure, raise,
}
use llmops_gateway.Auth.{AuthenticatedPrincipal, Backend}
use llmops_gateway.Persistence.ApiKeys.{KeyTables}
use llmops_gateway.Persistence.AdapterRoutes.{AdapterRoute}
use llmops_gateway.Persistence.Pricing.{PricingRow}
use llmops_gateway.Middleware.Access.{Request}

-- `backend` is `app.state.auth_service` with its database, which has two tables more. `parse_uuid`
-- is `str(uuid.UUID(text))`, `none` for a `ValueError`; `new_id` and `token` draw the key of a row
-- and `secrets.token_urlsafe(32)`; `before` is the order in which the database sorts texts.
pub record Office (W : Type 0) : Type 0 where
  pub backend : Backend W
  pub routes : W → List AdapterRoute
  pub set_routes : List AdapterRoute → W → W
  pub prices : W → List PricingRow
  pub set_prices : List PricingRow → W → W
  pub parse_uuid : String → Option String
  pub new_id : W → String × W
  pub token : W → String × W
  pub before : String → String → Bool

-- What reading a table that was written gives.
pub record OfficeLaws {W : Type 0} (o : Office W) : Type 0 where
  pub db_db : (t : KeyTables) (w : W) → o.backend.db (o.backend.set_db t w) ≡ t
  pub routes_routes : (t : List AdapterRoute) (w : W) → o.routes (o.set_routes t w) ≡ t
  pub db_routes : (t : List AdapterRoute) (w : W) → o.backend.db (o.set_routes t w) ≡ o.backend.db w
  pub db_prices : (t : List PricingRow) (w : W) → o.backend.db (o.set_prices t w) ≡ o.backend.db w
  pub routes_prices : (t : List PricingRow) (w : W) → o.routes (o.set_prices t w) ≡ o.routes w
  pub prices_prices : (t : List PricingRow) (w : W) → o.prices (o.set_prices t w) ≡ t
  pub routes_db : (t : KeyTables) (w : W) → o.routes (o.backend.set_db t w) ≡ o.routes w
  pub routes_id : (w : W) → o.routes (o.new_id w).1 ≡ o.routes w
  pub db_id : (w : W) → o.backend.db (o.new_id w).1 ≡ o.backend.db w
  pub db_token : (w : W) → o.backend.db (o.token w).1 ≡ o.backend.db w

abbrev pub between : ℕ → ℕ → String → Bool
between least most s = leb least (count s) && leb (count s) most

unfoldable pub get_current_tenant_id : Request → Result String
get_current_tenant_id request = elim request.tenant_id [
  | none ↦ err (authentication "Request is not authenticated")
  | some tenant_id ↦ ok tenant_id
]

unfoldable pub get_current_api_key_id : Request → Option String
get_current_api_key_id request = request.api_key_id

unfoldable pub get_authenticated_principal : Request → Result AuthenticatedPrincipal
get_authenticated_principal request = elim request.auth [
  | none ↦ err (authentication "Request is not authenticated")
  | some principal ↦ ok principal
]

module _ {W : Type 0} (o : Office W) where
  abbrev pub principal_of : Request → Exec W AuthenticatedPrincipal
  principal_of request w = (get_authenticated_principal request, w)

  abbrev pub checked : Bool → Exec W (Unit {0})
  checked good = if good then pure tt else raise (http 422)

  abbrev pub parsed_uuid : String → Option String → Exec W String
  parsed_uuid s none = raise (value_error s)
  parsed_uuid s (some id) = pure id

  abbrev pub uuid_of : String → Exec W String
  uuid_of s = parsed_uuid s (o.parse_uuid s)

  abbrev pub draw_id : Exec W String
  draw_id w = let (id, w') = o.new_id w in (ok id, w')

  -- The tables as they were.
  abbrev pub rolled_back : W → W → W
  rolled_back w w' =
      o.set_prices (o.prices w) (o.set_routes (o.routes w) (o.backend.set_db (o.backend.db w) w'))

  abbrev pub closed : {A : Type 0} → W → Result A × W → Result A × W
  closed w (ok a, w') = (ok a, w')
  closed w (err e, w') = (err e, rolled_back w w')

  abbrev pub opened : {A : Type 0} → Option Exn → Exec W A → Exec W A
  opened (some e) m w = (err e, w)
  opened none m w = closed w (m w)

  -- The session of `get_db_session` around a handler: committed after it, or rolled back on an
  -- exception. A commit that fails is not modelled.
  unfoldable pub with_session : {A : Type 0} → Exec W A → Exec W A
  with_session m w = opened (o.backend.outage w) m w
