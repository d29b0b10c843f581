-- ===== src/Admin/Routes.antt =====
-- The handlers for adapter routes of api/v1/admin.py.
use llmops_gateway.Prelude.{
  ℕ, String, Bool, false, not, ◌&&◌, Option, none, some, or_else, truthy, List, ◌==◌, string_eq,
  contains, map, leb, if◌then◌else◌,
}
use llmops_gateway.Prelude.Int.{ℤ, pos, negsuc}
use llmops_gateway.Errors.{ok, http, Exec, ◌>>=◌, ◌>>◌, pure, gets, raise}
use llmops_gateway.Auth.{AuthenticatedPrincipal}
use llmops_gateway.Persistence.AdapterRoutes
use llmops_gateway.Persistence.AdapterRoutes.{AdapterRoute, RouteKey, RouteValues}
use llmops_gateway.Middleware.Access.{Request}
use llmops_gateway.Admin.{Office, between, principal_of, checked, uuid_of, draw_id, with_session}

pub record AdapterRouteSummary : Type 0 where
  pub id : String
  pub tenant_id : String
  pub model_alias : String
  pub base_model : String
  pub adapter_id : String
  pub stage : String
  pub enabled : Bool
  pub canary_percent : ℕ
  pub created_at : ℕ

abbrev pub route_summary : AdapterRoute → AdapterRouteSummary
route_summary row = record {
  id = row.id;
  tenant_id = row.tenant_id;
  model_alias = row.model_alias;
  base_model = row.base_model;
  adapter_id = row.adapter_id;
  stage = row.stage;
  enabled = row.enabled;
  canary_percent = row.canary_percent;
  created_at = row.created_at;
}

pub record UpsertAdapterRouteRequest : Type 0 where
  pub model_alias : String
  pub base_model : String
  pub adapter_id : String
  pub stage : String
  pub enabled : Bool
  pub canary_percent : ℤ
  pub tenant_id : Option String

abbrev pub is_percent : ℤ → Bool
is_percent (pos n) = leb n 100
is_percent (negsuc n) = false

abbrev pub is_valid_upsert : UpsertAdapterRouteRequest → Bool
is_valid_upsert payload =
    between 1 128 payload.model_alias
    && between 1 128 payload.base_model
    && between 1 255 payload.adapter_id
    && between 0 32 payload.stage
    && is_percent payload.canary_percent

-- `payload.tenant_id or principal.tenant_id`
abbrev pub asked_tenant : UpsertAdapterRouteRequest → AuthenticatedPrincipal → String
asked_tenant payload principal =
    if truthy payload.tenant_id
    then or_else payload.tenant_id principal.tenant_id
    else principal.tenant_id

abbrev pub key_of : String → UpsertAdapterRouteRequest → RouteKey
key_of tenant_id payload = record {
  tenant_id = tenant_id;
  model_alias = payload.model_alias;
  stage = payload.stage;
}

abbrev pub values_of : UpsertAdapterRouteRequest → RouteValues
values_of payload = record {
  base_model = payload.base_model;
  adapter_id = payload.adapter_id;
  enabled = payload.enabled;
  canary_percent = payload.canary_percent;
}

module _ {W : Type 0} (o : Office W) where
  unfoldable pub list_adapter_routes : Request → Exec W (List AdapterRouteSummary)
  unfolding with_session
  list_adapter_routes request = do
    principal ← principal_of o request
    with_session o (do
      tenant_id ← uuid_of o principal.tenant_id
      rows ← gets (λ w. AdapterRoutes.list_for_tenant o.before tenant_id (o.routes w))
      pure (map route_summary rows))

  -- An id is drawn also where the row exists, and then not used.
  -- The row that `upsert` returns is the one it found, changed, or the new one.
  abbrev pub upserted : String → ℕ → RouteKey → RouteValues → List AdapterRoute → AdapterRoute
  upserted id now k v rows = elim (AdapterRoutes.get_by_unique k rows) [
    | some existing ↦ AdapterRoutes.written v existing
    | none ↦ AdapterRoutes.new_row id now k v
  ]

  abbrev pub upsert_row : String → RouteKey → RouteValues → Exec W AdapterRoute
  upsert_row id k v w = (
    ok (upserted id (o.backend.now w) k v (o.routes w)),
    o.set_routes (AdapterRoutes.upsert id (o.backend.now w) k v (o.routes w)) w,
  )

  -- A key without the wildcard changes the routes of its own tenant alone.
  abbrev pub may_change : AuthenticatedPrincipal → String → Bool
  may_change principal tenant_id =
      not (not (contains "*" principal.scopes) && not (tenant_id == principal.tenant_id))

  unfoldable pub upsert_for :
      AuthenticatedPrincipal → UpsertAdapterRouteRequest → String → Exec W AdapterRouteSummary
  upsert_for principal payload tenant_id =
      if may_change principal tenant_id
      then (do
        id ← draw_id o
        row ← upsert_row id (key_of tenant_id payload) (values_of payload)
        pure (route_summary row))
      else raise (http 403)

  unfoldable pub upsert_body :
      AuthenticatedPrincipal → UpsertAdapterRouteRequest → Exec W AdapterRouteSummary
  unfolding upsert_for
  upsert_body principal payload = do
    checked o (is_valid_upsert payload)
    tenant_id ← uuid_of o (asked_tenant payload principal)
    upsert_for principal payload tenant_id

  unfoldable pub upsert_adapter_route :
      Request → UpsertAdapterRouteRequest → Exec W AdapterRouteSummary
  unfolding with_session upsert_body
  upsert_adapter_route request payload = do
    principal ← principal_of o request
    with_session o (upsert_body principal payload)

  abbrev pub found_row : Option AdapterRoute → Exec W (Unit {0})
  found_row none = raise (http 404)
  found_row (some row) = pure tt

  abbrev pub disable_row : RouteKey → Exec W (Unit {0})
  disable_row k w =
      let (row, rows) = AdapterRoutes.disable k (o.routes w) in found_row row (o.set_routes rows w)

  unfoldable pub disable_body : AuthenticatedPrincipal → String → String → Exec W (Unit {0})
  disable_body principal model_alias stage = do
    tenant_id ← uuid_of o principal.tenant_id
    disable_row (record { tenant_id = tenant_id; model_alias = model_alias; stage = stage })

  unfoldable pub disable_adapter_route : Request → String → String → Exec W (Unit {0})
  unfolding with_session disable_body
  disable_adapter_route request model_alias stage = do
    principal ← principal_of o request
    with_session o (disable_body principal model_alias stage)
