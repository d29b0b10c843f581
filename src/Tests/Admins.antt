-- ===== src/Tests/Admins.antt =====
-- The administrator of a tenant, with the tables as the world.
use llmops_gateway.Prelude.{
  ◌≡◌, refl, ap, sym, String, true, false, Option, none, some, List, [], ◌∷◌, ◌==◌, string_eq,
}
use llmops_gateway.Prelude.Int.{pos}
use llmops_gateway.Errors.{http, ok, err}
use llmops_gateway.Security.{hash_api_key, generate_api_key}
use llmops_gateway.Auth.{AuthenticatedPrincipal, Backend}
use llmops_gateway.Persistence.ApiKeys
use llmops_gateway.Persistence.ApiKeys.{ApiKeyRow, KeyTables, TenantRow, get_active_by_key_hash}
use llmops_gateway.Persistence.AdapterRoutes.{AdapterRoute}
use llmops_gateway.Persistence.Pricing.{PricingRow}
use llmops_gateway.Middleware.Access.{Request}
use llmops_gateway.Admin.{Office, OfficeLaws, get_authenticated_principal}
use llmops_gateway.Admin.Keys.{
  CreateApiKeyRequest, CreateApiKeyResponse, create_api_key, revoke_api_key,
}
use llmops_gateway.Admin.Routes.{UpsertAdapterRouteRequest, upsert_adapter_route}
use llmops_gateway.Admin.Issued.{issued, drawn, create_api_key-get_active}
use llmops_gateway.Admin.Isolation.{
  of_others, upsert_adapter_route-others, revoke_api_key-not_owned,
}
use llmops_gateway.Tests.Caches.{service, World, start}

pub record Tables : Type 0 where
  pub world : World
  pub routes : List AdapterRoute
  pub prices : List PricingRow

abbrev in_world : Tables → World → Tables
in_world t w = record t { world = w }

abbrev backend : Backend Tables
backend = record {
  redis = record {
    get = λ k w. (ok none, w);
    set = λ k v ttl w. (ok tt, w);
    set_nx = λ k v ttl w. (ok true, w);
    delete = λ k w. (ok tt, w);
  };
  sha256 = service.sha256;
  pepper = "";
  cache_ttl_seconds = 60;
  dumps = service.dumps;
  loads = service.loads;
  as_text = service.as_text;
  as_number = service.as_number;
  frozenset = service.frozenset;
  text_before = service.text_before;
  db = λ w. w.world.tables;
  set_db = λ d w. record w { world = record (w.world) { tables = d } };
  outage = λ w. none;
  now = λ w. 7;
  spawn_touch = λ i w. w;
}

abbrev office : Office Tables
office = record {
  backend = backend;
  routes = λ w. w.routes;
  set_routes = λ r w. record w { routes = r };
  prices = λ w. w.prices;
  set_prices = λ p w. record w { prices = p };
  parse_uuid = λ s. some s;
  new_id = λ w. ("id", w);
  token = λ w. ("bob", w);
  before = λ a b. true;
}

office-laws : OfficeLaws office
office-laws = record {
  db_db = λ t w. refl;
  routes_routes = λ t w. refl;
  db_routes = λ t w. refl;
  db_prices = λ t w. refl;
  routes_prices = λ t w. refl;
  prices_prices = λ t w. refl;
  routes_db = λ t w. refl;
  routes_id = λ w. refl;
  db_id = λ w. refl;
  db_token = λ w. refl;
}

abbrev admin : AuthenticatedPrincipal
admin = record {
  tenant_id = "t1";
  api_key_id = "k1";
  tenant_status = "active";
  scopes = "admin:write" ∷ [];
  rate_limit_per_minute = none;
}

abbrev stranger : AuthenticatedPrincipal
stranger = record admin { tenant_id = "t2" }

abbrev asked_by : AuthenticatedPrincipal → Request
asked_by p = record {
  path = "/v1/admin";
  method = "POST";
  api_key = none;
  trace_id_header = none;
  trace_id = none;
  auth = some p;
  tenant_id = some p.tenant_id;
  api_key_id = some p.api_key_id;
  scopes = some p.scopes;
}

abbrev route_of : String → AdapterRoute
route_of tenant_id = record {
  id = "r";
  tenant_id = tenant_id;
  model_alias = "fast";
  base_model = "gpt-4o";
  adapter_id = "a";
  stage = "Production";
  enabled = true;
  canary_percent = 0;
  created_at = 0;
}

abbrev tables : Tables
tables = record { world = start; routes = route_of "t1" ∷ route_of "t2" ∷ []; prices = [] }

abbrev asks : UpsertAdapterRouteRequest
asks = record {
  model_alias = "fast";
  base_model = "gpt-5";
  adapter_id = "b";
  stage = "Production";
  enabled = true;
  canary_percent = pos 0;
  tenant_id = some "t2";
}

authenticated : (p : AuthenticatedPrincipal) → get_authenticated_principal (asked_by p) ≡ ok p
unfolding get_authenticated_principal
authenticated p = refl

upsert_adapter_route-others_example :
    of_others "t1" (office.routes (upsert_adapter_route office (asked_by admin) asks tables).1)
    ≡ of_others "t1" (office.routes tables)
upsert_adapter_route-others_example =
    upsert_adapter_route-others office office-laws admin (asked_by admin) asks tables
      (authenticated admin) refl

alice_foreign :
    (key : ApiKeyRow)
    → ApiKeys.get_by_id (backend.db tables) "k1" ≡ some key
    → (key.tenant_id == "t2") ≡ false
unfolding ApiKeys.get_by_id
alice_foreign key h =
    let same : key.tenant_id ≡ "t1" =
      ap (λ (o : Option ApiKeyRow). elim o [ none ↦ "t1" | some k ↦ k.tenant_id ]) (sym h) in
    rw same

revoke_api_key-not_owned_example :
    (w' : Tables) × (revoke_api_key office (asked_by stranger) "k1" tables ≡ (err (http 404), w'))
    × (backend.db w' ≡ backend.db tables)
revoke_api_key-not_owned_example =
    revoke_api_key-not_owned office office-laws (asked_by stranger) stranger "k1" tables
      (authenticated stranger) refl alice_foreign

abbrev key_request : CreateApiKeyRequest
key_request = record { name = "bob"; scopes = none }

abbrev tenant : TenantRow
tenant = record { id = "t1"; name = "T"; slug = "t"; status = "active" }

unused : get_active_by_key_hash (backend.db tables) (drawn office tables).1 ≡ none
unfolding get_active_by_key_hash generate_api_key hash_api_key
unused = refl

create_api_key-get_active_example :
    (response : CreateApiKeyResponse) × (w' : Tables) × (create_api_key office
        (asked_by admin)
        key_request
        tables
      ≡ (ok response, w'))
    × (response.scopes ≡ "*" ∷ [])
    × (get_active_by_key_hash
          (backend.db w')
          (hash_api_key backend.sha256 backend.pepper response.raw_key)
        ≡ some (issued response.api_key_id "t1" response.scopes tenant))
create_api_key-get_active_example =
    create_api_key-get_active office office-laws (asked_by admin) key_request admin tables "t1"
      tenant (authenticated admin) refl refl refl (λ v. refl) unused
