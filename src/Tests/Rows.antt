-- ===== src/Tests/Rows.antt =====
-- Lookups in small tables.
use llmops_gateway.Prelude.{
  arith, ℕ, ◌≡◌, String, true, false, Option, none, some, List, [], ◌∷◌, refl, string_eq,
}
use llmops_gateway.Prelude.Int.{pos}
use llmops_gateway.Persistence.AdapterRoutes.{AdapterRoute, RouteKey, RouteValues, get_active}
use llmops_gateway.Persistence.AdapterRoutes.Canary.{staging_share, staging_share_exact}
use llmops_gateway.Persistence.Pricing.{PricingRow}

abbrev route : String → ℕ → AdapterRoute
route stage percent = record {
  id = stage;
  tenant_id = "a";
  model_alias = "fast";
  base_model = "gpt-4o";
  adapter_id = stage;
  stage = stage;
  enabled = true;
  canary_percent = percent;
  created_at = 0;
}

abbrev routes : List AdapterRoute
routes = route "Production" 0 ∷ route "Staging" 20 ∷ []

abbrev key_of : String → RouteKey
key_of stage = record { tenant_id = "a"; model_alias = "fast"; stage = stage }

abbrev values : RouteValues
values = record { base_model = "m"; adapter_id = "x"; enabled = false; canary_percent = pos 300 }

production_active : get_active (key_of "Production") routes ≡ some (route "Production" 0)
unfolding get_active
production_active = refl

staging_active : get_active (key_of "Staging") routes ≡ some (route "Staging" 20)
unfolding get_active
staging_active = refl

staging_share_exact_example : staging_share "a" "fast" "trace" routes 100 ≡ 20
staging_share_exact_example =
    staging_share_exact "a" "fast" "trace" routes production_active staging_active (omega arith)

abbrev priced : String → ℕ → Option ℕ → PricingRow
priced id from to = record {
  id = id;
  provider = "openai";
  model_name = "gpt-4o";
  input_price_per_1k = 25;
  output_price_per_1k = 100;
  currency = "USD";
  effective_from = from;
  effective_to = to;
}

abbrev prices : List PricingRow
prices = priced "old" 0 (some 50) ∷ priced "new" 40 none ∷ priced "later" 90 none ∷ []
