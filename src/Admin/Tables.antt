-- ===== src/Admin/Tables.antt =====
-- The handlers for tenants and prices of api/v1/admin.py.
use llmops_gateway.Prelude.{
  ℕ, zero, suc, String, Bool, true, false, ◌&&◌, Option, none, or_else, List, map,
}
use llmops_gateway.Prelude.Int.{ℤ, pos, negsuc, pos_part}
use llmops_gateway.Errors.{Exec, ◌>>=◌, ◌>>◌, pure, gets, modify}
use llmops_gateway.Persistence.ApiKeys.{TenantRow}
use llmops_gateway.Persistence.Tenants
use llmops_gateway.Persistence.Pricing
use llmops_gateway.Persistence.Pricing.{PricingRow}
use llmops_gateway.Admin.{Office, between, checked, draw_id, with_session}

pub record CreateTenantRequest : Type 0 where
  pub name : String
  pub slug : String

pub record TenantSummary : Type 0 where
  pub id : String
  pub name : String
  pub slug : String
  pub status : String

abbrev pub tenant_summary : TenantRow → TenantSummary
tenant_summary t = record { id = t.id; name = t.name; slug = t.slug; status = t.status }

pub record CreatePricingRequest : Type 0 where
  pub provider : String
  pub model_name : String
  pub input_price_per_1k : ℤ
  pub output_price_per_1k : ℤ
  pub currency : String
  pub effective_from : Option ℕ

pub record PricingSummary : Type 0 where
  pub id : String
  pub provider : String
  pub model_name : String
  pub input_price_per_1k : ℕ
  pub output_price_per_1k : ℕ
  pub currency : String
  pub effective_from : ℕ
  pub effective_to : Option ℕ

abbrev pub price_summary : PricingRow → PricingSummary
price_summary row = record {
  id = row.id;
  provider = row.provider;
  model_name = row.model_name;
  input_price_per_1k = row.input_price_per_1k;
  output_price_per_1k = row.output_price_per_1k;
  currency = row.currency;
  effective_from = row.effective_from;
  effective_to = row.effective_to;
}

-- `gt=0`
abbrev pub positive : ℤ → Bool
positive (pos zero) = false
positive (pos (suc n)) = true
positive (negsuc n) = false

module _ {W : Type 0} (o : Office W) where
  unfoldable pub list_tenants : Exec W (List TenantSummary)
  unfolding with_session
  list_tenants = with_session o (do
    tenants ← gets (λ w. Tenants.list_all (o.backend.db w))
    pure (map tenant_summary tenants))

  abbrev pub add_tenant : String → CreateTenantRequest → Exec W TenantRow
  add_tenant id payload w =
      let (r, db) = Tenants.create id payload.name payload.slug "active" (o.backend.db w) in
      (r, o.backend.set_db db w)

  unfoldable pub create_tenant : CreateTenantRequest → Exec W TenantSummary
  unfolding with_session
  create_tenant payload = with_session o (do
    checked o (between 1 255 payload.name && between 1 255 payload.slug)
    id ← draw_id o
    tenant ← add_tenant id payload
    pure (tenant_summary tenant))

  unfoldable pub list_pricing : Exec W (List PricingSummary)
  unfolding with_session
  list_pricing = with_session o (do
    rows ← gets (λ w. Pricing.list_active o.before (o.backend.now w) (o.prices w))
    pure (map price_summary rows))

  abbrev pub new_price : String → CreatePricingRequest → ℕ → PricingRow
  new_price id payload effective_from = record {
    id = id;
    provider = payload.provider;
    model_name = payload.model_name;
    input_price_per_1k = pos_part payload.input_price_per_1k;
    output_price_per_1k = pos_part payload.output_price_per_1k;
    currency = payload.currency;
    effective_from = effective_from;
    effective_to = none;
  }

  abbrev pub add_price : String → CreatePricingRequest → ℕ → W → W
  add_price id payload effective_from w =
      o.set_prices
        (Pricing.create id payload.provider payload.model_name (pos_part payload.input_price_per_1k)
          (pos_part payload.output_price_per_1k) payload.currency effective_from none (o.prices w))
        w

  unfoldable pub create_pricing : CreatePricingRequest → Exec W PricingSummary
  unfolding with_session
  create_pricing payload = with_session o (do
    checked o (positive payload.input_price_per_1k && positive payload.output_price_per_1k)
    now ← gets o.backend.now
    id ← draw_id o
    let effective_from = or_else payload.effective_from now
    modify (add_price id payload effective_from)
    pure (price_summary (new_price id payload effective_from)))
