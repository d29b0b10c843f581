-- ===== src/Persistence/Pricing.antt =====
-- persistence/repositories/pricing_repository.py over the rows of `model_pricing`, with
-- persistence/models/model_pricing.py. Prices are numbers of the unit in which they are stored.
pub mod Active
use llmops_gateway.Prelude.{
  ℕ, String, Bool, true, Option, none, some, List, [], ◌∷◌, ◌++◌, ◌&&◌, ◌==◌, string_eq, leb, ltb,
  select, sort_by, if◌then◌else◌,
}

pub record PricingRow : Type 0 where
  pub id : String
  pub provider : String
  pub model_name : String
  pub input_price_per_1k : ℕ
  pub output_price_per_1k : ℕ
  pub currency : String
  pub effective_from : ℕ
  pub effective_to : Option ℕ

-- `effective_to` is null or later.
abbrev pub ends_after : ℕ → Option ℕ → Bool
ends_after at none = true
ends_after at (some to) = ltb at to

abbrev pub covers : String → String → ℕ → PricingRow → Bool
covers provider model at row =
    (row.provider == provider)
    && (row.model_name == model)
    && leb row.effective_from at
    && ends_after at row.effective_to

-- `ORDER BY effective_from DESC LIMIT 1`: of rows that tie, the first.
abbrev pub latest : Option PricingRow → List PricingRow → Option PricingRow
latest best [] = best
latest none (row ∷ rows) = latest (some row) rows
latest (some best) (row ∷ rows) =
    latest (some (if ltb best.effective_from row.effective_from then row else best)) rows

unfoldable pub get_active_price : String → String → ℕ → List PricingRow → Option PricingRow
get_active_price provider model at rows = latest none (select (covers provider model at) rows)

unfoldable pub create :
    String → String → String → ℕ → ℕ → String → ℕ → Option ℕ → List PricingRow → List PricingRow
create id provider model_name input output currency effective_from effective_to rows =
    rows
    ++ (record {
      id = id;
      provider = provider;
      model_name = model_name;
      input_price_per_1k = input;
      output_price_per_1k = output;
      currency = currency;
      effective_from = effective_from;
      effective_to = effective_to;
    }
        ∷ [])

-- The prices that are in force. `before` is the order in which the database sorts texts.
unfoldable pub list_active : (String → String → Bool) → ℕ → List PricingRow → List PricingRow
list_active before at rows =
    sort_by
      (λ a b.
        if a.provider == b.provider
        then if a.model_name == b.model_name
          then leb b.effective_from a.effective_from
          else before a.model_name b.model_name
        else before a.provider b.provider)
      (select (λ row. leb row.effective_from at && ends_after at row.effective_to) rows)
