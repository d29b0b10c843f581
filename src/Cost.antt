-- ===== src/Cost.antt =====
-- `CostService` of services/cost_service.py. Prices are exact numbers of the unit in which they
-- are stored; a cost is the sum of tokens times price, in thousandths of that unit.
pub mod Total
use Prim.Native.Char.{code}
use Prim.Native.String.{◌++◌}
use Prim.Native.String
use llmops_gateway.Prelude.{
  ℕ, ◌+◌, ◌*◌, String, Bool, Option, none, some, List, ◌==◌, string_eq, nat_eq, if◌then◌else◌,
}
use llmops_gateway.Domain.Chat.{TokenUsage}
use llmops_gateway.Domain.ModelIdentifier.{ModelIdentifier, to_string}
use llmops_gateway.Errors.{Exn, Result, ok, err, Exec, ◌>>=◌, ◌>>◌, pure}
use llmops_gateway.Clients.{Redis}
use llmops_gateway.Persistence.Pricing.{PricingRow, get_active_price}
use llmops_gateway.Caching.ExactCache.{recover}

abbrev pub no_price_sentinel : String
no_price_sentinel = "NONE"

-- The object, with how Python prints and parses a price. `outage` is the exception that opening a
-- session raises now, if any; `is_redis_error` says of an exception that it is a `RedisError`.
pub record CostConfig (W : Type 0) : Type 0 where
  pub redis : Redis W
  pub is_redis_error : Exn → Bool
  pub ttl_seconds : ℕ
  pub rows : W → List PricingRow
  pub outage : W → Option Exn
  pub now : W → ℕ
  pub print_price : ℕ → String
  pub parse_price : String → Option ℕ

-- `raw.partition(",")`, less the separator.
unfoldable pub partition_comma : String → String × String
partition_comma String.[] = ("", "")
partition_comma (String.◌∷◌ ch s) =
    let rest = partition_comma s in
    if code ch == b',' then ("", s) else (String.◌∷◌ ch rest.0, rest.1)

abbrev pub both : Option ℕ → Option ℕ → Option (ℕ × ℕ)
both none b = none
both (some a) none = none
both (some a) (some b) = some (a, b)

module _ {W : Type 0} (c : CostConfig W) where
  unfoldable pub encode_pricing : ℕ × ℕ → String
  encode_pricing (input, output) = c.print_price input ++ ("," ++ c.print_price output)

  unfoldable pub decode_pricing : String → Option (ℕ × ℕ)
  unfolding partition_comma
  decode_pricing raw =
      let (input, output) = partition_comma raw in both (c.parse_price input) (c.parse_price output)

  abbrev pub prices_of : Option PricingRow → Option (ℕ × ℕ)
  prices_of none = none
  prices_of (some row) = some (row.input_price_per_1k, row.output_price_per_1k)

  -- Any exception counts as no price.
  unfoldable pub load_from_database : ModelIdentifier → W → Option (ℕ × ℕ)
  load_from_database model w = elim (c.outage w) [
    | some e ↦ none
    | none ↦ prices_of (get_active_price model.provider model.model (c.now w) (c.rows w))
  ]

  abbrev pub cache_value : Option (ℕ × ℕ) → String
  cache_value none = no_price_sentinel
  cache_value (some pricing) = encode_pricing pricing

  unfoldable pub after_cached : ModelIdentifier → Option String → Exec W (Option (ℕ × ℕ))
  unfolding decode_pricing load_from_database recover
  after_cached model (some cached) w =
      (ok (if cached == no_price_sentinel then none else decode_pricing cached), w)
  after_cached model none w =
      let pricing = load_from_database model w in
      (do
        recover c.is_redis_error tt
            (c.redis.set ("pricing:" ++ to_string model) (cache_value pricing) c.ttl_seconds)
        pure pricing)
        w

  unfoldable pub get_pricing : ModelIdentifier → Exec W (Option (ℕ × ℕ))
  unfolding after_cached
  get_pricing model = do
    cached ← recover c.is_redis_error none (c.redis.get ("pricing:" ++ to_string model))
    after_cached model cached

  abbrev pub cost_of : TokenUsage → Option (ℕ × ℕ) → ℕ
  cost_of usage none = 0
  cost_of usage (some (input, output)) = usage.input_tokens * input + usage.output_tokens * output

  unfoldable pub calculate_cost_usd : ModelIdentifier → TokenUsage → Exec W ℕ
  unfolding get_pricing
  calculate_cost_usd model usage = do pricing ← get_pricing model; pure (cost_of usage pricing)
