-- ===== src/Persistence/AdapterRoutes/Canary.antt =====
-- Which stage `AdapterRouteRepository.resolve_with_canary` of
-- persistence/repositories/adapter_route_repository.py picks.
use native.Mathlib.Nat.{mod-eq_of_lt}
use llmops_gateway.Prelude.{
  ℕ, zero, suc, min, ◌≤◌, ◌%◌, String, Bool, false, ◌&&◌, ◌==◌, string_eq, eq_iff, Bool-cases, inl,
  inr, first_passes, ◌≡◌, Option, none, some, List, arith, ltb, if◌then◌else◌,
}
use llmops_gateway.Persistence.AdapterRoutes.{
  AdapterRoute, has_key, get_active, resolve_with_canary,
}

abbrev pub active_at : String → String → List AdapterRoute → String → Option AdapterRoute
active_at tenant_id model_alias rows stage =
    get_active (record { tenant_id = tenant_id; model_alias = model_alias; stage = stage }) rows

resolve_with_canary-split :
    (digest : String → ℕ) (tenant_id model_alias routing_key : String) (rows : List AdapterRoute)
    {production staging : AdapterRoute}
    → active_at tenant_id model_alias rows "Production" ≡ some production
    → active_at tenant_id model_alias rows "Staging" ≡ some staging
    → resolve_with_canary digest tenant_id model_alias routing_key none rows ≡ (
        if ltb (digest routing_key % 100) staging.canary_percent
        then some staging
        else some production)
unfolding resolve_with_canary
resolve_with_canary-split digest tenant_id model_alias routing_key rows p s = ground arith

-- The stage that an answer names.
abbrev pub in_stage : String → Option AdapterRoute → Bool
in_stage stage none = false
in_stage stage (some row) = row.stage == stage

active_at_stage :
    (tenant_id model_alias : String) (rows : List AdapterRoute) (stage : String)
    {row : AdapterRoute}
    → active_at tenant_id model_alias rows stage ≡ some row
    → row.stage ≡ stage
unfolding get_active
active_at_stage tenant_id model_alias rows stage {row} h = ground (
  arith,
  first_passes
      (λ r.
        has_key (record { tenant_id = tenant_id; model_alias = model_alias; stage = stage }) r
        && r.enabled)
      rows h,
  eq_iff row.stage stage,
)

module _ (tenant_id model_alias routing_key : String) (rows : List AdapterRoute) where
  -- Of the digests below `n`, those whose requests go to staging.
  abbrev pub staging_share : ℕ → ℕ
  staging_share zero = 0
  staging_share (suc n) =
      let rest = staging_share n in
      if in_stage "Staging"
        (resolve_with_canary (λ key. n) tenant_id model_alias routing_key none rows)
      then suc rest
      else rest

  staging_share-min :
      (n : ℕ) {production staging : AdapterRoute}
      → active_at tenant_id model_alias rows "Production" ≡ some production
      → active_at tenant_id model_alias rows "Staging" ≡ some staging
      → n ≤ 100
      → staging_share n ≡ min n staging.canary_percent
  staging_share-min zero p s h = omega arith
  staging_share-min (suc n) {production} {staging} p s h =
      let rest = staging_share-min n p s (omega arith) in
      let small : n % 100 ≡ n = mod-eq_of_lt (omega arith) in
      let at_production = active_at_stage tenant_id model_alias rows "Production" p in
      let at_staging = active_at_stage tenant_id model_alias rows "Staging" s in
      let split = resolve_with_canary-split (λ key. n) tenant_id model_alias routing_key rows p s in
      elim (Bool-cases (ltb n staging.canary_percent)) [
        | inl below ↦ rw (split, small, below, at_staging) (ground (arith, rest))
        | inr above ↦ rw (split, small, above, at_production) (ground (arith, rest))
      ]

  -- With no preferred stage, active routes in both stages and a percentage of at most a hundred:
  -- of the digests from 0 to 99 of routing keys, exactly that many go to staging.
  pub staging_share_exact :
      {production staging : AdapterRoute}
      → active_at tenant_id model_alias rows "Production" ≡ some production
      → active_at tenant_id model_alias rows "Staging" ≡ some staging
      → staging.canary_percent ≤ 100
      → staging_share 100 ≡ staging.canary_percent
  staging_share_exact p s h = omega (arith, staging_share-min 100 p s (omega arith))
