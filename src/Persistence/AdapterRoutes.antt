-- ===== src/Persistence/AdapterRoutes.antt =====
-- persistence/repositories/adapter_route_repository.py over the rows of `adapter_routes`, with
-- persistence/models/adapter_route.py. `digest` gives the number that the first eight hexadecimal
-- digits of SHA-256 stand for.
pub mod Upserts
pub mod Canary
use llmops_gateway.Prelude.{
  ℕ, ◌%◌, min, String, Bool, true, false, Option, none, some, List, [], ◌∷◌, ◌++◌, ◌&&◌, ◌==◌,
  string_eq, truthy, first, ltb, if◌then◌else◌, sort_by, select,
}
use llmops_gateway.Prelude.Int.{ℤ, pos_part}

pub record AdapterRoute : Type 0 where
  pub id : String
  pub tenant_id : String
  pub model_alias : String
  pub base_model : String
  pub adapter_id : String
  pub stage : String
  pub enabled : Bool
  pub canary_percent : ℕ
  pub created_at : ℕ

-- The unique key of the table.
pub record RouteKey : Type 0 where
  pub tenant_id : String
  pub model_alias : String
  pub stage : String

abbrev pub has_key : RouteKey → AdapterRoute → Bool
has_key k row =
    (row.tenant_id == k.tenant_id) && (row.model_alias == k.model_alias) && (row.stage == k.stage)

unfoldable pub get_active : RouteKey → List AdapterRoute → Option AdapterRoute
get_active k rows = first (λ row. has_key k row && row.enabled) rows

unfoldable pub get_by_unique : RouteKey → List AdapterRoute → Option AdapterRoute
get_by_unique k rows = first (has_key k) rows

-- `a or b` on rows, which are always true.
abbrev pub or_row : Option AdapterRoute → Option AdapterRoute → Option AdapterRoute
or_row none b = b
or_row (some a) b = some a

unfoldable pub pick_canary :
    (String → ℕ) → String → Option AdapterRoute → Option AdapterRoute → Option AdapterRoute
pick_canary digest routing_key production none = production
pick_canary digest routing_key production (some staging) =
    if ltb 0 staging.canary_percent
    then if ltb (digest routing_key % 100) staging.canary_percent
      then some staging
      else or_row production (some staging)
    else or_row production (some staging)

unfoldable pub resolve_with_canary :
    (String → ℕ)
    → String
    → String
    → String
    → Option String
    → List AdapterRoute
    → Option AdapterRoute
unfolding get_active pick_canary
resolve_with_canary digest tenant_id model_alias routing_key preferred_stage rows =
    let at = λ (stage : String).
      get_active (record { tenant_id = tenant_id; model_alias = model_alias; stage = stage })
        rows in
    elim preferred_stage [
      | none ↦ pick_canary digest routing_key (at "Production") (at "Staging")
      | some stage ↦
          if truthy (some stage)
          then at stage
          else pick_canary digest routing_key (at "Production") (at "Staging")
    ]

-- `max(0, min(100, int(canary_percent)))`
abbrev pub clamp_percent : ℤ → ℕ
clamp_percent n = min 100 (pos_part n)

-- The fields that `upsert` writes.
pub record RouteValues : Type 0 where
  pub base_model : String
  pub adapter_id : String
  pub enabled : Bool
  pub canary_percent : ℤ

abbrev pub written : RouteValues → AdapterRoute → AdapterRoute
written v row = record row {
  base_model = v.base_model;
  adapter_id = v.adapter_id;
  enabled = v.enabled;
  canary_percent = clamp_percent v.canary_percent;
}

abbrev pub new_row : String → ℕ → RouteKey → RouteValues → AdapterRoute
new_row id now k v = record {
  id = id;
  tenant_id = k.tenant_id;
  model_alias = k.model_alias;
  base_model = v.base_model;
  adapter_id = v.adapter_id;
  stage = k.stage;
  enabled = v.enabled;
  canary_percent = clamp_percent v.canary_percent;
  created_at = now;
}

-- The change to the row that the query found, the first that passes.
abbrev pub change_first :
    (AdapterRoute → Bool) → (AdapterRoute → AdapterRoute) → List AdapterRoute → List AdapterRoute
change_first test change [] = []
change_first test change (row ∷ rows) =
    if test row then change row ∷ rows else row ∷ change_first test change rows

-- `id` is the key that the database would give a new row, and `now` its clock.
unfoldable pub upsert : String → ℕ → RouteKey → RouteValues → List AdapterRoute → List AdapterRoute
unfolding get_by_unique
upsert id now k v rows = elim (get_by_unique k rows) [
  | some existing ↦ change_first (has_key k) (written v) rows
  | none ↦ rows ++ (new_row id now k v ∷ [])
]

unfoldable pub disable : RouteKey → List AdapterRoute → Option AdapterRoute × List AdapterRoute
unfolding get_by_unique
disable k rows = elim (get_by_unique k rows) [
  | none ↦ (none, rows)
  | some row ↦ (
    some (record row { enabled = false }),
    change_first (has_key k) (λ r. record r { enabled = false }) rows,
  )
]

-- The routes of a tenant. `before` is the order in which the database sorts texts.
unfoldable pub list_for_tenant :
    (String → String → Bool) → String → List AdapterRoute → List AdapterRoute
list_for_tenant before tenant_id rows =
    sort_by
      (λ a b.
        if a.model_alias == b.model_alias
        then before a.stage b.stage
        else before a.model_alias b.model_alias)
      (select (λ row. row.tenant_id == tenant_id) rows)
