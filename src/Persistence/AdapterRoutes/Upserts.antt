-- ===== src/Persistence/AdapterRoutes/Upserts.antt =====
-- Lookups after `AdapterRouteRepository.upsert` and `disable` of
-- persistence/repositories/adapter_route_repository.py.
use llmops_gateway.Prelude.{
  ℕ, String, ◌≡◌, refl, ap, true, false, none, some, List, [], ◌∷◌, ◌++◌, string_eq, eq_iff, first,
  arith, Bool-cases, Option-cases, inl, inr, if◌then◌else◌,
}
use llmops_gateway.Persistence.AdapterRoutes.{
  AdapterRoute, RouteKey, RouteValues, has_key, get_by_unique, written, new_row, change_first,
  upsert, clamp_percent,
}

-- A change that keeps the key fields.
abbrev KeepsKey : (AdapterRoute → AdapterRoute) → Type 0
KeepsKey change = (k : RouteKey) (row : AdapterRoute) → has_key k (change row) ≡ has_key k row

first-change_self :
    (k : RouteKey) (change : AdapterRoute → AdapterRoute) (rows : List AdapterRoute)
    {row : AdapterRoute}
    → KeepsKey change
    → first (has_key k) rows ≡ some row
    → first (has_key k) (change_first (has_key k) change rows) ≡ some (change row)
first-change_self k change [] keep h = cc
first-change_self k change (r ∷ rows) {row} keep h = elim (Bool-cases (has_key k r)) [
  | inl here ↦
      let same : some r ≡ some row = rw here at h in rw here (rw (keep k r, here) (cc same))
  | inr there ↦ rw there (rw there (first-change_self k change rows keep (rw there at h)))
]

first-append :
    (k : RouteKey) (rows : List AdapterRoute) (row : AdapterRoute)
    → first (has_key k) rows ≡ none
    → has_key k row ≡ true
    → first (has_key k) (rows ++ (row ∷ [])) ≡ some row
first-append k [] row h e = rw e
first-append k (r ∷ rows) row h e = elim (Bool-cases (has_key k r)) [
  | inl here ↦ cc (rw here at h)
  | inr there ↦ rw there (first-append k rows row (rw there at h) e)
]

has_key-new_row :
    (id : String) (now : ℕ) (k : RouteKey) (v : RouteValues) → has_key k (new_row id now k v) ≡ true
has_key-new_row id now k v = ground (
  arith,
  eq_iff k.tenant_id k.tenant_id,
  eq_iff k.model_alias k.model_alias,
  eq_iff k.stage k.stage,
)

-- After an upsert the lookup by its key finds a row with the values written, enabled as asked, and
-- with the percentage clamped to a hundred.
pub get_by_unique-upsert :
    (id : String) (now : ℕ) (k : RouteKey) (v : RouteValues) (rows : List AdapterRoute)
    → (row : AdapterRoute) × (get_by_unique k (upsert id now k v rows) ≡ some row)
      × (row.base_model ≡ v.base_model)
      × (row.adapter_id ≡ v.adapter_id)
      × (row.enabled ≡ v.enabled)
      × (row.canary_percent ≡ clamp_percent v.canary_percent)
unfolding upsert
get_by_unique-upsert id now k v rows = elim (Option-cases (first (has_key k) rows)) [
  | inl absent ↦ (
    new_row id now k v,
    rw (absent, upsert)
        (first-append k rows (new_row id now k v) absent (has_key-new_row id now k v)),
    refl,
    refl,
    refl,
    refl,
  )
  | inr (row, e) ↦ (
    written v row,
    rw (e, upsert) (first-change_self k (written v) rows (λ j r. refl) e),
    refl,
    refl,
    refl,
    refl,
  )
]

key_fields :
    (id : String) (now : ℕ) (k j : RouteKey) (v : RouteValues) (r : AdapterRoute)
    → has_key k r ≡ true
    → has_key j (new_row id now k v) ≡ false
    → has_key j r ≡ false
key_fields id now k j v r h other = ground (
  arith,
  eq_iff r.tenant_id k.tenant_id,
  eq_iff r.model_alias k.model_alias,
  eq_iff r.stage k.stage,
)

first-change_other :
    (id : String) (now : ℕ) (k j : RouteKey) (v : RouteValues) (rows : List AdapterRoute)
    → has_key j (new_row id now k v) ≡ false
    → first (has_key j) (change_first (has_key k) (written v) rows) ≡ first (has_key j) rows
first-change_other id now k j v [] other = refl
first-change_other id now k j v (r ∷ rows) other = elim (Bool-cases (has_key k r)) [
  | inl here ↦ rw here (rw (key_fields id now k j v r here other))
  | inr there ↦ rw there (
      ap (λ rest. if has_key j r then some r else rest)
        (first-change_other id now k j v rows other))
]

first-append_other :
    (j : RouteKey) (rows : List AdapterRoute) (row : AdapterRoute)
    → has_key j row ≡ false
    → first (has_key j) (rows ++ (row ∷ [])) ≡ first (has_key j) rows
first-append_other j [] row e = rw e
first-append_other j (r ∷ rows) row e =
    ap (λ rest. if has_key j r then some r else rest) (first-append_other j rows row e)

-- An upsert changes no lookup by another key: one that differs in the tenant, the alias or the
-- stage.
pub get_by_unique-upsert_other :
    (id : String) (now : ℕ) (k j : RouteKey) (v : RouteValues) (rows : List AdapterRoute)
    → has_key j (new_row id now k v) ≡ false
    → get_by_unique j (upsert id now k v rows) ≡ get_by_unique j rows
unfolding upsert
get_by_unique-upsert_other id now k j v rows other = elim (Option-cases (first (has_key k) rows)) [
  | inl absent ↦ rw (absent, upsert) (first-append_other j rows (new_row id now k v) other)
  | inr (row, e) ↦ rw (e, upsert) (first-change_other id now k j v rows other)
]
