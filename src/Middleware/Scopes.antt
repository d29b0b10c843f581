-- ===== src/Middleware/Scopes.antt =====
-- middleware/scopes.py and middleware/exempt_paths.py. `str.upper` is a parameter.
use Prim.Native.String.{◌++◌}
use llmops_gateway.Prelude.Texts.{
  starts_with, compatible, starts_with-compatible, starts_with_either,
}
use llmops_gateway.Prelude.{
  String, ◌≡◌, refl, Bool, true, false, Option, none, some, List, [], ◌∷◌, ◌&&◌, ◌||◌, ◌==◌,
  string_eq, eq_iff, first, contains, arith, Bool-cases, subst, inl, inr,
}

abbrev pub exempt_paths : List String
exempt_paths = "/health" ∷ "/health/ready" ∷ "/docs" ∷ "/openapi.json" ∷ "/redoc" ∷ "/metrics" ∷ []

unfoldable pub is_exempt_path : String → Bool
is_exempt_path path = contains path exempt_paths || starts_with path "/metrics/"

pub record RouteScope : Type 0 where
  pub prefix : String
  pub route_method : String
  pub scopes : List String

abbrev route : String → String → List String → RouteScope
route prefix route_method scopes = record {
  prefix = prefix;
  route_method = route_method;
  scopes = scopes;
}

abbrev pub route_scopes : List RouteScope
route_scopes =
    route "/v1/chat/completions" "POST" ("chat:write" ∷ [])
    ∷ route "/v1/embeddings" "POST" ("embeddings:write" ∷ [])
    ∷ route "/v1/admin" "GET" ("admin:read" ∷ "admin:write" ∷ [])
    ∷ route "/v1/admin" "POST" ("admin:write" ∷ [])
    ∷ route "/v1/admin" "PUT" ("admin:write" ∷ [])
    ∷ route "/v1/admin" "PATCH" ("admin:write" ∷ [])
    ∷ route "/v1/admin" "DELETE" ("admin:write" ∷ [])
    ∷ []

abbrev pub under : String → String → Bool
under path prefix = path == prefix || starts_with path (prefix ++ "/")

abbrev pub matches : String → String → RouteScope → Bool
matches path method r = method == r.route_method && under path r.prefix

abbrev pub scopes_of : Option RouteScope → Option (List String)
scopes_of none = none
scopes_of (some r) = some r.scopes

-- The loop over the table, in order.
unfoldable pub required_scopes_for_request :
    (String → String) → String → String → Option (List String)
required_scopes_for_request upper path method =
    scopes_of (first (matches path (upper method)) route_scopes)

-- `bool(scopes & required)`
abbrev pub intersects : List String → List String → Bool
intersects scopes [] = false
intersects scopes (r ∷ required) = contains r scopes || intersects scopes required

unfoldable pub principal_has_any_scope : List String → List String → Bool
principal_has_any_scope scopes required = contains "*" scopes || intersects scopes required

-- No path is under two prefixes of which neither begins with the other.
under_disjoint :
    (path p q : String) → compatible p q ≡ false → under path p ≡ true → under path q ≡ false
under_disjoint path p q apart h = elim (Bool-cases (under path q)) [
  | inl both ↦ cc (
    apart,
    starts_with-compatible path p q (starts_with_either path p "/" h)
        (starts_with_either path q "/" both),
  )
  | inr no_q ↦ no_q
]

module _ (path : String) (under_admin : under path "/v1/admin" ≡ true) where
  abbrev Writes : String → Type 0
  Writes m = scopes_of (first (matches path m) route_scopes) ≡ some ("admin:write" ∷ [])

  Writes-post : Writes "POST"
  Writes-post = rw (
    under_disjoint path "/v1/admin" "/v1/chat/completions" refl under_admin,
    under_disjoint path "/v1/admin" "/v1/embeddings" refl under_admin,
    under_admin,
  )

  Writes-cases :
      (m : String) → contains m ("POST" ∷ "PUT" ∷ "PATCH" ∷ "DELETE" ∷ []) ≡ true → Writes m
  Writes-cases m h = elim (Bool-cases ("POST" == m)) [
    | inl is ↦ subst Writes ((eq_iff "POST" m).0 is) Writes-post
    | inr no_post ↦ elim (Bool-cases ("PUT" == m)) [
      | inl is ↦ subst Writes ((eq_iff "PUT" m).0 is) (rw under_admin)
      | inr no_put ↦ elim (Bool-cases ("PATCH" == m)) [
        | inl is ↦ subst Writes ((eq_iff "PATCH" m).0 is) (rw under_admin)
        | inr no_patch ↦ elim (Bool-cases ("DELETE" == m)) [
          | inl is ↦ subst Writes ((eq_iff "DELETE" m).0 is) (rw under_admin)
          | inr no_delete ↦ cc (rw (no_post, no_put, no_patch, no_delete) at h)
        ]
      ]
    ]
  ]

-- A request of the admin API whose method writes asks for the write scope: for every path under
-- the admin prefix, a principal satisfies it exactly with the wildcard or with that scope.
pub admin_needs_write :
    (upper : String → String) (path method : String) (scopes : List String)
    → under path "/v1/admin" ≡ true
    → contains (upper method) ("POST" ∷ "PUT" ∷ "PATCH" ∷ "DELETE" ∷ []) ≡ true
    → (required : List String) × (required_scopes_for_request upper path method ≡ some required)
      × (principal_has_any_scope scopes required
          ≡ contains "*" scopes || contains "admin:write" scopes)
unfolding required_scopes_for_request principal_has_any_scope
admin_needs_write upper path method scopes under_admin writes =
    ("admin:write" ∷ [], Writes-cases path under_admin (upper method) writes, ground arith)
