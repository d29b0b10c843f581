-- ===== src/Persistence/Tenants.antt =====
-- persistence/repositories/tenant_repository.py over the rows of `tenants`, which stand in the order
-- of their creation. A slug is unique.
use llmops_gateway.Prelude.{
  String, Option, List, [], ◌∷◌, ◌++◌, ◌==◌, string_eq, first, is_some, if◌then◌else◌,
}
use llmops_gateway.Errors.{Result, ok, err, other}
use llmops_gateway.Persistence.ApiKeys.{TenantRow, KeyTables}

unfoldable pub list_all : KeyTables → List TenantRow
list_all db = db.tenants

unfoldable pub get_by_id : KeyTables → String → Option TenantRow
get_by_id db tenant_id = first (λ t. t.id == tenant_id) db.tenants

-- `id` is the key that the database gives the new row.
unfoldable pub create : String → String → String → String → KeyTables → Result TenantRow × KeyTables
create id name slug status db =
    let tenant : TenantRow = record { id = id; name = name; slug = slug; status = status } in
    if is_some (first (λ t. t.slug == slug) db.tenants)
    then (err (other "IntegrityError"), db)
    else (ok tenant, record db { tenants = db.tenants ++ (tenant ∷ []) })
