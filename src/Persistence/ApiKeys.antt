-- ===== src/Persistence/ApiKeys.antt =====
-- persistence/repositories/api_key_repository.py over the rows of `api_keys` and `tenants`, in the
-- order in which the database returns them, with persistence/models/api_key.py and tenant.py.
pub mod Revoked
use llmops_gateway.Prelude.{
  ℕ, String, Bool, true, false, Option, none, some, List, [], ◌∷◌, ◌++◌, ◌&&◌, ◌==◌, string_eq,
  first, map, select, is_some, not, if◌then◌else◌, sort_by, leb,
}

pub record ApiKeyRow : Type 0 where
  pub id : String
  pub tenant_id : String
  pub key_hash : String
  pub name : String
  pub scopes : List String
  pub revoked_at : Option ℕ
  pub last_used_at : Option ℕ
  pub created_at : ℕ

pub record TenantRow : Type 0 where
  pub id : String
  pub name : String
  pub slug : String
  pub status : String

pub record KeyTables : Type 0 where
  pub api_keys : List ApiKeyRow
  pub tenants : List TenantRow

-- `ApiKeyRecord`
pub record ApiKeyRecord : Type 0 where
  pub id : String
  pub tenant_id : String
  pub scopes : List String
  pub tenant_status : String
  pub revoked_at : Option ℕ

abbrev pub is_active : String → ApiKeyRow → Bool
is_active key_hash k = k.key_hash == key_hash && not (is_some k.revoked_at)

-- The join with the tenant: a key with no tenant row does not join.
abbrev pub joined_with : ApiKeyRow → Option TenantRow → Option ApiKeyRecord
joined_with k none = none
joined_with k (some t) = some (record {
  id = k.id;
  tenant_id = k.tenant_id;
  scopes = k.scopes;
  tenant_status = t.status;
  revoked_at = k.revoked_at;
})

abbrev pub joined : List TenantRow → ApiKeyRow → Option ApiKeyRecord
joined tenants k = joined_with k (first (λ t. t.id == k.tenant_id) tenants)

abbrev pub first_of : Option ApiKeyRecord → Option ApiKeyRecord → Option ApiKeyRecord
first_of none rest = rest
first_of (some r) rest = some r

abbrev pub first_joined : List TenantRow → List ApiKeyRow → Option ApiKeyRecord
first_joined tenants [] = none
first_joined tenants (k ∷ keys) = first_of (joined tenants k) (first_joined tenants keys)

unfoldable pub get_active_by_key_hash : KeyTables → String → Option ApiKeyRecord
get_active_by_key_hash db key_hash =
    first_joined db.tenants (select (is_active key_hash) db.api_keys)

unfoldable pub get_by_id : KeyTables → String → Option ApiKeyRow
get_by_id db api_key_id = first (λ k. k.id == api_key_id) db.api_keys

-- `UPDATE … WHERE id = …`
abbrev pub update_where :
    (ApiKeyRow → Bool) → (ApiKeyRow → ApiKeyRow) → List ApiKeyRow → List ApiKeyRow
update_where test change [] = []
update_where test change (k ∷ keys) =
    (if test k then change k else k) ∷ update_where test change keys

unfoldable pub touch_last_used : ℕ → String → KeyTables → KeyTables
touch_last_used now api_key_id db = record db {
  api_keys =
      update_where (λ k. k.id == api_key_id) (λ k. record k { last_used_at = some now })
        db.api_keys;
}

-- `id` is the key that the database gives the new row, and `now` its clock.
unfoldable pub create : ℕ → String → String → String → String → List String → KeyTables → KeyTables
create now id tenant_id key_hash name scopes db = record db {
  api_keys =
      db.api_keys
      ++ (record {
        id = id;
        tenant_id = tenant_id;
        key_hash = key_hash;
        name = name;
        scopes = scopes;
        revoked_at = none;
        last_used_at = none;
        created_at = now;
      }
          ∷ []);
}

-- Sets `revoked_at` of the row, once.
unfoldable pub revoke : ℕ → String → KeyTables → Bool × KeyTables
unfolding get_by_id
revoke now api_key_id db = elim (get_by_id db api_key_id) [
  | none ↦ (false, db)
  | some k ↦ if is_some k.revoked_at then (false, db) else (
    true,
    record db {
      api_keys =
          update_where (λ j. j.id == api_key_id) (λ j. record j { revoked_at = some now })
            db.api_keys;
    },
  )
]

-- The keys of a tenant, the newest first.
unfoldable pub list_by_tenant : String → KeyTables → List ApiKeyRow
list_by_tenant tenant_id db =
    sort_by (λ j k. leb k.created_at j.created_at)
      (select (λ k. k.tenant_id == tenant_id) db.api_keys)
