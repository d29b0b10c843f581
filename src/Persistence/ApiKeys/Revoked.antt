-- ===== src/Persistence/ApiKeys/Revoked.antt =====
-- What `ApiKeyRepository.revoke` of persistence/repositories/api_key_repository.py does to the
-- lookup by key hash.
use llmops_gateway.Prelude.{
  ℕ, String, ◌≡◌, refl, true, false, none, some, List, [], ◌∷◌, ◌==◌, not, string_eq, select, All,
  arith, ◌⊎◌,
}
use llmops_gateway.Persistence.ApiKeys.{
  ApiKeyRow, KeyTables, is_active, update_where, get_active_by_key_hash, revoke,
}

abbrev revoked_rows : ℕ → String → List ApiKeyRow → List ApiKeyRow
revoked_rows now i = update_where (λ k. k.id == i) (λ k. record k { revoked_at = some now })

-- The key hash is held by no other row than the one with this id.
abbrev pub OnlyRow : String → String → List ApiKeyRow → Type 0
OnlyRow h i = All (λ k. (not (k.key_hash == h) ≡ true) ⊎ ((k.id == i) ≡ true))

-- The row with this id, if any, has another key hash.
abbrev pub OtherRow : String → String → List ApiKeyRow → Type 0
OtherRow h i = All (λ k. (not (k.id == i) ≡ true) ⊎ ((k.key_hash == h) ≡ false))

select-revoked :
    (now : ℕ) (h i : String) (rows : List ApiKeyRow)
    → OnlyRow h i rows
    → select (is_active h) (revoked_rows now i rows) ≡ []
select-revoked now h i [] u = refl
select-revoked now h i (k ∷ rows) u = ground (arith, u.0, select-revoked now h i rows u.1)

select-others :
    (now : ℕ) (h i : String) (rows : List ApiKeyRow)
    → OtherRow h i rows
    → select (is_active h) (revoked_rows now i rows) ≡ select (is_active h) rows
select-others now h i [] u = refl
select-others now h i (k ∷ rows) u = ground (arith, u.0, select-others now h i rows u.1)

module _ (now : ℕ) (i : String) (db : KeyTables) (done : (revoke now i db).0 ≡ true) where
  rows_revoked : (revoke now i db).1 ≡ record db { api_keys = revoked_rows now i db.api_keys }
  unfolding revoke
  rows_revoked = ground arith

  -- A key hash that only the revoked row holds is no longer found.
  pub get_active-revoke_self :
      (h : String) → OnlyRow h i db.api_keys → get_active_by_key_hash (revoke now i db).1 h ≡ none
  unfolding get_active_by_key_hash
  get_active-revoke_self h u = rw (rows_revoked, select-revoked now h i db.api_keys u)

  -- The lookup by any other key hash is as before.
  pub get_active-revoke_other :
      (h : String)
      → OtherRow h i db.api_keys
      → get_active_by_key_hash (revoke now i db).1 h ≡ get_active_by_key_hash db h
  unfolding get_active_by_key_hash
  get_active-revoke_other h u = rw (rows_revoked, select-others now h i db.api_keys u)
