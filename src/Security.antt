-- ===== src/Security.antt =====
-- security/api_keys.py. SHA-256 in hexadecimal is a parameter.
use Prim.Native.String.{◌++◌, count}
use llmops_gateway.Prelude.Texts.{starts_with}
use llmops_gateway.Prelude.{String, Bool, ◌&&◌, ◌==◌, string_eq, ltb}

abbrev pub api_key_prefix : String
api_key_prefix = "llmops_"

unfoldable pub hash_api_key : (String → String) → String → String → String
hash_api_key sha256 pepper raw_key = sha256 (pepper ++ raw_key)

unfoldable pub verify_api_key : (String → String) → String → String → String → Bool
unfolding hash_api_key
verify_api_key sha256 pepper raw_key stored_hash = hash_api_key sha256 pepper raw_key == stored_hash

-- `token` is what `secrets.token_urlsafe(32)` drew.
unfoldable pub generate_api_key : (String → String) → String → String → String × String
unfolding hash_api_key
generate_api_key sha256 pepper token =
    (api_key_prefix ++ token, hash_api_key sha256 pepper (api_key_prefix ++ token))

unfoldable pub is_valid_api_key_format : String → Bool
is_valid_api_key_format raw_key =
    starts_with raw_key api_key_prefix && ltb (count api_key_prefix) (count raw_key)
