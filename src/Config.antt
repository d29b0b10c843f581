-- ===== src/Config.antt =====
-- What config/settings.py and config/validation.py compute, with embeddings/factory.py.
use Prim.Native.Char.{code}
use Prim.Native.String.{String as Text}
use llmops_gateway.Prelude.{
  ℕ, String, ◌&&◌, Option, or_else, truthy, ◌==◌, string_eq, nat_eq, is_empty, if◌then◌else◌,
}
use llmops_gateway.Errors.{Result, ok, err, other}
use llmops_gateway.Json.{Json, null, bool, int, float, text, arr, obj}
use llmops_gateway.Caching.Hashing.{lstrip, rstrip}

-- `s.strip(c)`, for the code point of a character.
unfoldable pub lstrip_char : ℕ → String → String
lstrip_char c Text.[] = ""
lstrip_char c (Text.◌∷◌ d s) = if code d == c then lstrip_char c s else Text.◌∷◌ d s

unfoldable pub rstrip_char : ℕ → String → String
rstrip_char c Text.[] = ""
rstrip_char c (Text.◌∷◌ d s) =
    let t = rstrip_char c s in if (code d == c) && is_empty t then "" else Text.◌∷◌ d t

abbrev pub strip_char : ℕ → String → String
strip_char c s = rstrip_char c (lstrip_char c s)

unfoldable pub unquoted : String → String
unfolding lstrip_char rstrip_char lstrip rstrip
unquoted s = strip_char 39 (strip_char 34 (rstrip (lstrip s)))

-- `normalized or None`
abbrev pub or_none : String → Json
or_none s = if is_empty s then null else text s

unfoldable pub normalize_optional_api_key : Json → Json
unfolding unquoted
normalize_optional_api_key (text s) = or_none (unquoted s)
normalize_optional_api_key null = null
normalize_optional_api_key (bool b) = bool b
normalize_optional_api_key (int n) = int n
normalize_optional_api_key (float f) = float f
normalize_optional_api_key (arr xs) = arr xs
normalize_optional_api_key (obj fs) = obj fs

pub data Environment : Type 0 where
  local staging production : Environment

pub data EmbeddingProviderKind : Type 0 where
  local_model api : EmbeddingProviderKind

pub record StartSettings : Type 0 where
  pub environment : Environment
  pub auth_api_key_pepper : String
  pub arq_redis_url : Option String
  pub redis_url : String
  pub embedding_provider : EmbeddingProviderKind

unfoldable pub resolved_arq_redis_url : StartSettings → String
resolved_arq_redis_url s =
    if truthy s.arq_redis_url then or_else s.arq_redis_url s.redis_url else s.redis_url

abbrev pub default_insecure_pepper : String
default_insecure_pepper = "dev-insecure-pepper-change-me"

-- A `RuntimeError` where production would run with the default pepper.
unfoldable pub validate_settings : StartSettings → Result (Unit {0})
validate_settings s = elim s.environment [
  | local ↦ ok tt
  | staging ↦ ok tt
  | production ↦
      if s.auth_api_key_pepper == default_insecure_pepper then err (other "RuntimeError") else ok tt
]

unfoldable pub build_embedding_provider : {A : Type 0} → StartSettings → A → A → A
build_embedding_provider s local_provider api_provider = elim s.embedding_provider [
  | local_model ↦ local_provider
  | api ↦ api_provider
]
