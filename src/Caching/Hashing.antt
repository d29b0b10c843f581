-- ===== src/Caching/Hashing.antt =====
-- caching/hashing.py. SHA-256 in hexadecimal is a parameter. Texts are split and stripped at the
-- code points that `str.isspace` accepts.
use Prim.Native.Char.{Char, code}
use Prim.Native.String.{◌++◌, slice}
use llmops_gateway.Prelude.{
  String, Bool, ◌&&◌, ◌||◌, List, [], ◌∷◌, nat_eq, leb, is_empty, join, contains, if◌then◌else◌,
}
use llmops_gateway.Domain.Chat.{ChatRequest, Printer, canonical_prompt, params_fingerprint}

abbrev pub is_space : Char → Bool
is_space ch =
    let c = code ch in
    (leb 9 c && leb c 13)
    || (leb 28 c && leb c 32)
    || (leb 8192 c && leb c 8202)
    || contains c (133 ∷ 160 ∷ 5760 ∷ 8232 ∷ 8233 ∷ 8239 ∷ 8287 ∷ 12288 ∷ [])

unfoldable pub lstrip : String → String
lstrip String.[] = ""
lstrip (String.◌∷◌ c s) = if is_space c then lstrip s else String.◌∷◌ c s

unfoldable pub rstrip : String → String
rstrip String.[] = ""
rstrip (String.◌∷◌ c s) =
    let t = rstrip s in if is_space c && is_empty t then "" else String.◌∷◌ c t

abbrev pub push : String → List String → List String
push w ws = if is_empty w then ws else w ∷ ws

-- The word that the text begins with, and the words after it.
unfoldable pub split_from : String → String × List String
split_from String.[] = ("", [])
split_from (String.◌∷◌ c s) =
    let (w, ws) = split_from s in if is_space c then ("", push w ws) else (String.◌∷◌ c w, ws)

-- `text.split()`
unfoldable pub split : String → List String
unfolding split_from
split s = let (w, ws) = split_from s in push w ws

unfoldable pub normalize_prompt : String → String
unfolding split lstrip rstrip
normalize_prompt text = join " " (split (rstrip (lstrip text)))

unfoldable pub fingerprint : Printer → ChatRequest → String
unfolding normalize_prompt canonical_prompt params_fingerprint
fingerprint p r = normalize_prompt (canonical_prompt r) ++ ("|" ++ params_fingerprint p r)

unfoldable pub exact_cache_key : (String → String) → Printer → ChatRequest → String
unfolding fingerprint
exact_cache_key sha256 p r = "cache:exact:" ++ sha256 (fingerprint p r)

-- `digest[:16]`, of a digest in ASCII.
unfoldable pub params_hash : (String → String) → Printer → ChatRequest → String
unfolding params_fingerprint
params_hash sha256 p r = slice (sha256 (params_fingerprint p r)) 0 16
