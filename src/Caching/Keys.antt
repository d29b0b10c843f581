-- ===== src/Caching/Keys.antt =====
-- What the keys of caching/hashing.py and caching/redis_exact_cache.py tell apart, and what not.
use Prim.Native.String.{◌++◌, count}
use text.Mathlib.TextLemmas.{append_assoc, append_inj, length-append, append_cancel_left}
use llmops_gateway.Prelude.{ℕ, ◌+◌, String, ◌≡◌, ap, sym, ◌∙◌, List, [], ◌∷◌}
use llmops_gateway.Domain.Chat.{
  ChatRequest, ChatMessage, Role, Printer, role_text, canonical_prompt, params_fingerprint,
}
use llmops_gateway.Caching.Hashing.{normalize_prompt, fingerprint, exact_cache_key}
use llmops_gateway.Caching.ExactCache.{key}

sized_prefix :
    (sha256 : String → String) (text : String) (n : ℕ)
    → ((t : String) → count (sha256 t) ≡ n)
    → count ("cache:exact:" ++ sha256 text) ≡ 12 + n
sized_prefix sha256 text n sized = rw (length-append "cache:exact:" (sha256 text), sized text)

-- With digests of one length, the Redis keys of two requests are equal only for the same tenant
-- and the same digest.
pub key_tenant :
    (sha256 : String → String) (p : Printer) (r r' : ChatRequest) (tenant tenant' : String) (n : ℕ)
    → ((text : String) → count (sha256 text) ≡ n)
    → key sha256 p r tenant ≡ key sha256 p r' tenant'
    → (tenant ≡ tenant') × (sha256 (fingerprint p r) ≡ sha256 (fingerprint p r'))
unfolding key
key_tenant sha256 p r r' tenant tenant' n sized h =
    let (keys, tenants) = append_inj h (
      sized_prefix sha256 (fingerprint p r) n sized
      ∙ sym (sized_prefix sha256 (fingerprint p r') n sized)) in
    (
      append_cancel_left ":tenant:" tenant tenant' tenants,
      append_cancel_left "cache:exact:" (sha256 (fingerprint p r)) (sha256 (fingerprint p r')) keys,
    )

canonical_prompt-merged :
    (r : ChatRequest) (role role' : Role) (a b : String) (rest : List ChatMessage)
    → canonical_prompt (record r {
      messages = record { role = role; content = a } ∷ record { role = role'; content = b } ∷ rest;
    })
      ≡ canonical_prompt (record r {
        messages =
            record { role = role; content = a ++ ("\n" ++ (role_text role' ++ (":" ++ b))) } ∷ rest;
      })
unfolding canonical_prompt
canonical_prompt-merged r role role' a b [] = simp append_assoc
canonical_prompt-merged r role role' a b (m ∷ rest) = simp append_assoc

-- Two messages and one message whose text spells out the line break and the second message's role
-- have the same canonical prompt, and so the same exact cache key.
pub exact_cache_key-merged :
    (sha256 : String → String) (p : Printer) (r : ChatRequest) (role role' : Role) (a b : String)
    (rest : List ChatMessage)
    → exact_cache_key sha256 p (record r {
      messages = record { role = role; content = a } ∷ record { role = role'; content = b } ∷ rest;
    })
      ≡ exact_cache_key sha256 p (record r {
        messages =
            record { role = role; content = a ++ ("\n" ++ (role_text role' ++ (":" ++ b))) } ∷ rest;
      })
unfolding exact_cache_key fingerprint
exact_cache_key-merged sha256 p r role role' a b rest =
    ap (λ t. "cache:exact:" ++ sha256 (normalize_prompt t ++ ("|" ++ params_fingerprint p r)))
      (canonical_prompt-merged r role role' a b rest)
