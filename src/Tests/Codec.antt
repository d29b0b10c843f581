-- ===== src/Tests/Codec.antt =====
-- A codec of principals for a concrete world: a list of texts, with each character marked by `1`,
-- the end of a text by `2` and the end of the list by `0`.
use Prim.Native.Char.{Char, code}
use llmops_gateway.Prelude.{
  ℕ, zero, suc, ◌≡◌, refl, ap, ◌∙◌, map, String, Option, none, some, List, [], ◌∷◌, ◌==◌, nat_eq,
  if◌then◌else◌,
}
use llmops_gateway.Prelude.Int.{ℤ, pos, negsuc}
use llmops_gateway.Json.{Json, Items, text, int, arr, obj, nil, cons, end, field, items}
use llmops_gateway.Auth.{AuthenticatedPrincipal, limit_value, payload_with}

abbrev encode_text : String → String → String
encode_text String.[] rest = String.◌∷◌ "2" rest
encode_text (String.◌∷◌ c s) rest = String.◌∷◌ "1" (String.◌∷◌ c (encode_text s rest))

abbrev encode_texts : List String → String
encode_texts [] = "0"
encode_texts (s ∷ texts) = encode_text s (encode_texts texts)

abbrev push_char : Char → Option (List String) → Option (List String)
push_char c none = none
push_char c (some []) = none
push_char c (some (s ∷ texts)) = some (String.◌∷◌ c s ∷ texts)

abbrev push_text : Option (List String) → Option (List String)
push_text none = none
push_text (some texts) = some ("" ∷ texts)

-- `marked` says that the character before was a mark `1`.
abbrev decode_texts : String → Option (List String)
decode_texts String.[] = none
decode_texts (String.◌∷◌ m String.[]) = if code m == 48 then some [] else none
decode_texts (String.◌∷◌ m (String.◌∷◌ c s)) =
    let after_char = decode_texts s in
    let after_mark = decode_texts (String.◌∷◌ c s) in
    if code m == 49 then push_char c after_char else push_text after_mark

decode_texts-text :
    (s t : String) (texts : List String)
    → decode_texts t ≡ some texts
    → decode_texts (encode_text s t) ≡ some (s ∷ texts)
decode_texts-text String.[] String.[] texts h = cc
decode_texts-text String.[] (String.◌∷◌ c t) texts h = rw h
decode_texts-text (String.◌∷◌ c s) t texts h = rw (decode_texts-text s t texts h)

decode_texts-encode_texts : (texts : List String) → decode_texts (encode_texts texts) ≡ some texts
decode_texts-encode_texts [] = refl
decode_texts-encode_texts (s ∷ texts) =
    decode_texts-text s (encode_texts texts) texts (decode_texts-encode_texts texts)

abbrev unary : ℕ → String
unary zero = ""
unary (suc n) = String.◌∷◌ "1" (unary n)

abbrev of_unary : String → ℕ
of_unary String.[] = 0
of_unary (String.◌∷◌ c s) = suc (of_unary s)

of_unary-unary : (n : ℕ) → of_unary (unary n) ≡ n
of_unary-unary zero = refl
of_unary-unary (suc n) = rw (of_unary-unary n)

abbrev encode_limit : Option ℤ → String
encode_limit none = ""
encode_limit (some (pos n)) = String.◌∷◌ "+" (unary n)
encode_limit (some (negsuc n)) = String.◌∷◌ "-" (unary n)

abbrev decode_limit : String → Option ℤ
decode_limit String.[] = none
decode_limit (String.◌∷◌ c s) =
    if code c == 43 then some (pos (of_unary s)) else some (negsuc (of_unary s))

decode_limit-encode_limit : (l : Option ℤ) → decode_limit (encode_limit l) ≡ l
decode_limit-encode_limit none = refl
decode_limit-encode_limit (some (pos n)) = rw (of_unary-unary n)
decode_limit-encode_limit (some (negsuc n)) = rw (of_unary-unary n)

abbrev encode : AuthenticatedPrincipal → String
encode p =
    encode_texts (
      p.tenant_id
      ∷ p.api_key_id
      ∷ p.tenant_status
      ∷ encode_limit p.rate_limit_per_minute
      ∷ p.scopes)

abbrev of_texts : List String → Option AuthenticatedPrincipal
of_texts (tenant ∷ key ∷ status ∷ limit ∷ scopes) = some (record {
  tenant_id = tenant;
  api_key_id = key;
  tenant_status = status;
  scopes = scopes;
  rate_limit_per_minute = decode_limit limit;
})
of_texts texts = none

abbrev of_decoded : Option (List String) → Option AuthenticatedPrincipal
of_decoded none = none
of_decoded (some texts) = of_texts texts

abbrev decode : String → Option AuthenticatedPrincipal
decode s = of_decoded (decode_texts s)

decode-encode : (p : AuthenticatedPrincipal) → decode (encode p) ≡ some p
decode-encode p = rw (
  decode_texts-encode_texts (
      p.tenant_id
      ∷ p.api_key_id
      ∷ p.tenant_status
      ∷ encode_limit p.rate_limit_per_minute
      ∷ p.scopes),
  decode_limit-encode_limit p.rate_limit_per_minute,
)

-- The JSON of a principal as such a text, and back; all other JSON is written as that of `nobody`.
abbrev texts_in : Items → List String
texts_in nil = []
texts_in (cons (text t) rest) = t ∷ texts_in rest
texts_in (cons v rest) = texts_in rest

abbrev limit_in : Json → Option ℤ
limit_in (int n) = some n
limit_in v = none

abbrev nobody : AuthenticatedPrincipal
nobody = record {
  tenant_id = "";
  api_key_id = "";
  tenant_status = "";
  scopes = [];
  rate_limit_per_minute = none;
}

abbrev principal_in : Json → AuthenticatedPrincipal
principal_in
      (obj (
        field a
          (text t)
          (field b (text k) (field c (text s) (field d (arr xs) (field e v end)))))) =
    record {
      tenant_id = t;
      api_key_id = k;
      tenant_status = s;
      scopes = texts_in xs;
      rate_limit_per_minute = limit_in v;
    }
principal_in v = nobody

abbrev pub dumps : Json → String
dumps v = encode (principal_in v)

abbrev payload_in : Option AuthenticatedPrincipal → Option Json
payload_in none = none
payload_in (some p) = some (payload_with p p.scopes)

abbrev pub loads : String → Option Json
loads s = payload_in (decode s)

texts-in : (scopes : List String) → texts_in (items (map text scopes)) ≡ scopes
texts-in [] = refl
texts-in (s ∷ scopes) = ap (λ rest. s ∷ rest) (texts-in scopes)

limit-in : (l : Option ℤ) → limit_in (limit_value l) ≡ l
limit-in none = refl
limit-in (some n) = refl

principal-in :
    (p : AuthenticatedPrincipal) (scopes : List String)
    → principal_in (payload_with p scopes) ≡ record p { scopes = scopes }
principal-in p scopes = rw (texts-in scopes, limit-in p.rate_limit_per_minute)

pub loads-dumps :
    (p : AuthenticatedPrincipal) (scopes : List String)
    → loads (dumps (payload_with p scopes)) ≡ some (payload_with p scopes)
loads-dumps p scopes =
    ap (λ q. payload_in (decode (encode q))) (principal-in p scopes)
    ∙ ap payload_in (decode-encode (record p { scopes = scopes }))

abbrev pub as_text : Json → String
as_text (text t) = t
as_text v = ""

abbrev pub as_number : Json → ℤ
as_number (int n) = n
as_number v = pos 0

abbrev pub frozenset : Json → Option (List String)
frozenset (arr xs) = some (texts_in xs)
frozenset v = none

pub frozenset-texts :
    (scopes : List String) → frozenset (arr (items (map text scopes))) ≡ some scopes
frozenset-texts scopes = ap (λ l. some l) (texts-in scopes)
