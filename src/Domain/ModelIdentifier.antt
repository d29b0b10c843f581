-- ===== src/Domain/ModelIdentifier.antt =====
-- domain/value_objects/model_identifier.py
use Prim.Native.Char.{Char, code}
use Prim.Native.String.{◌++◌}
use text.Mathlib.TextLemmas.{nil-append, cons-append}
use text.Mathlib.TextEquality.{Char-path}
use llmops_gateway.Prelude.{
  String, ◌≡◌, ap, sym, Bool, true, false, Option, none, some, ◌==◌, nat_eq, nat_beq_iff, arith,
  is_empty, if◌then◌else◌, Bool-cases, inl, inr,
}

pub record ModelIdentifier : Type 0 where
  pub provider : String
  pub model : String

unfoldable pub to_string : ModelIdentifier → String
to_string m = m.provider ++ (":" ++ m.model)

-- `text.partition(":")`, less the separator.
unfoldable pub partition : String → String × String
partition String.[] = ("", "")
partition (String.◌∷◌ c s) =
    let rest = partition s in if code c == b':' then ("", s) else (String.◌∷◌ c rest.0, rest.1)

-- `none` is the `ValueError`.
unfoldable pub parse : String → Option ModelIdentifier
parse value =
    let (provider, model) = partition value in
    if is_empty model then none else some (record { provider = provider; model = model })

abbrev pub has_colon : String → Bool
has_colon String.[] = false
has_colon (String.◌∷◌ c s) = if code c == b':' then true else has_colon s

partition-append : (p m : String) → has_colon p ≡ false → partition (p ++ (":" ++ m)) ≡ (p, m)
unfolding partition
partition-append String.[] m h = rw (nil-append (":" ++ m), cons-append ":" "" m, nil-append m)
partition-append (String.◌∷◌ c s) m h = elim (Bool-cases (code c == b':')) [
  | inl colon ↦ cc (colon, h)
  | inr other ↦ rw (cons-append c s (":" ++ m), other, partition-append s m (rw other at h))
]

-- Parsing the printed form of an identifier whose provider has no colon and whose model is not
-- empty gives the identifier back.
pub parse-to_string :
    (m : ModelIdentifier)
    → has_colon m.provider ≡ false
    → is_empty m.model ≡ false
    → parse (to_string m) ≡ some m
unfolding parse to_string
parse-to_string m h k = rw (partition-append m.provider m.model h, k)

partition_join :
    (s : String)
    → is_empty (partition s).1 ≡ false
    → (partition s).0 ++ (":" ++ (partition s).1) ≡ s
unfolding partition
partition_join String.[] h = cc
partition_join (String.◌∷◌ c s) h = elim (Bool-cases (code c == b':')) [
  | inl colon ↦
      rw (colon, nil-append (":" ++ s), cons-append ":" "" s, nil-append s)
        (ap (λ (d : Char). String.◌∷◌ d s)
          (sym (Char-path c ":" ((nat_beq_iff (code c) 58).0 colon))))
  | inr other ↦
      rw (other, cons-append c (partition s).0 (":" ++ (partition s).1))
        (ap (String.◌∷◌ c) (partition_join s (rw other at h)))
]

-- What parses prints back to the text that was parsed.
pub to_string-parse : (s : String) (m : ModelIdentifier) → parse s ≡ some m → to_string m ≡ s
unfolding parse to_string
to_string-parse s m h = ground (arith, partition_join s)
