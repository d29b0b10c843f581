-- ===== src/Adapters/Sse.antt =====
-- Lines of server-sent events and how their values are read, for both adapters.
use package.text.Mathlib.TextLemmas.{cons-append, cons≢nil, nil-append}
use Prim.Native.String.{String as Text, ◌++◌ as append_text}
use llmops_gateway.Prelude.{
  String, true, false, ◌≡◌, refl, sym, ap, ◌∙◌, none, some, ◌==◌, string_eq, is_empty, Bool-cases,
  inl, inr, eq_iff,
}
use llmops_gateway.Prelude.Texts.{
  starts_with, starts_with-append, starts_with-not_empty, drop_text-append,
}
use llmops_gateway.Caching.Hashing.{is_space, lstrip, rstrip}
use llmops_gateway.Json.{Json, text}
use llmops_gateway.Adapters.Http.{Client}
use llmops_gateway.Adapters.Lines.{value_of}

-- `f"{key} {s}"`, for the key `data:` or `event:`.
abbrev pub field_line : String → String → String
field_line key s = append_text key (append_text " " s)

-- How a value is written and read: it is read back, and its text has no white space at its ends.
pub record Reads {W : Type 0} (c : Client W) (dumps : Json → String) (v : Json) : Type 0 where
  pub loads-dumps : c.loads (dumps v) ≡ some v
  pub lstrip-dumps : lstrip (dumps v) ≡ dumps v
  pub rstrip-dumps : rstrip (dumps v) ≡ dumps v

-- The mark of the end is no JSON, and a text that is yielded is itself.
pub record ClientLaws {W : Type 0} (c : Client W) : Type 0 where
  pub loads_done : c.loads "[DONE]" ≡ none
  pub as_chunk-text : (s : String) → c.as_chunk (text s) ≡ s

lstrip-append : (p s : String) → lstrip p ≡ "" → lstrip (append_text p s) ≡ lstrip s
unfolding lstrip
lstrip-append Text.[] s h = rw (nil-append s)
lstrip-append (Text.◌∷◌ x p) s h = elim (Bool-cases (is_space x)) [
  | inl e ↦ let k : lstrip p ≡ "" = rw e at h in rw (cons-append x p s, e, lstrip-append p s k)
  | inr e ↦ elim (cons≢nil (rw e at h)) [ ]
]

pub value_of-field_line : (key s : String) → value_of key (field_line key s) ≡ rstrip (lstrip s)
unfolding value_of lstrip
value_of-field_line key s = rw (drop_text-append key (append_text " " s), lstrip-append " " s refl)

pub prefix_field_line : (key s : String) → starts_with (field_line key s) key ≡ true
prefix_field_line key s = starts_with-append key (append_text " " s)

pub field_line_not_empty :
    (key s : String) → starts_with "" key ≡ false → is_empty (field_line key s) ≡ false
field_line_not_empty key s n =
    starts_with-not_empty (field_line key s) key n (prefix_field_line key s)

module _ {W : Type 0} (c : Client W) (dumps : Json → String) (v : Json) (r : Reads c dumps v) where
  pub value_of-dumps : value_of "data:" (field_line "data:" (dumps v)) ≡ dumps v
  value_of-dumps = rw (value_of-field_line "data:" (dumps v), r.lstrip-dumps, r.rstrip-dumps)

  pub loads_line : c.loads (value_of "data:" (field_line "data:" (dumps v))) ≡ some v
  loads_line = rw (value_of-dumps, r.loads-dumps)

  pub not_done :
      ClientLaws c → (value_of "data:" (field_line "data:" (dumps v)) == "[DONE]") ≡ false
  not_done laws = elim (Bool-cases (value_of "data:" (field_line "data:" (dumps v)) == "[DONE]")) [
    | inl e ↦
        let h : some v ≡ none =
          sym loads_line
          ∙ (ap c.loads ((eq_iff (value_of "data:" (field_line "data:" (dumps v))) "[DONE]").0 e)
              ∙ laws.loads_done) in
        cc
    | inr e ↦ e
  ]
