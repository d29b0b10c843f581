-- ===== src/Prelude/Texts.antt =====
-- Prefix tests on texts that compute at a literal prefix.
use Prim.Native.Char.{code}
use Prim.Native.String.{◌++◌}
use text.Mathlib.TextLemmas.{cons-append, nil-append}
use Prim.Native.Nat.{ℕ, zero, suc}
use mathlib.Core.List.{List, [], ◌∷◌}
use native.Mathlib.Omega.{arith}
use mathlib.Core.Path.{◌≡◌, refl}
use mathlib.Core.Bool.{Bool, true, false, ◌&&◌, ◌||◌}
use Prim.Native.String.{String}
use llmops_gateway.Prelude.Tests.{nat_beq, ◌==◌, string_eq, is_empty, Bool-cases}
use text.Mathlib.TextEquality.{eq_iff}
use mathlib.Core.Path.{subst, sym}
use mathlib.Core.Logic.{inl, inr}

-- `s.startswith(prefix)`
abbrev pub starts_with : String → String → Bool
starts_with s String.[] = true
starts_with String.[] (String.◌∷◌ d p) = false
starts_with (String.◌∷◌ c s) (String.◌∷◌ d p) = nat_beq (code c) (code d) && starts_with s p

-- One of the two begins with the other.
abbrev pub compatible : String → String → Bool
compatible String.[] q = true
compatible (String.◌∷◌ c p) String.[] = true
compatible (String.◌∷◌ c p) (String.◌∷◌ d q) = nat_beq (code c) (code d) && compatible p q

pub starts_with-compatible :
    (s p q : String) → starts_with s p ≡ true → starts_with s q ≡ true → compatible p q ≡ true
starts_with-compatible s String.[] q h k = refl
starts_with-compatible s (String.◌∷◌ c p) String.[] h k = refl
starts_with-compatible String.[] (String.◌∷◌ c p) (String.◌∷◌ d q) h k = cc
starts_with-compatible (String.◌∷◌ b s) (String.◌∷◌ c p) (String.◌∷◌ d q) h k =
    ground (arith, starts_with-compatible s p q)

pub starts_with_self : (s : String) → starts_with s s ≡ true
starts_with_self String.[] = refl
starts_with_self (String.◌∷◌ c s) = ground (arith, starts_with_self s)

pub starts_with_append : (s p q : String) → starts_with s (p ++ q) ≡ true → starts_with s p ≡ true
starts_with_append s String.[] q h = refl
starts_with_append String.[] (String.◌∷◌ c p) q h = rw (cons-append c p q) at h
starts_with_append (String.◌∷◌ b s) (String.◌∷◌ c p) q h =
    let k : nat_beq (code b) (code c) && starts_with s (p ++ q) ≡ true =
      rw (cons-append c p q) at h in
    ground (arith, starts_with_append s p q)

-- `s == p or s.startswith(p + q)`
pub starts_with_either :
    (s p q : String) → (s == p) || starts_with s (p ++ q) ≡ true → starts_with s p ≡ true
starts_with_either s p q h = elim (Bool-cases (s == p)) [
  | inl same ↦ subst (λ t. starts_with s t ≡ true) ((eq_iff s p).0 same) (starts_with_self s)
  | inr other ↦ starts_with_append s p q (rw other at h)
]

abbrev pub text_length : String → ℕ
text_length String.[] = 0
text_length (String.◌∷◌ c s) = suc (text_length s)

-- `s[n:]`
abbrev pub drop_text : ℕ → String → String
drop_text zero s = s
drop_text (suc n) String.[] = ""
drop_text (suc n) (String.◌∷◌ c s) = drop_text n s

pub drop_text-append : (p s : String) → drop_text (text_length p) (p ++ s) ≡ s
drop_text-append String.[] s = nil-append s
drop_text-append (String.◌∷◌ c p) s = rw (cons-append c p s, drop_text-append p s)

pub starts_with-append : (p s : String) → starts_with (p ++ s) p ≡ true
starts_with-append String.[] s = refl
starts_with-append (String.◌∷◌ c p) s =
    let h : nat_beq (code c) (code c) && starts_with (p ++ s) p ≡ true =
      ground (arith, starts_with-append p s) in
    subst (λ t. starts_with t (String.◌∷◌ c p) ≡ true) (sym (cons-append c p s)) h

-- `"".join(parts)`
abbrev pub concat : List String → String
concat [] = ""
concat (s ∷ rest) = s ++ concat rest

pub starts_with-not_empty :
    (s p : String) → starts_with "" p ≡ false → starts_with s p ≡ true → is_empty s ≡ false
starts_with-not_empty s p n h = elim (Bool-cases (is_empty s)) [
  | inl e ↦
      let k : starts_with "" p ≡ true = subst (λ t. starts_with t p ≡ true) ((eq_iff s "").0 e) h in
      cc
  | inr e ↦ e
]
