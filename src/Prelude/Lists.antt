-- ===== src/Prelude/Lists.antt =====
-- Lists measured by native numbers, membership tests and predicates on all items.
use Prim.Native.Nat.{ℕ, suc, ◌+◌}
use Prim.Native.String.{String, ◌++◌ as append_text}
use mathlib.Core.Path.{◌≡◌, refl, ap}
use mathlib.Core.Bool.{Bool, true, false, ◌||◌}
use mathlib.Core.Option.{Option, none, some}
use mathlib.Core.List.{List, [], ◌∷◌, ◌++◌}
use native.Mathlib.Omega.{arith}
use llmops_gateway.Prelude.Tests.{Eq, ◌==◌, if◌then◌else◌, Bool-cases}
use mathlib.Core.Logic.{inl, inr}

module _ {ℓ} {A : Type ℓ} where
  abbrev pub length : List A → ℕ
  length [] = 0
  length (x ∷ xs) = suc (length xs)

  pub length-append : (xs ys : List A) → length (xs ++ ys) ≡ length xs + length ys
  length-append [] ys = omega arith
  length-append (x ∷ xs) ys = omega (arith, length-append xs ys)

  -- The list of `for x in xs if keep(x)`.
  abbrev pub select : (A → Bool) → List A → List A
  select keep [] = []
  select keep (x ∷ xs) = let rest = select keep xs in if keep x then x ∷ rest else rest

  pub select-append :
      (keep : A → Bool) (xs ys : List A) → select keep (xs ++ ys) ≡ select keep xs ++ select keep ys
  select-append keep [] ys = refl
  select-append keep (x ∷ xs) ys = elim (Bool-cases (keep x)) [
    | inl e ↦ rw e (ap (λ rest. x ∷ rest) (select-append keep xs ys))
    | inr e ↦ rw e (select-append keep xs ys)
  ]

  -- The first item that passes, as a `for` loop with an early return finds it.
  abbrev pub first : (A → Bool) → List A → Option A
  first keep [] = none
  first keep (x ∷ xs) = let rest = first keep xs in if keep x then some x else rest

  -- What such a loop finds has passed.
  pub first_passes :
      (keep : A → Bool) (xs : List A) {a : A} → first keep xs ≡ some a → keep a ≡ true
  first_passes keep [] h = cc
  first_passes keep (x ∷ xs) h = elim (Bool-cases (keep x)) [
    | inl e ↦ ground arith
    | inr e ↦ first_passes keep xs (rw e at h)
  ]

module _ {ℓ} {A : Type ℓ} where
  abbrev pub insert_by : (A → A → Bool) → A → List A → List A
  insert_by before a [] = a ∷ []
  insert_by before a (x ∷ xs) =
      let rest = insert_by before a xs in if before a x then a ∷ x ∷ xs else x ∷ rest

  -- `ORDER BY`: rows that tie keep their order.
  abbrev pub sort_by : (A → A → Bool) → List A → List A
  sort_by before [] = []
  sort_by before (x ∷ xs) = insert_by before x (sort_by before xs)

module _ {ℓ κ} {A : Type ℓ} where
  abbrev pub All : (A → Type κ) → List A → Type κ
  All P [] = Unit
  All P (x ∷ xs) = P x × All P xs

module _ {ℓ} {A : Type ℓ} ⦃e : Eq A⦄ where
  -- `x in xs`
  abbrev pub contains : A → List A → Bool
  contains a [] = false
  contains a (x ∷ xs) = x == a || contains a xs

-- `sep.join(parts)`
abbrev pub join : String → List String → String
join sep [] = ""
join sep (x ∷ []) = x
join sep (x ∷ y ∷ rest) = append_text x (append_text sep (join sep (y ∷ rest)))
