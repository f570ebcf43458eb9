-- ===== src/Common/Lists.antt =====
-- Lists measured by native numbers, and association lists from texts.
use Prim.Native.Nat.{ℕ, zero, suc, ◌+◌, ◌≤◌}
use Prim.Native.String.{String}
use mathlib.Core.Path.{◌≡◌, refl}
use mathlib.Core.Option.{Option, none, some}
use mathlib.Core.List.{List, [], ◌∷◌, ◌++◌}
use native.Mathlib.Omega.{arith}
use text.Mathlib.Text.{◌==◌ as str_eq}
use text.Mathlib.TextEquality.{eq_iff}
use awesome_lambda_auth.Common.Tests.{if◌then◌else◌}

module _ {ℓ} {A : Type ℓ} where
  abbrev pub length : List A → ℕ
  length [] = 0
  length (x ∷ xs) = suc (length xs)

  abbrev pub get_elem? : List A → ℕ → Option A
  get_elem? [] i = none
  get_elem? (x ∷ xs) zero = some x
  get_elem? (x ∷ xs) (suc i) = get_elem? xs i

  -- Holds of every element.
  abbrev pub All {κ} : (A → Type κ) → List A → Type κ
  All P [] = Unit
  All P (x ∷ xs) = P x × All P xs

  pub length-append : (xs ys : List A) → length (xs ++ ys) ≡ length xs + length ys
  length-append [] ys = omega arith
  length-append (x ∷ xs) ys = omega (arith, length-append xs ys)

-- Go's `map[string]V` as an association list.
module _ {ℓ} {V : Type ℓ} where
  unfoldable pub lookup : String → List (String × V) → Option V
  lookup key [] = none
  lookup key ((other, value) ∷ rest) = if str_eq other key then some value else lookup key rest

  unfoldable pub insert : String → V → List (String × V) → List (String × V)
  insert key new [] = (key, new) ∷ []
  insert key new ((other, value) ∷ rest) =
      if str_eq other key then (other, new) ∷ rest else (other, value) ∷ insert key new rest

  -- An entry that is written reads back, and every other one stays.
  pub lookup-insert :
      (key wanted : String) (new : V) (entries : List (String × V))
      → lookup wanted (insert key new entries)
        ≡ (if str_eq key wanted then some new else lookup wanted entries)
  unfolding lookup insert
  lookup-insert key wanted new [] = refl
  lookup-insert key wanted new ((other, value) ∷ rest) = ground (
    arith,
    lookup-insert key wanted new rest,
    eq_iff other key,
    eq_iff other wanted,
    eq_iff key wanted,
  )

  pub length-insert-some :
      (key : String) (new old : V) (entries : List (String × V))
      → lookup key entries ≡ some old
      → length (insert key new entries) ≡ length entries
  unfolding lookup insert
  length-insert-some key new old [] found = cc
  length-insert-some key new old ((other, value) ∷ rest) found =
      ground (arith, length-insert-some key new old rest)

  pub length-insert-le :
      (key : String) (new : V) (entries : List (String × V))
      → length (insert key new entries) ≤ length entries + 1
  unfolding insert
  length-insert-le key new [] = omega arith
  length-insert-le key new ((other, value) ∷ rest) = ground (arith, length-insert-le key new rest)
