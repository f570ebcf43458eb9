-- ===== src/Configuration/Sorting.antt =====
-- `sortedKeys` of internal/config/env.go and the stable sorts of errors.go and config.go, as a sort
-- by insertion with a test of what may stand first.
pub mod Order
pub mod Sorted
use Prim.Native.Nat.{Ordering}
use Prim.Native.String.{compare}
use awesome_lambda_auth.Common.{String, Bool, true, false, List, [], ◌∷◌, if◌then◌else◌}

module _ {A : Type 0} (first : A → A → Bool) where
  unfoldable pub insert_sorted : A → List A → List A
  insert_sorted a [] = a ∷ []
  insert_sorted a (b ∷ rest) = if first a b then a ∷ b ∷ rest else b ∷ insert_sorted a rest

  unfoldable pub sort_stable : List A → List A
  unfolding insert_sorted
  sort_stable [] = []
  sort_stable (a ∷ rest) = insert_sorted a (sort_stable rest)

abbrev pub le_order : Ordering → Bool
le_order Ordering.lt = true
le_order Ordering.eq = true
le_order Ordering.gt = false

unfoldable pub le_text : String → String → Bool
le_text a b = le_order (compare a b)

abbrev pub keys_of : {V : Type 0} → List (String × V) → List String
keys_of [] = []
keys_of ((k, v) ∷ rest) = k ∷ keys_of rest

unfoldable pub sorted_keys : {V : Type 0} → List (String × V) → List String
unfolding sort_stable le_text
sorted_keys m = sort_stable le_text (keys_of m)
