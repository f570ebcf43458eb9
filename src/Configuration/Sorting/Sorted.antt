-- ===== src/Configuration/Sorting/Sorted.antt =====
-- What the sort answers: the same elements, in order, for a test that decides each pair.
use mathlib.Core.List.Perm
use mathlib.Core.List.{Perm}
use awesome_lambda_auth.Common.{Bool, true, false, List, [], ◌∷◌, ◌≡◌, inl, inr, Bool-cases}
use awesome_lambda_auth.Configuration.Sorting.{insert_sorted, sort_stable}

module _ {A : Type 0} (first : A → A → Bool) where
  insert_sorted-perm : (a : A) (l : List A) → Perm (insert_sorted first a l) (a ∷ l)
  unfolding insert_sorted
  insert_sorted-perm a [] = Perm.refl (a ∷ [])
  insert_sorted-perm a (b ∷ rest) = elim (Bool-cases (first a b)) [
    | inl before ↦ rw before (Perm.refl (a ∷ b ∷ rest))
    | inr behind ↦
        rw behind (Perm.trans (Perm.cons b (insert_sorted-perm a rest)) (Perm.swap a b rest))
  ]

  pub sort_stable-perm : (l : List A) → Perm (sort_stable first l) l
  unfolding sort_stable
  sort_stable-perm [] = Perm.refl []
  sort_stable-perm (a ∷ rest) =
      Perm.trans (insert_sorted-perm a (sort_stable first rest))
        (Perm.cons a (sort_stable-perm rest))

  -- Each element may stand before the next one.
  abbrev pub Ordered : List A → Type 0
  Ordered [] = Unit
  Ordered (a ∷ []) = Unit
  Ordered (a ∷ b ∷ rest) = (first a b ≡ true) × Ordered (b ∷ rest)

  module _ (total : (a b : A) → first a b ≡ false → first b a ≡ true) where
    insert_sorted-Ordered : (a : A) (l : List A) → Ordered l → Ordered (insert_sorted first a l)
    unfolding insert_sorted
    insert_sorted-Ordered a [] o = tt
    insert_sorted-Ordered a (b ∷ []) o = elim (Bool-cases (first a b)) [
      | inl before ↦ rw before (before, tt)
      | inr behind ↦ rw behind (total a b behind, tt)
    ]
    insert_sorted-Ordered a (b ∷ d ∷ rest) o = elim (Bool-cases (first a b)) [
      | inl before ↦ rw before (before, o)
      | inr behind ↦ elim (Bool-cases (first a d)) [
        | inl between ↦ rw (behind, between) (total a b behind, (between, o.1))
        | inr beyond ↦
            let ih : Ordered (insert_sorted first a (d ∷ rest)) =
              insert_sorted-Ordered a (d ∷ rest) o.1 in
            rw (behind, beyond) (o.0, (rw beyond at ih))
      ]
    ]

    pub sort_stable-Ordered : (l : List A) → Ordered (sort_stable first l)
    unfolding sort_stable
    sort_stable-Ordered [] = tt
    sort_stable-Ordered (a ∷ rest) =
        insert_sorted-Ordered a (sort_stable first rest) (sort_stable-Ordered rest)
