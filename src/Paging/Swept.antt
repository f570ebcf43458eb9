-- ===== src/Paging/Swept.antt =====
-- What deleting a list of keys has done (`deleteKeys`, internal/store/dynamodb/paging.go).
use mathlib.Core.Path.{subst}
use mathlib.Core.List.{◌++◌ as append}
use awesome_lambda_auth.Common.{
  ap, ℕ, zero, suc, ◌+◌, ◌==◌, ◌||◌, none, List, [], ◌∷◌, ◌≡◌, ◌⊎◌, refl, sym, ◌∙◌, inl, inr, All,
  Bool-cases, Option-cases,
}
use awesome_lambda_auth.Database.{Contents, Dynamo, Key}
use awesome_lambda_auth.Env.{Env}
use awesome_lambda_auth.Paging.Batch.{
  Batches, DeleteLaw, Occurs, Shrinks, chunks_from, chunks_of, delete_chunks, delete_keys,
  delete_pending_keys, last_write_item, unprocessed_attempts,
}

module _ {A : Type 0} where
  pub All-Occurs : (P : A → Type 0) (xs : List A) (a : A) → All P xs → Occurs a xs → P a
  All-Occurs P [] a all h = absurd h
  All-Occurs P (x ∷ xs) a (p, all) (inl e) = subst P (sym e) p
  All-Occurs P (x ∷ xs) a (p, all) (inr h) = All-Occurs P xs a all h

  pub Occurs-append : (a : A) (xs ys : List A) → Occurs a xs ⊎ Occurs a ys → Occurs a (append xs ys)
  Occurs-append a [] ys (inl h) = absurd h
  Occurs-append a [] ys (inr h) = h
  Occurs-append a (x ∷ xs) ys (inl (inl e)) = inl e
  Occurs-append a (x ∷ xs) ys (inl (inr h)) = inr (Occurs-append a xs ys (inl h))
  Occurs-append a (x ∷ xs) ys (inr h) = inr (Occurs-append a xs ys (inr h))

  pub append-Occurs : (a : A) (xs ys : List A) → Occurs a (append xs ys) → Occurs a xs ⊎ Occurs a ys
  append-Occurs a [] ys h = inr h
  append-Occurs a (x ∷ xs) ys (inl e) = inl (inl e)
  append-Occurs a (x ∷ xs) ys (inr h) = elim (append-Occurs a xs ys h) [
    | inl here ↦ inl (inr here)
    | inr there ↦ inr there
  ]

  -- In one of the slices.
  abbrev Sliced : A → List (List A) → Type 0
  Sliced a [] = ⊥
  Sliced a (chunk ∷ rest) = Occurs a chunk ⊎ Sliced a rest

  -- The slices hold all that was sliced, and no more.
  Sliced-Occurs :
      (size room : ℕ) (current xs : List A) (a : A)
      → Sliced a (chunks_from size room current xs)
      → Occurs a current ⊎ Occurs a xs
  unfolding chunks_from
  Sliced-Occurs size room current [] a (inl h) = inl h
  Sliced-Occurs size room current [] a (inr h) = absurd h
  Sliced-Occurs size (suc room) current (x ∷ xs) a h =
      elim (Sliced-Occurs size room (append current (x ∷ [])) xs a h) [
        | inr later ↦ inr (inr later)
        | inl now ↦ elim (append-Occurs a current (x ∷ []) now) [
          | inl before ↦ inl before
          | inr (inl same) ↦ inr (inl same)
          | inr (inr none_) ↦ absurd none_
        ]
      ]
  Sliced-Occurs size zero current (x ∷ xs) a (inl h) = inl h
  Sliced-Occurs size zero current (x ∷ xs) a (inr h) =
      elim (Sliced-Occurs size size (x ∷ []) xs a h) [
        | inr later ↦ inr (inr later)
        | inl (inl same) ↦ inr (inl same)
        | inl (inr none_) ↦ absurd none_
      ]

  Occurs-Sliced :
      (size room : ℕ) (current xs : List A) (a : A)
      → Occurs a current ⊎ Occurs a xs
      → Sliced a (chunks_from size room current xs)
  unfolding chunks_from
  Occurs-Sliced size room current [] a (inl h) = inl h
  Occurs-Sliced size room current [] a (inr h) = absurd h
  Occurs-Sliced size (suc room) current (x ∷ xs) a h =
      Occurs-Sliced size room (append current (x ∷ [])) xs a (elim h [
        | inl before ↦ inl (Occurs-append a current (x ∷ []) (inl before))
        | inr (inl same) ↦ inl (Occurs-append a current (x ∷ []) (inr (inl same)))
        | inr (inr later) ↦ inr later
      ])
  Occurs-Sliced size zero current (x ∷ xs) a (inl h) = inl h
  Occurs-Sliced size zero current (x ∷ xs) a (inr (inl same)) =
      inr (Occurs-Sliced size size (x ∷ []) xs a (inl (inl same)))
  Occurs-Sliced size zero current (x ∷ xs) a (inr (inr h)) =
      inr (Occurs-Sliced size size (x ∷ []) xs a (inr h))

-- A key that is gone stays gone, and shrinking twice is shrinking.
Shrinks-gone :
    (before after : Contents) (keys : List Key) (k : Key)
    → Shrinks before after keys
    → before k ≡ none
    → after k ≡ none
Shrinks-gone before after keys k shrinks gone = elim (shrinks k) [
  | inl same ↦ same ∙ gone
  | inr (now, h) ↦ now
]

Shrinks-trans :
    (before mid after : Contents) (keys later : List Key)
    → Shrinks before mid keys
    → Shrinks mid after later
    → ((k : Key) → Occurs k later → Occurs k keys)
    → Shrinks before after keys
Shrinks-trans before mid after keys later first second within k = elim (second k) [
  | inr (gone, h) ↦ inr (gone, within k h)
  | inl same ↦ elim (first k) [
    | inl same' ↦ inl (same ∙ same')
    | inr (gone, h) ↦ inr (same ∙ gone, h)
  ]
]

abbrev AllGone : Contents → List Key → Type 0
AllGone after keys = All (λ k. after k ≡ none) keys

-- What was left is gone in the end, and so is the rest of the batch.
finished :
    (mid after : Contents) (keys left all : List Key)
    → All (λ k. (mid k ≡ none) ⊎ Occurs k left) keys
    → AllGone after left
    → Shrinks mid after all
    → AllGone after keys
finished mid after [] left all h gone shrinks = tt
finished mid after (k ∷ keys) left all (now, h) gone shrinks = (
  elim now [
    | inl missing ↦ Shrinks-gone mid after all k shrinks missing
    | inr later ↦ All-Occurs (λ k. after k ≡ none) left k gone later
  ],
  finished mid after keys left all h gone shrinks,
)

module _ (db : Dynamo) (batches : Batches db) where
  open db use {Table, contents}
  open batches use {delete_batch, delete_law}

  pending-Swept :
      (env : Env) (left attempt : ℕ) (t : Table) (keys : List Key)
      → (delete_pending_keys db batches env left attempt t keys).1 ≡ none
      → let t' = (delete_pending_keys db batches env left attempt t keys).0 in
        AllGone (contents t') keys × Shrinks (contents t) (contents t') keys
  unfolding delete_pending_keys
  pending-Swept env left attempt t [] h = (tt, λ k. inl refl)
  pending-Swept env zero attempt t (k ∷ ks) h = absurd (cc h)
  pending-Swept env (suc left) attempt t (k ∷ ks) h =
      let out = delete_batch t (k ∷ ks) in
      elim (Bool-cases (attempt == 0 || env.waits attempt)) [
        | inr over ↦ absurd (cc (rw (over, delete_pending_keys) at h))
        | inl on ↦ elim (Option-cases out.1) [
          | inl lost ↦ absurd (cc (rw (on, lost, delete_pending_keys) at h))
          | inr (unprocessed, answered) ↦
              let (settled, within, first) =
                subst (DeleteLaw (contents t) (contents out.0) (k ∷ ks)) answered
                  (delete_law t (k ∷ ks)) in
              let again = delete_pending_keys db batches env left (attempt + 1) out.0 unprocessed in
              let step : delete_pending_keys db batches env (suc left) attempt t (k ∷ ks) ≡ again =
                rw (on, answered, delete_pending_keys) refl in
              let (gone, second) =
                pending-Swept env left (attempt + 1) out.0 unprocessed
                  (ap (λ r. r.1) (sym step) ∙ h) in
              subst
                (λ r.
                  AllGone (contents r.0) (k ∷ ks) × Shrinks (contents t) (contents r.0) (k ∷ ks))
                (sym step)
                (
                  finished (contents out.0) (contents again.0) (k ∷ ks) unprocessed unprocessed
                      settled gone second,
                  Shrinks-trans (contents t) (contents out.0) (contents again.0) (k ∷ ks)
                      unprocessed first second
                      (λ j h. All-Occurs (λ k'. Occurs k' (k ∷ ks)) unprocessed j within h),
                )
        ]
      ]

  chunks-Swept :
      (env : Env) (t : Table) (cs : List (List Key))
      → (delete_chunks db batches env t cs).1 ≡ none
      → let t' = (delete_chunks db batches env t cs).0 in
        ((k : Key) → Sliced k cs → contents t' k ≡ none)
        × ((k : Key) → (contents t' k ≡ contents t k) ⊎ ((contents t' k ≡ none) × Sliced k cs))
  unfolding delete_chunks
  chunks-Swept env t [] h = (λ k s. absurd s, λ k. inl refl)
  chunks-Swept env t (c ∷ cs) h =
      let out = delete_pending_keys db batches env unprocessed_attempts 0 t c in
      elim (Option-cases out.1) [
        | inr (e, failed) ↦ absurd (cc (rw (failed, delete_chunks) at h))
        | inl done ↦
            let (now, first) = pending-Swept env unprocessed_attempts 0 t c done in
            let (later, second) = chunks-Swept env out.0 cs (rw (done, delete_chunks) at h) in
            rw (done, delete_chunks)
              (
                λ k s. elim s [
                  | inr there ↦ later k there
                  | inl here ↦ elim (second k) [
                    | inr (gone, _) ↦ gone
                    | inl same ↦ same ∙ All-Occurs (λ j. contents out.0 j ≡ none) c k now here
                  ]
                ],
                λ k. elim (second k) [
                  | inr (gone, there) ↦ inr (gone, inr there)
                  | inl same ↦ elim (first k) [
                    | inl same' ↦ inl (same ∙ same')
                    | inr (gone, here) ↦ inr (same ∙ gone, inl here)
                  ]
                ],
              )
      ]

  -- Where deleting a list of keys reports nothing, they are all gone, and nothing else changed,
  -- however often the service left some of a slice unprocessed.
  pub delete_keys-Swept :
      (env : Env) (t : Table) (keys : List Key)
      → (delete_keys db batches env t keys).1 ≡ none
      → let t' = (delete_keys db batches env t keys).0 in
        ((k : Key) → Occurs k keys → contents t' k ≡ none) × Shrinks (contents t) (contents t') keys
  unfolding delete_keys chunks_of
  delete_keys-Swept env t [] h = (λ k s. absurd s, λ k. inl refl)
  delete_keys-Swept env t (x ∷ xs) h =
      let m = last_write_item in
      let (gone, kept) = chunks-Swept env t (chunks_from m m (x ∷ []) xs) h in
      (
        λ k occurs. gone k (
            Occurs-Sliced m m (x ∷ []) xs k
              (elim occurs [ inl same ↦ inl (inl same) | inr later ↦ inr later ])),
        λ k. elim (kept k) [
          | inl same ↦ inl same
          | inr (now, sliced) ↦ inr (
            now,
            elim (Sliced-Occurs m m (x ∷ []) xs k sliced) [
              | inl (inl same) ↦ inl same
              | inl (inr none_) ↦ absurd none_
              | inr later ↦ inr later
            ],
          )
        ],
      )
