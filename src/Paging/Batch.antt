-- ===== src/Paging/Batch.antt =====
-- The batch calls of internal/store/dynamodb/paging.go: chunks of what the service takes at once, and
-- the retries of what it left unprocessed.
use mathlib.Core.List.{◌++◌ as append}
use awesome_lambda_auth.Common.{
  ℕ, zero, suc, ◌+◌, ◌==◌, ◌||◌, Option, none, some, List, [], ◌∷◌, ◌≡◌, ◌⊎◌, All, if◌then◌else◌,
}
use awesome_lambda_auth.Database.{Contents, Dynamo, Item, Key}
use awesome_lambda_auth.Errors.{Result, StoreError, err, ok, service, still_unprocessed}
use awesome_lambda_auth.Env.{Env}

abbrev pub Occurs : {A : Type 0} → A → List A → Type 0
Occurs a [] = ⊥
Occurs a (b ∷ bs) = (a ≡ b) ⊎ Occurs a bs

-- Items were deleted at some of the keys, and nothing else changed.
abbrev pub Shrinks : Contents → Contents → List Key → Type 0
Shrinks before after keys = (k : Key) → (after k ≡ before k) ⊎ ((after k ≡ none) × Occurs k keys)

-- A batch of deletions: what is not gone was left, and only what was asked for is.
abbrev pub DeleteLaw : Contents → Contents → List Key → Option (List Key) → Type 0
DeleteLaw before after keys none = Shrinks before after keys
DeleteLaw before after keys (some left) =
    All (λ k. (after k ≡ none) ⊎ Occurs k left) keys
    × All (λ k. Occurs k keys) left
    × Shrinks before after keys

-- BatchWriteItem and BatchGetItem, `none` for a call that failed; else with the keys that it left.
-- A read names its attempt, since the service may answer the same keys otherwise the next time.
pub record Batches (db : Dynamo) : Type 0 where
  pub delete_batch : db.Table → List Key → db.Table × Option (List Key)
  pub read_batch : db.Table → ℕ → List Key → Option (List Item × List Key)
  pub delete_law :
      (t : db.Table) (keys : List Key)
      → DeleteLaw (db.contents t) (db.contents (delete_batch t keys).0) keys (delete_batch t keys).1

-- The slices `reqs[start:end]`: `current` is being filled and takes `room` more.
unfoldable pub chunks_from {ℓ} : {A : Type ℓ} → ℕ → ℕ → List A → List A → List (List A)
chunks_from size room current [] = current ∷ []
chunks_from size (suc room) current (x ∷ xs) = chunks_from size room (append current (x ∷ [])) xs
chunks_from size zero current (x ∷ xs) = current ∷ chunks_from size size (x ∷ []) xs

-- Slices of `size + 1`; of nothing there is none.
unfoldable pub chunks_of {ℓ} : {A : Type ℓ} → ℕ → List A → List (List A)
unfolding chunks_from
chunks_of size [] = []
chunks_of size (x ∷ xs) = chunks_from size size (x ∷ []) xs

-- `maxBatchWriteItems` and `maxBatchGetItems`, less one, and `unprocessedAttempts`.
abbrev pub last_write_item : ℕ
last_write_item = 24

abbrev pub last_read_item : ℕ
last_read_item = 99

abbrev pub unprocessed_attempts : ℕ
unprocessed_attempts = 8

module _ (db : Dynamo) (batches : Batches db) where
  open db use {Table}
  open batches use {delete_batch, read_batch}

  -- The retries of one slice, with the attempts that are left; the first one does not wait.
  unfoldable pub delete_pending_keys : Env → ℕ → ℕ → Table → List Key → Table × Option StoreError
  delete_pending_keys env left attempt t [] = (t, none)
  delete_pending_keys env zero attempt t (k ∷ ks) = (t, some still_unprocessed)
  delete_pending_keys env (suc left) attempt t (k ∷ ks) =
      let (t', answer) = delete_batch t (k ∷ ks) in
      if attempt == 0 || env.waits attempt
      then (elim answer [
        | none ↦ (t', some service)
        | some unprocessed ↦ delete_pending_keys env left (attempt + 1) t' unprocessed
      ])
      else (t, some service)

  unfoldable pub delete_chunks : Env → Table → List (List Key) → Table × Option StoreError
  unfolding delete_pending_keys
  delete_chunks env t [] = (t, none)
  delete_chunks env t (chunk ∷ rest) =
      let (t', failure) = delete_pending_keys env unprocessed_attempts 0 t chunk in
      elim failure [ some e ↦ (t', some e) | none ↦ delete_chunks env t' rest ]

  -- `deleteKeys` over `batchWrite`.
  unfoldable pub delete_keys : Env → Table → List Key → Table × Option StoreError
  unfolding delete_chunks chunks_of
  delete_keys env t keys = delete_chunks env t (chunks_of last_write_item keys)

  unfoldable pub read_pending_keys : Env → Table → ℕ → ℕ → List Item → List Key → Result (List Item)
  read_pending_keys env t left attempt out [] = ok out
  read_pending_keys env t zero attempt out (k ∷ ks) = err still_unprocessed
  read_pending_keys env t (suc left) attempt out (k ∷ ks) =
      if attempt == 0 || env.waits attempt
      then (elim (read_batch t attempt (k ∷ ks)) [
        | none ↦ err service
        | some (items, unprocessed) ↦
            read_pending_keys env t left (attempt + 1) (append out items) unprocessed
      ])
      else err service

  unfoldable pub read_chunks : Env → Table → List Item → List (List Key) → Result (List Item)
  unfolding read_pending_keys
  read_chunks env t out [] = ok out
  read_chunks env t out (chunk ∷ rest) =
      elim (read_pending_keys env t unprocessed_attempts 0 out chunk) [
        | err e ↦ err e
        | ok items ↦ read_chunks env t items rest
      ]

  unfoldable pub batch_get : Env → Table → List Key → Result (List Item)
  unfolding read_chunks chunks_of
  batch_get env t keys = read_chunks env t [] (chunks_of last_read_item keys)
