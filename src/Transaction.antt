-- ===== src/Transaction.antt =====
-- `transactWrite` (internal/store/dynamodb/store.go) and the readers of a cancellation
-- (internal/store/dynamodb/errors.go).
pub mod Retry
use awesome_lambda_auth.Common.{
  ℕ, zero, suc, ◌+◌, Bool, true, false, Option, none, some, List, [], ◌∷◌, if◌then◌else◌,
}
use awesome_lambda_auth.Database.{
  Item, Write, Reason, no_reason, condition_failed, conflict, TxOutcome, cancelled, tx_failed,
  committed, Dynamo,
}

-- The loop of `isTransactionConflict`: `found` says that a conflict was seen.
unfoldable pub conflict_only : Bool → List Reason → Bool
conflict_only found [] = found
conflict_only found (no_reason ∷ rs) = conflict_only found rs
conflict_only found (condition_failed pre ∷ rs) = false
conflict_only found (conflict ∷ rs) = conflict_only true rs

unfoldable pub is_transaction_conflict : TxOutcome → Bool
unfolding conflict_only
is_transaction_conflict (cancelled rs) = conflict_only false rs
is_transaction_conflict committed = false
is_transaction_conflict tx_failed = false

abbrev failure_of : Reason → Option (Option Item)
failure_of (condition_failed pre) = some pre
failure_of no_reason = none
failure_of conflict = none

-- `txFailedAt`: the pre-image of the write whose condition failed.
abbrev pub tx_failed_at : List Reason → ℕ → Option (Option Item)
tx_failed_at [] n = none
tx_failed_at (r ∷ rs) zero = failure_of r
tx_failed_at (r ∷ rs) (suc n) = tx_failed_at rs n

-- `transactionConflictAttempts`, less the last one.
abbrev pub transaction_retries : ℕ
transaction_retries = 3

module _ (db : Dynamo) where
  open db use {Table, transact_write_items}

  -- The loop, with the retries that are left. `waits n` says that the wait after attempt `n` ended
  -- before the request's context did.
  unfoldable pub transact_from : (ℕ → Bool) → ℕ → ℕ → Table → List Write → Table × TxOutcome
  transact_from waits zero attempt t ws = transact_write_items t ws
  transact_from waits (suc left) attempt t ws =
      let (t', out) = transact_write_items t ws in
      let again = transact_from waits left (attempt + 1) t' ws in
      if is_transaction_conflict out
      then (if waits attempt then again else (t', tx_failed))
      else (t', out)

  unfoldable pub transact_write : (ℕ → Bool) → Table → List Write → Table × TxOutcome
  unfolding transact_from
  transact_write waits t ws = transact_from waits transaction_retries 0 t ws
