-- ===== src/Transaction/Retry.antt =====
-- Retrying a conflict keeps the service's contract: a transaction is applied whole or not at all.
use mathlib.Core.Path.{fun_ext, subst}
use awesome_lambda_auth.Common.{ℕ, zero, suc, ◌+◌, ◌≡◌, inl, inr, Bool, true, List, Bool-cases}
use awesome_lambda_auth.Database.{
  Contents, Write, TxOutcome, committed, cancelled, tx_failed, Unchanged, Distinct, TxLaw, Dynamo,
}
use awesome_lambda_auth.Transaction.{
  is_transaction_conflict, transact_from, transact_write, transaction_retries,
}

-- A conflict is a cancellation, which changed nothing.
conflict-Unchanged :
    (before after : Contents) (ws : List Write) (out : TxOutcome)
    → TxLaw before after ws out
    → is_transaction_conflict out ≡ true
    → Unchanged before after
unfolding is_transaction_conflict
conflict-Unchanged before after ws (cancelled rs) law h = law.0
conflict-Unchanged before after ws committed law h = absurd (cc h)
conflict-Unchanged before after ws tx_failed law h = absurd (cc h)

module _ (db : Dynamo) (waits : ℕ → Bool) (ws : List Write) (d : Distinct ws) where
  open db use {Table, contents, transact_write_items, transact_law}

  transact_from_law :
      (left attempt : ℕ) (t : Table)
      → TxLaw
          (contents t)
          (contents (transact_from db waits left attempt t ws).0)
          ws
          (transact_from db waits left attempt t ws).1
  unfolding transact_from
  transact_from_law zero attempt t = transact_law t ws d
  transact_from_law (suc left) attempt t =
      elim (Bool-cases (is_transaction_conflict (transact_write_items t ws).1)) [
        | inr other ↦ rw other (transact_law t ws d)
        | inl retry ↦
            let same =
              conflict-Unchanged (contents t) (contents (transact_write_items t ws).0) ws
                (transact_write_items t ws).1 (transact_law t ws d) retry in
            elim (Bool-cases (waits attempt)) [
              | inl waited ↦
                  rw (retry, waited)
                    (subst
                      (λ before.
                        TxLaw before
                          (contents
                            (transact_from db waits left (attempt + 1) (transact_write_items t ws).0
                              ws).0)
                          ws
                          (transact_from db waits left (attempt + 1) (transact_write_items t ws).0
                            ws).1)
                      (fun_ext same)
                      (transact_from_law left (attempt + 1) (transact_write_items t ws).0))
              | inr ended ↦ rw (retry, ended) (inl same)
            ]
      ]

  -- With its retries a transaction still answers as the service does for one call: when it commits,
  -- every condition held and every write was applied; when it is cancelled, nothing changed.
  pub transact_write_law :
      (t : Table)
      → TxLaw
          (contents t)
          (contents (transact_write db waits t ws).0)
          ws
          (transact_write db waits t ws).1
  unfolding transact_write
  transact_write_law t = transact_from_law transaction_retries 0 t
