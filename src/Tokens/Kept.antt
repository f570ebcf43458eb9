-- ===== src/Tokens/Kept.antt =====
-- A spent hash stays spent through every method of internal/store/dynamodb/tokens.go and
-- internal/store/dynamodb/feature_tokens.go that does not issue it again.
pub mod Users
use awesome_lambda_auth.Tokens.Spent.{
  change_writes-Safe, verified_write-Safe, pointer_write-Safe, clear_write-Safe, consume_write-Safe,
  issue_write-Safe, password_write-Safe, OtherExtras, Safe, Spent,
}
use awesome_lambda_auth.Tokens.Change.{check_change-ne, change_writes-Distinct}
use awesome_lambda_auth.Tokens.{
  profile_key, token_key, has_pointer, TokenExtra, pointer_write, issue_write, Family,
}
use awesome_lambda_auth.Tokens.Features.{
  check_change, apply_email_change, change_fetched, change_profile, mark_email_verified,
}
use awesome_lambda_auth.Common.{
  none, ap, [], some, ◌≡◌, inl, inr, ◌∷◌, Bool-cases, Option-cases, All, Bool, List, eq_iff, arith,
  String, ◌≢◌, ℕ,
}
use awesome_lambda_auth.Database.{
  unreachable, key-cases, Elsewhere, fetched, Applied, Fetched, TxLaw, WriteLaw, Distinct, Outcome,
  TxOutcome, Contents, Write, Key, Dynamo, written, refused, failed, committed, cancelled,
  tx_failed,
}
use awesome_lambda_auth.Database.Expression.{get_s}
use awesome_lambda_auth.Items.{check_version}
use awesome_lambda_auth.Tokens.Store.{
  check_issue, check_user, issue, clear_single_use_token, consume_single_use_token,
  issue_single_use_token, update_password, user_by_pointer, user_by_single_use_token,
}
use awesome_lambda_auth.Keys.{check_hash}
use awesome_lambda_auth.Transaction.Retry.{transact_write_law}
use awesome_lambda_auth.Transaction.{transact_write}
use awesome_lambda_auth.Env.{Env}

-- One write, or one transaction, by the service's law.
module _ (f : Family) (hash : String) (k : Key) where
  Applied-Spent :
      (before after : Contents) (ws : List Write)
      → All (Safe f hash) ws
      → All (Applied before after) ws
      → (Elsewhere k ws → after k ≡ before k)
      → Spent f hash (before k)
      → Spent f hash (after k)
  Applied-Spent before after [] safe done frame h = rw (frame tt) h
  Applied-Spent before after (w ∷ ws) (s, safe) (d, done) frame h = elim (key-cases k w.at) [
    | inl e ↦ rw (e, d) (s (before w.at) (rw e at h))
    | inr ne ↦ Applied-Spent before after ws safe done (λ elsewhere. frame (ne, elsewhere)) h
  ]

  pub write-Spent :
      (w : Write) (before after : Contents) (out : Outcome)
      → Safe f hash w
      → WriteLaw before after w out
      → Spent f hash (before k)
      → Spent f hash (after k)
  write-Spent w before after (written pre) safe (_, _, (done, frame)) h =
      Applied-Spent before after (w ∷ []) (safe, tt) done (frame k) h
  write-Spent w before after (refused pre) safe (_, _, same) h = rw (same k) h
  write-Spent w before after failed safe (inl same) h = rw (same k) h
  write-Spent w before after failed safe (inr (_, (done, frame))) h =
      Applied-Spent before after (w ∷ []) (safe, tt) done (frame k) h

  pub tx-Spent :
      (ws : List Write) (before after : Contents) (out : TxOutcome)
      → All (Safe f hash) ws
      → TxLaw before after ws out
      → Spent f hash (before k)
      → Spent f hash (after k)
  tx-Spent ws before after committed safe (_, (done, frame)) h =
      Applied-Spent before after ws safe done (frame k) h
  tx-Spent ws before after (cancelled rs) safe (same, _) h = rw (same k) h
  tx-Spent ws before after tx_failed safe (inl same) h = rw (same k) h
  tx-Spent ws before after tx_failed safe (inr (_, (done, frame))) h =
      Applied-Spent before after ws safe done (frame k) h

profile-ne_token : ◌≢◌ {A = String} "PROFILE" "TOKEN"
profile-ne_token = ground (arith, eq_iff "PROFILE" "TOKEN")

module _ (db : Dynamo) (f : Family) (hash : String) (k : Key) where
  open db use {Table, contents, get_item, write_item, write_law}

  -- The item at the key does not hold the hash.
  abbrev pub IsGone : Table → Type 0
  IsGone t = Spent f hash (contents t k)

  pub write_item-IsGone :
      (t : Table) (w : Write) → Safe f hash w → IsGone t → IsGone (write_item t w).0
  write_item-IsGone t w safe h =
      write-Spent f hash k w (contents t) (contents (write_item t w).0) (write_item t w).1 safe
        (write_law t w) h

  pub transact-IsGone :
      (waits : ℕ → Bool) (t : Table) (ws : List Write)
      → Distinct ws
      → All (Safe f hash) ws
      → IsGone t
      → IsGone (transact_write db waits t ws).0
  transact-IsGone waits t ws d safe h =
      tx-Spent f hash k ws (contents t) (contents (transact_write db waits t ws).0)
        (transact_write db waits t ws).1 safe (transact_write_law db waits ws d t) h

  pub update_password-IsGone :
      (env : Env) (t : Table) (user tenant password : String)
      → IsGone t
      → IsGone (update_password db env t user tenant password).0
  unfolding update_password
  update_password-IsGone env t user tenant password h =
      elim (Option-cases (check_user env user tenant)) [
        | inr (e, bad) ↦ rw (bad, update_password) h
        | inl good ↦
            rw (good, update_password)
              (write_item-IsGone t _ (password_write-Safe f hash env.now user tenant password) h)
      ]

  pub issue_writes-Distinct :
      (g : Family) (now : ℕ) (user tenant h' : String) (expiry : ℕ) (extras : List TokenExtra)
      → Distinct (
          issue_write g now user tenant h' expiry extras
          ∷ pointer_write g user tenant h' expiry
          ∷ [])
  unfolding issue_write pointer_write
  issue_writes-Distinct g now user tenant h' expiry extras =
      ((λ e. profile-ne_token (ap (λ (l : Key). l.1) e), tt), (tt, tt))

  pub issue-IsGone :
      (env : Env) (t : Table) (g : Family) (user tenant h' : String) (expiry : ℕ)
      (extras : List TokenExtra)
      → h' ≢ hash
      → OtherExtras f hash extras
      → IsGone t
      → IsGone (issue_single_use_token db env t g user tenant h' expiry extras).0
  unfolding issue_single_use_token issue
  issue-IsGone env t g user tenant h' expiry extras ne others h =
      let safe = issue_write-Safe f hash g env.now user tenant h' expiry extras ne others in
      elim (Option-cases (check_issue env g user tenant h' extras)) [
        | inr (e, bad) ↦ rw (bad, issue_single_use_token) h
        | inl good ↦ elim (Bool-cases (has_pointer g)) [
          | inr alone ↦
              rw (good, alone, issue_single_use_token, issue) (write_item-IsGone t _ safe h)
          | inl both ↦
              rw (good, both, issue_single_use_token, issue)
                (transact-IsGone env.waits t _
                  (issue_writes-Distinct g env.now user tenant h' expiry extras)
                  (safe, (pointer_write-Safe f hash g user tenant h' expiry, tt)) h)
        ]
      ]

  pub consume-IsGone :
      (env : Env) (t : Table) (g : Family) (user tenant h' : String)
      → IsGone t
      → IsGone (consume_single_use_token db env t g user tenant h').0
  unfolding consume_single_use_token
  consume-IsGone env t g user tenant h' h = elim (Bool-cases env.consume_on_read) [
    | inr reads ↦ rw (reads, consume_single_use_token) h
    | inl writes ↦
        rw (writes, consume_single_use_token)
          (write_item-IsGone t _ (consume_write-Safe f hash g env.now user tenant h') h)
  ]

  pointer-IsGone :
      (env : Env) (t : Table) (g : Family) (h' : String) (found : Fetched)
      → IsGone t
      → IsGone (user_by_pointer db env t g h' found).0
  unfolding user_by_pointer
  pointer-IsGone env t g h' unreachable h = h
  pointer-IsGone env t g h' (fetched none) h = h
  pointer-IsGone env t g h' (fetched (some p)) h = elim (Option-cases (check_version p)) [
    | inr (e, bad) ↦ rw (bad, user_by_pointer) h
    | inl good ↦
        rw (good, user_by_pointer)
          (consume-IsGone env t g (get_s p "userId") (get_s p "tenantId") h' h)
  ]

  pub user_by-IsGone :
      (env : Env) (t : Table) (g : Family) (h' : String)
      → IsGone t
      → IsGone (user_by_single_use_token db env t g h').0
  unfolding user_by_single_use_token
  user_by-IsGone env t g h' h = elim (Bool-cases (has_pointer g)) [
    | inr alone ↦ rw (alone, user_by_single_use_token) h
    | inl both ↦ elim (Option-cases (check_hash h')) [
      | inr (e, bad) ↦ rw (both, bad, user_by_single_use_token) h
      | inl good ↦
          rw (both, good, user_by_single_use_token)
            (pointer-IsGone env t g h' (get_item t (token_key g h')) h)
    ]
  ]

  pub clear-IsGone :
      (env : Env) (t : Table) (g : Family) (user tenant : String)
      → IsGone t
      → IsGone (clear_single_use_token db env t g user tenant).0
  unfolding clear_single_use_token
  clear-IsGone env t g user tenant h = elim (Option-cases (check_user env user tenant)) [
    | inr (e, bad) ↦ rw (bad, clear_single_use_token) h
    | inl good ↦
        rw (good, clear_single_use_token)
          (write_item-IsGone t _ (clear_write-Safe f hash g user tenant) h)
  ]
