-- ===== src/Tokens/Kept/Users.antt =====
-- A spent hash stays spent through the methods of internal/store/dynamodb/feature_tokens.go on the
-- profile.
use awesome_lambda_auth.Tokens.Kept.{IsGone, write_item-IsGone, transact-IsGone}
use awesome_lambda_auth.Tokens.Spent.{change_writes-Safe, verified_write-Safe}
use awesome_lambda_auth.Tokens.Change.{check_change-ne, change_writes-Distinct}
use awesome_lambda_auth.Tokens.{profile_key, Family}
use awesome_lambda_auth.Tokens.Features.{
  check_change, apply_email_change, change_fetched, change_profile, mark_email_verified,
}
use awesome_lambda_auth.Common.{none, some, inl, inr, Option-cases, Bool, String}
use awesome_lambda_auth.Database.{unreachable, fetched, Fetched, Key, Dynamo}
use awesome_lambda_auth.Database.Expression.{get_s}
use awesome_lambda_auth.Items.{check_version}
use awesome_lambda_auth.Tokens.Store.{check_user}
use awesome_lambda_auth.Env.{Env}

module _ (db : Dynamo) (f : Family) (hash : String) (k : Key) where
  open db use {Table, contents, get_item}

  abbrev Gone : Table → Type 0
  Gone = IsGone db f hash k

  pub mark_verified-IsGone :
      (env : Env) (t : Table) (user tenant : String) (v : Bool)
      → Gone t
      → Gone (mark_email_verified db env t user tenant v).0
  unfolding mark_email_verified
  mark_verified-IsGone env t user tenant v h = elim (Option-cases (check_user env user tenant)) [
    | inr (e, bad) ↦ rw (bad, mark_email_verified) h
    | inl good ↦
        rw (good, mark_email_verified)
          (write_item-IsGone db f hash k t _ (verified_write-Safe f hash env.now user tenant v) h)
  ]

  change_profile-IsGone :
      (env : Env) (t : Table) (user tenant current pending : String)
      → Gone t
      → Gone (change_profile db env t user tenant current pending).0
  unfolding change_profile
  change_profile-IsGone env t user tenant current pending h =
      elim (Option-cases (check_change current pending)) [
        | inr (e, bad) ↦ rw (bad, change_profile) h
        | inl good ↦
            rw (good, change_profile)
              (transact-IsGone db f hash k env.waits t _
                (change_writes-Distinct env.now user tenant current pending
                  (check_change-ne current pending good))
                (change_writes-Safe f hash env.now user tenant current pending) h)
      ]

  change_fetched-IsGone :
      (env : Env) (t : Table) (user tenant : String) (found : Fetched)
      → Gone t
      → Gone (change_fetched db env t user tenant found).0
  unfolding change_fetched
  change_fetched-IsGone env t user tenant unreachable h = h
  change_fetched-IsGone env t user tenant (fetched none) h = h
  change_fetched-IsGone env t user tenant (fetched (some i)) h =
      elim (Option-cases (check_version i)) [
        | inr (e, bad) ↦ rw (bad, change_fetched) h
        | inl good ↦
            rw (good, change_fetched)
              (change_profile-IsGone env t user tenant (get_s i "email") (get_s i "pendingEmail") h)
      ]

  pub apply_change-IsGone :
      (env : Env) (t : Table) (user tenant : String)
      → Gone t
      → Gone (apply_email_change db env t user tenant).0
  unfolding apply_email_change
  apply_change-IsGone env t user tenant h = elim (Option-cases (check_user env user tenant)) [
    | inr (e, bad) ↦ rw (bad, apply_email_change) h
    | inl good ↦
        rw (good, apply_email_change)
          (change_fetched-IsGone env t user tenant (get_item t (profile_key tenant user)) h)
  ]
