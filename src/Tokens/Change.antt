-- ===== src/Tokens/Change.antt =====
-- Confirming an email change (`ApplyEmailChange`, internal/store/dynamodb/feature_tokens.go).
use package.text.Mathlib.TextLemmas.{append_cancel_left}
use mathlib.Core.Path.{subst}
use awesome_lambda_auth.Keys.{key_sep}
use awesome_lambda_auth.Transaction.Retry.{transact_write_law}
use awesome_lambda_auth.Database.{
  text, stamp, attributes, unreachable, TxLaw, Key, fetched, Fetched, Distinct, Item, TxOutcome,
  Contents, Dynamo, committed, cancelled, tx_failed,
}
use awesome_lambda_auth.Database.Expression.{assign, remove, get_s}
use awesome_lambda_auth.Tokens.Features.{
  email_item, email_key, apply_email_change, change_fetched, change_profile, change_done,
  change_writes, check_change, email_pk,
}
use awesome_lambda_auth.Transaction.{transact_write}
use awesome_lambda_auth.Common.{
  inl, inr, ◌⊎◌, Option-cases, refl, some, ap, eq_iff, none, arith, ◌≡◌, String, ◌≢◌, ℕ,
}
use awesome_lambda_auth.Items.{check_version}
use awesome_lambda_auth.Tokens.Store.{check_user}
use awesome_lambda_auth.Tokens.{profile_key}
use awesome_lambda_auth.Env.{Env}

email-ne_profile : ◌≢◌ {A = String} "EMAIL" "PROFILE"
email-ne_profile = ground (arith, eq_iff "EMAIL" "PROFILE")

email_pk-cancel : (tenant a b : String) → email_pk tenant a ≡ email_pk tenant b → a ≡ b
unfolding email_pk
email_pk-cancel tenant a b e =
    append_cancel_left key_sep a b
      (append_cancel_left tenant _ _ (append_cancel_left "EMAIL#" _ _ e))

pub check_change-ne :
    (current pending : String) → check_change current pending ≡ none → pending ≢ current
unfolding check_change
check_change-ne current pending h = ground (arith, eq_iff pending current)

pub change_writes-Distinct :
    (now : ℕ) (user tenant current pending : String)
    → pending ≢ current
    → Distinct (change_writes now user tenant current pending)
unfolding change_writes
change_writes-Distinct now user tenant current pending ne = (
  (
    λ e. ne (email_pk-cancel tenant pending current (ap (λ (l : Key). l.0) e)),
    (λ e. email-ne_profile (ap (λ (l : Key). l.1) e), tt),
  ),
  ((λ e. email-ne_profile (ap (λ (l : Key). l.1) e), tt), (tt, tt)),
)

-- What a confirmed change has done: the new address was free and is the user's, the old one is free,
-- and the profile has the new one.
pub record Changes (now : ℕ) (before after : Contents) (user tenant : String) : Type 0 where
  pub old : Item
  pub found : before (profile_key tenant user) ≡ some old
  pub pending : String
  pub is_pending : get_s old "pendingEmail" ≡ pending
  pub free : attributes (before (email_key tenant pending)) "PK" ≡ none
  pub claimed : after (email_key tenant pending) ≡ some (email_item user tenant pending)
  pub released : after (email_key tenant (get_s old "email")) ≡ none
  pub moved :
      after (profile_key tenant user)
      ≡ some (
          remove "pendingEmail"
            (assign "updatedAt" (stamp now) (assign "email" (text pending) old)))
  pub others :
      (k : Key)
      → k ≢ email_key tenant pending
      → k ≢ email_key tenant (get_s old "email")
      → k ≢ profile_key tenant user
      → after k ≡ before k

committed-Changes :
    (now : ℕ) (before after : Contents) (user tenant : String) (old : Item)
    → before (profile_key tenant user) ≡ some old
    → TxLaw before after
        (change_writes now user tenant (get_s old "email") (get_s old "pendingEmail"))
        committed
    → Changes now before after user tenant
unfolding change_writes
committed-Changes now before after user tenant old found
      ((free, _), ((claim, (release, (move, _))), frame)) =
    record {
      old = old;
      found = found;
      pending = get_s old "pendingEmail";
      is_pending = refl;
      free = ground arith;
      claimed = claim;
      released = release;
      moved = rw found at move;
      others = λ k a b c. frame k (a, (b, (c, tt)));
    }

change_done-committed : (out : TxOutcome) → change_done out ≡ none → out ≡ committed
unfolding change_done
change_done-committed committed h = refl
change_done-committed tx_failed h = cc
change_done-committed (cancelled rs) h = ground arith

module _ (db : Dynamo) where
  open db use {Table, contents, get_item}

  change_profile-Changes :
      (env : Env) (t : Table) (user tenant : String) (old : Item)
      → contents t (profile_key tenant user) ≡ some old
      → (change_profile db env t user tenant (get_s old "email") (get_s old "pendingEmail")).1
        ≡ none
      → Changes env.now
          (contents t)
          (contents
            (change_profile db env t user tenant (get_s old "email") (get_s old "pendingEmail")).0)
          user
          tenant
  unfolding change_profile
  change_profile-Changes env t user tenant old found h =
      let ws = change_writes env.now user tenant (get_s old "email") (get_s old "pendingEmail") in
      elim (Option-cases (check_change (get_s old "email") (get_s old "pendingEmail"))) [
        | inr (e, bad) ↦ absurd (cc (rw (bad, change_profile) at h))
        | inl good ↦
            let out = transact_write db env.waits t ws in
            let done = change_done-committed out.1 (rw (good, change_profile) at h) in
            rw (good, change_profile)
              (committed-Changes env.now (contents t) (contents out.0) user tenant old found (
                subst (TxLaw (contents t) (contents out.0) ws) done (
                  transact_write_law db env.waits ws
                    (change_writes-Distinct env.now user tenant _ _ (check_change-ne _ _ good)) t)))
      ]

  change_fetched-Changes :
      (env : Env) (t : Table) (user tenant : String) (found : Fetched)
      → (found ≡ fetched (contents t (profile_key tenant user))) ⊎ (found ≡ unreachable)
      → (change_fetched db env t user tenant found).1 ≡ none
      → Changes env.now
          (contents t)
          (contents (change_fetched db env t user tenant found).0)
          user
          tenant
  unfolding change_fetched
  change_fetched-Changes env t user tenant unreachable law h = absurd (cc h)
  change_fetched-Changes env t user tenant (fetched none) law h = absurd (cc h)
  change_fetched-Changes env t user tenant (fetched (some i)) law h =
      elim (Option-cases (check_version i)) [
        | inr (e, bad) ↦ absurd (cc (rw (bad, change_fetched) at h))
        | inl good ↦
            rw (good, change_fetched)
              (change_profile-Changes env t user tenant i (ground (arith, law))
                (rw (good, change_fetched) at h))
      ]

  -- A change that is confirmed found the pending address free, and in one step made it the user's,
  -- released the old address and moved the profile over; no other item changed.
  pub apply_email_change-Changes :
      (env : Env) (t : Table) (user tenant : String)
      → (apply_email_change db env t user tenant).1 ≡ none
      → Changes env.now
          (contents t)
          (contents (apply_email_change db env t user tenant).0)
          user
          tenant
  unfolding apply_email_change
  apply_email_change-Changes env t user tenant h =
      elim (Option-cases (check_user env user tenant)) [
        | inr (e, bad) ↦ absurd (cc (rw (bad, apply_email_change) at h))
        | inl good ↦
            rw (good, apply_email_change)
              (change_fetched-Changes env t user tenant (get_item t (profile_key tenant user))
                (db.get_law t (profile_key tenant user)) (rw (good, apply_email_change) at h))
      ]
