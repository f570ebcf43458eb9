-- ===== src/Accounts/Creation.antt =====
-- Creating a user (`createUser`, internal/store/dynamodb/users.go).
use mathlib.Core.Path.{subst}
use Prim.Native.Char.{Char, code}
use Prim.Native.String.{String, ◌++◌}
use package.text.Mathlib.TextLemmas.{cons-append, cons-eq-cons}
use awesome_lambda_auth.Keys.{check_id, check_tenant}
use awesome_lambda_auth.Common.{
  sym, inl, inr, some, Option-cases, none, refl, true, eq_iff, ◌∙◌, ◌≡◌, ap, arith, ◌≢◌, ℕ,
}
use awesome_lambda_auth.Transaction.Retry.{transact_write_law}
use awesome_lambda_auth.Accounts.{
  membership_item, member_key, profile_item, create_user, account_done, account_writes,
}
use awesome_lambda_auth.Tokens.Features.{check_email, email_item, email_key}
use awesome_lambda_auth.Errors.{◌or_else◌, ok}
use awesome_lambda_auth.Tokens.Store.{check_user}
use awesome_lambda_auth.Tokens.{profile_key}
use awesome_lambda_auth.Transaction.{transact_write}
use awesome_lambda_auth.Database.{
  Key, TxLaw, attributes, Contents, Distinct, TxOutcome, Dynamo, Item, committed, cancelled,
  tx_failed,
}
use awesome_lambda_auth.Database.Expression.{is_some, attribute_not_exists}
use awesome_lambda_auth.Env.{Env}
use awesome_lambda_auth.Users.{User}

profile-ne_email : ◌≢◌ {A = String} "PROFILE" "EMAIL"
profile-ne_email = ground (arith, eq_iff "PROFILE" "EMAIL")

-- A sort key of another first letter is no member's.
first-ne_member :
    (first : Char) (rest user : String)
    → code first ≢ b'M'
    → String.◌∷◌ first rest ≢ "MEMBER#" ++ user
first-ne_member first rest user ne e =
    ne (ap code (cons-eq-cons.0 (e ∙ cons-append "M" "EMBER#" user)).0)

profile-ne_member : (user : String) → "PROFILE" ≢ "MEMBER#" ++ user
profile-ne_member user = first-ne_member "P" "ROFILE" user (λ e. absurd (omega (arith, e)))

email-ne_member : (user : String) → "EMAIL" ≢ "MEMBER#" ++ user
email-ne_member user = first-ne_member "E" "MAIL" user (λ e. absurd (omega (arith, e)))

pub account_writes-Distinct : (now : ℕ) (u : User) → Distinct (account_writes now u)
unfolding account_writes
account_writes-Distinct now u = (
  (
    λ e. profile-ne_email (ap (λ (l : Key). l.1) e),
    (λ e. profile-ne_member u.id (ap (λ (l : Key). l.1) e), tt),
  ),
  ((λ e. email-ne_member u.id (ap (λ (l : Key). l.1) e), tt), (tt, tt)),
)

-- What creating a user has done: neither the user nor the address was there, and both are now.
pub record Creates (now : ℕ) (u : User) (before after : Contents) : Type 0 where
  pub no_user : attributes (before (profile_key u.tenant_id u.id)) "PK" ≡ none
  pub no_address : attributes (before (email_key u.tenant_id u.email)) "PK" ≡ none
  pub profile : after (profile_key u.tenant_id u.id) ≡ some (profile_item u)
  pub address : after (email_key u.tenant_id u.email) ≡ some (email_item u.id u.tenant_id u.email)
  pub member : after (member_key u.tenant_id u.id) ≡ some (membership_item now u.id u.tenant_id)
  pub others :
      (k : Key)
      → k ≢ profile_key u.tenant_id u.id
      → k ≢ email_key u.tenant_id u.email
      → k ≢ member_key u.tenant_id u.id
      → after k ≡ before k

missing : (i : Item) → attribute_not_exists "PK" i ≡ true → i "PK" ≡ none
missing i h = ground arith

committed-Creates :
    (now : ℕ) (u : User) (before after : Contents)
    → TxLaw before after (account_writes now u) committed
    → Creates now u before after
unfolding account_writes
committed-Creates now u before after ((free, (unclaimed, _)), ((a, (b, (c, _))), frame)) = record {
  no_user = missing (attributes (before (profile_key u.tenant_id u.id))) free;
  no_address = missing (attributes (before (email_key u.tenant_id u.email))) unclaimed;
  profile = a;
  address = b;
  member = c;
  others = λ k p e m. frame k (p, (e, (m, tt)));
}

account_done-committed :
    (u u' : User) (out : TxOutcome) → account_done u out ≡ ok u' → (out ≡ committed) × (u ≡ u')
unfolding account_done
account_done-committed u u' committed h = (refl, cc)
account_done-committed u u' tx_failed h = absurd (cc h)
account_done-committed u u' (cancelled rs) h = absurd (ground arith)

module _ (db : Dynamo) (normalize : String → String) where
  open db use {Table, contents, get_item}

  -- A user that is created was not there, nor was its address in its tenant; the profile, the
  -- address and the membership were written in one step, and no other item changed. The user that is
  -- returned has the normalized address.
  pub create_user-Creates :
      (env : Env) (t : Table) (given u : User)
      → (create_user db normalize env t given).1 ≡ ok u
      → (u ≡ record given { email = normalize given.email })
        × Creates env.now u (contents t) (contents (create_user db normalize env t given).0)
  unfolding create_user
  create_user-Creates env t given u won =
      let named = record given { email = normalize given.email } in
      let ws = account_writes env.now named in
      let out = transact_write db env.waits t ws in
      elim (Option-cases
        (check_user env given.id given.tenant_id or_else check_email (normalize given.email))) [
          | inr (e, bad) ↦ absurd (cc (rw (bad, create_user) at won))
          | inl good ↦
              let (done, same) =
                account_done-committed named u out.1 (rw (good, create_user) at won) in
              let law =
                subst (TxLaw (contents t) (contents out.0) ws) done
                  (transact_write_law db env.waits ws (account_writes-Distinct env.now named) t) in
              rw (good, create_user)
                (
                  sym same,
                  subst (λ v. Creates env.now v (contents t) (contents out.0)) same
                      (committed-Creates env.now named (contents t) (contents out.0) law),
                )
        ]

  refused_done :
      (now : ℕ) (u u' : User) (before after : Contents) (out : TxOutcome)
      → is_some (attributes (before (email_key u.tenant_id u.email)) "PK") ≡ true
      → TxLaw before after (account_writes now u) out
      → account_done u out ≢ ok u'
  unfolding account_writes account_done
  refused_done now u u' before after committed taken ((_, (unclaimed, _)), _) won =
      cc (rw taken at unclaimed)
  refused_done now u u' before after tx_failed taken law won = cc won
  refused_done now u u' before after (cancelled rs) taken law won = ground arith

  -- While an address of a tenant is claimed, no user is created with one that normalizes to it.
  pub create_user-taken :
      (env : Env) (t : Table) (given u : User)
      → is_some (attributes (contents t (email_key given.tenant_id (normalize given.email))) "PK")
        ≡ true
      → (create_user db normalize env t given).1 ≢ ok u
  unfolding create_user
  create_user-taken env t given u taken won =
      let named = record given { email = normalize given.email } in
      let ws = account_writes env.now named in
      let out = transact_write db env.waits t ws in
      elim (Option-cases
        (check_user env given.id given.tenant_id or_else check_email (normalize given.email))) [
          | inr (e, bad) ↦ cc (rw (bad, create_user) at won)
          | inl good ↦
              refused_done env.now named u (contents t) (contents out.0) out.1 taken
                (transact_write_law db env.waits ws (account_writes-Distinct env.now named) t)
                (rw (good, create_user) at won)
        ]

  -- What passed the checks of a user that was created.
  pub create_user-checked :
      (env : Env) (t : Table) (given u : User)
      → (create_user db normalize env t given).1 ≡ ok u
      → (check_tenant env.multi_tenant given.tenant_id ≡ none)
        × (check_id given.id ≡ none)
        × (check_email (normalize given.email) ≡ none)
  unfolding create_user check_user
  create_user-checked env t given u won =
      elim (Option-cases
        (check_user env given.id given.tenant_id or_else check_email (normalize given.email))) [
          | inr (e, bad) ↦ absurd (cc (rw (bad, create_user) at won))
          | inl good ↦ (ground (arith, good), ground (arith, good), ground (arith, good))
        ]
