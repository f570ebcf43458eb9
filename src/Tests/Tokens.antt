-- ===== src/Tests/Tokens.antt =====
-- Runs of the methods on a user's tokens.
use awesome_lambda_auth.RateLimit.{has_control}
use awesome_lambda_auth.Keys.{user_pk, check_hash, id_pattern, check_id, check_tenant}
use awesome_lambda_auth.Tokens.Features.{
  email_pk, check_email, check_change, change_done, change_writes, change_profile, change_fetched,
  apply_email_change,
}
use awesome_lambda_auth.Tokens.Store.{
  issue_done, check_user, check_issue, consumed, issue, updated, consume_single_use_token,
  issue_single_use_token, update_password, user_by_single_use_token,
}
use awesome_lambda_auth.Transaction.{is_transaction_conflict, transact_from, transact_write}
use awesome_lambda_auth.Tokens.{
  pointer_write, issue_write, invalid_err, issued, consume_cond, password_write, family_reset,
  profile_key, consume_write,
}
use awesome_lambda_auth.Tests.Data.{local_reads, env_at}
use awesome_lambda_auth.Tokens.Once.{
  consume_once, apply_change, issue_token, clear_token, run_token_calls, TokenCall,
}
use awesome_lambda_auth.Errors.{service, ok, err}
use awesome_lambda_auth.Tokens.Resolve.{
  issue_resolve, consume-Consumes, update_password-Adopts, Adopts,
}
use awesome_lambda_auth.Database.{num, failed, text, Contents, Item}
use awesome_lambda_auth.Database.Local.{write_local-ne_failed, local}
use awesome_lambda_auth.Items.{check_version}
use awesome_lambda_auth.Common.{
  some, str_eq, false, if◌then◌else◌, String, List, [], ◌∷◌, ◌≢◌, ◌⊎◌, refl, none, ◌≡◌, arith,
  eq_iff,
}
use awesome_lambda_auth.Tokens.Change.{apply_email_change-Changes, Changes}
use awesome_lambda_auth.Users.{user_from_item, User}
use awesome_lambda_auth.Database.Expression.{item_of}
use awesome_lambda_auth.Env.{Env}
use awesome_lambda_auth.Tokens.Issue.{Consumes}

abbrev profile : Item
profile = item_of (
    ("PK", text "USER#acme#u1")
    ∷ ("SK", text "PROFILE")
    ∷ ("_v", num 1)
    ∷ ("userId", text "u1")
    ∷ ("tenantId", text "acme")
    ∷ ("email", text "old@x.org")
    ∷ ("pendingEmail", text "new@x.org")
    ∷ ("migration", text "cognito")
    ∷ ("passwordHash", text "")
    ∷ [])

abbrev with_profile : Contents
with_profile k = if str_eq k.1 "PROFILE" then some profile else none

abbrev issued_once : Contents
issued_once =
    (issue_single_use_token local (env_at 1) with_profile family_reset "u1" "acme" "tok" 100 []).0

issues_it :
    (issue_single_use_token local (env_at 1) with_profile family_reset "u1" "acme" "tok" 100 []).1
    ≡ none
unfolding issue_single_use_token issue check_issue check_user check_tenant check_id check_hash
    id_pattern issue_write pointer_write issue_done transact_write transact_from
    is_transaction_conflict user_pk
issues_it = refl

consume_answers :
    (local.write_item issued_once (consume_write family_reset 2 "u1" "acme" "tok")).1 ≢ failed
consume_answers = write_local-ne_failed issued_once (consume_write family_reset 2 "u1" "acme" "tok")

issue_resolve_example :
    (user_by_single_use_token local (env_at 2) issued_once family_reset "tok").1
    ≡ user_from_item (issued family_reset 1 "tok" 100 [] profile)
issue_resolve_example =
    issue_resolve local (env_at 1) (env_at 2) with_profile family_reset "u1" "acme" "tok" 100 []
      profile refl tt refl issues_it refl (omega arith) (local_reads issued_once) consume_answers

abbrev user : User
user = record {
  id = "u1";
  email = "old@x.org";
  password_hash = "";
  tenant_id = "acme";
  phone_number = "";
  first_name = "";
  last_name = "";
  role = "";
  is_admin = false;
  login_provider = "";
  is_email_verified = false;
  require_2fa = false;
  is_totp_enabled = false;
  totp_secret = "";
  pending_email = "new@x.org";
  reset_token_hash = "tok";
  magic_link_token_hash = "";
  email_verification_token_hash = "";
  email_change_token_hash = "";
  sms_code_hash = "";
  created_at = 0;
  updated_at = 1;
  reset_token_expires_at = some 100;
  magic_link_token_expires_at = none;
  email_verification_token_expiry = none;
  email_change_token_expiry = none;
  sms_code_expires_at = none;
  metadata = [];
}

-- The profile, holding a token.
abbrev with_token : Contents
with_token k =
    if str_eq k.1 "PROFILE" then some (issued family_reset 1 "tok" 100 [] profile) else none

consumes_it :
    (consume_single_use_token local (env_at 2) with_token family_reset "u1" "acme" "tok").1
    ≡ ok user
unfolding consume_single_use_token consumed consume_write consume_cond user_from_item check_version
    issued
consumes_it = refl

abbrev token_calls : List (Env × TokenCall)
token_calls =
    (env_at 3, clear_token family_reset "u1" "acme")
    ∷ (env_at 4, issue_token family_reset "u1" "acme" "other" 100)
    ∷ (env_at 5, apply_change "u1" "acme")
    ∷ []

other-ne_tok : ◌≢◌ {A = String} "other" "tok"
other-ne_tok = ground (arith, eq_iff "other" "tok")

consume_once_example :
    let again =
      (consume_single_use_token local
        (env_at 6)
        (run_token_calls local
          (λ e. e)
          (consume_single_use_token local (env_at 2) with_token family_reset "u1" "acme" "tok").0
          token_calls)
        family_reset
        "u1"
        "acme"
        "tok").1 in
    (again ≡ err (invalid_err family_reset)) ⊎ (again ≡ err service)
consume_once_example =
    consume_once local (λ e. e) (env_at 2) (env_at 6) with_token family_reset "u1" "acme" "tok" user
      token_calls refl refl consumes_it (tt, (other-ne_tok, (tt, tt)))

consume-Consumes_example :
    Consumes family_reset 2 "tok"
      (profile_key "acme" "u1")
      user
      with_token
      (consume_single_use_token local (env_at 2) with_token family_reset "u1" "acme" "tok").0
consume-Consumes_example =
    consume-Consumes local (env_at 2) with_token family_reset "u1" "acme" "tok" user refl
      consumes_it

changes_it : (apply_email_change local (env_at 2) with_profile "u1" "acme").1 ≡ none
unfolding apply_email_change change_fetched change_profile change_writes change_done check_change
    check_email check_user check_tenant check_id check_version id_pattern transact_write
    transact_from is_transaction_conflict email_pk user_pk has_control
changes_it = refl

apply_email_change-Changes_example :
    Changes 2 with_profile
      (apply_email_change local (env_at 2) with_profile "u1" "acme").0
      "u1"
      "acme"
apply_email_change-Changes_example =
    apply_email_change-Changes local (env_at 2) with_profile "u1" "acme" changes_it

adopts_it : (update_password local (env_at 2) with_profile "u1" "acme" "bcrypt").1 ≡ none
unfolding update_password updated password_write check_user check_tenant check_id id_pattern
adopts_it = refl

update_password-Adopts_example :
    Adopts "bcrypt"
      (profile_key "acme" "u1")
      with_profile
      (update_password local (env_at 2) with_profile "u1" "acme" "bcrypt").0
update_password-Adopts_example =
    update_password-Adopts local (env_at 2) with_profile "u1" "acme" "bcrypt" adopts_it
