-- ===== src/Tests/Accounts.antt =====
-- Runs of creating and finding a user.
use awesome_lambda_auth.Common.{lookup, [], ◌∷◌, some, none, true, false, String, ◌≢◌, refl, ◌≡◌}
use awesome_lambda_auth.Users.{entries, other_value, User}
use awesome_lambda_auth.Tokens.Features.{email_key, email_pk, check_email}
use awesome_lambda_auth.Database.{attributes, Contents}
use awesome_lambda_auth.Database.Expression.{is_some}
use awesome_lambda_auth.Keys.{user_pk, id_pattern, check_id, check_tenant}
use awesome_lambda_auth.Transaction.{is_transaction_conflict, transact_from, transact_write}
use awesome_lambda_auth.Accounts.{account_done, account_writes, create_user}
use awesome_lambda_auth.RateLimit.{has_control}
use awesome_lambda_auth.Tests.Data.{empty, env_at}
use awesome_lambda_auth.Accounts.Creation.{create_user-Creates, create_user-taken, Creates}
use awesome_lambda_auth.Accounts.Lookup.{as_stored}
use awesome_lambda_auth.Tokens.Store.{check_user}
use awesome_lambda_auth.Database.Local.{local}
use awesome_lambda_auth.Errors.{ok}

abbrev account : User
account = record {
  id = "u1";
  email = "a@x.org";
  password_hash = "bcrypt";
  tenant_id = "acme";
  phone_number = "";
  first_name = "Ada";
  last_name = "";
  role = "";
  is_admin = false;
  login_provider = "";
  is_email_verified = true;
  require_2fa = false;
  is_totp_enabled = false;
  totp_secret = "";
  pending_email = "";
  reset_token_hash = "";
  magic_link_token_hash = "";
  email_verification_token_hash = "tok";
  email_change_token_hash = "";
  sms_code_hash = "";
  created_at = 1;
  updated_at = 0;
  reset_token_expires_at = none;
  magic_link_token_expires_at = none;
  email_verification_token_expiry = some 90;
  email_change_token_expiry = none;
  sms_code_expires_at = none;
  metadata =
      ("seen", other_value)
      ∷ ("imported", entries (("tier", some "gold") ∷ ("empty", some "") ∷ ("n", none) ∷ []))
      ∷ [];
}

abbrev same_text : String → String
same_text s = s

abbrev with_account : Contents
with_account = (create_user local same_text (env_at 1) empty account).0

creates_account : (create_user local same_text (env_at 1) empty account).1 ≡ ok account
unfolding create_user check_user check_tenant check_id check_email id_pattern has_control
    account_writes account_done transact_write transact_from is_transaction_conflict user_pk
    email_pk
creates_account = refl

create_user-Creates_example :
    (account ≡ record account { email = same_text account.email })
    × Creates 1 account empty with_account
create_user-Creates_example =
    create_user-Creates local same_text (env_at 1) empty account account creates_account

address_taken : is_some (attributes (with_account (email_key "acme" "a@x.org")) "PK") ≡ true
unfolding create_user check_user check_tenant check_id check_email id_pattern has_control
    account_writes account_done transact_write transact_from is_transaction_conflict user_pk
    email_pk
address_taken = refl

create_user-taken_example :
    (create_user local same_text (env_at 2) with_account (record account { id = "u2" })).1
    ≢ ok (record account { id = "u2" })
create_user-taken_example =
    create_user-taken local same_text (env_at 2) with_account (record account { id = "u2" })
      (record account { id = "u2" }) address_taken

-- One of three imported attributes survives, and nothing beside them.
survives_one :
    as_stored account
    ≡ record account { metadata = ("imported", entries (("tier", some "gold") ∷ [])) ∷ [] }
unfolding lookup
survives_one = refl
