-- ===== src/Tests/Migration.antt =====
-- Runs of the store and the verifier in front of the old directory.
use awesome_lambda_auth.Keys.{user_pk, id_pattern, check_id, check_tenant}
use awesome_lambda_auth.Tokens.Features.{email_pk, check_email}
use awesome_lambda_auth.Migrating.Verifier.{adopted, rejected, password_verifier}
use awesome_lambda_auth.Migrating.Marker.{
  marked_item, marker_from_item, scope_of_id, scope_of_pointer, take_migration_marker,
  migrated_writes, create_migrated_user, MigrationScope, no_marker, read_user_by_email,
}
use awesome_lambda_auth.Migrating.Provision.{Provisions, migrating_user_by_email_law}
use awesome_lambda_auth.Common.{
  ◌≢◌, ◌⊎◌, insert, lookup, if◌then◌else◌, true, false, Option, none, some, [], ◌∷◌, ◌≡◌, refl,
  str_eq, ◌*◌,
}
use awesome_lambda_auth.Migrating.Gate.{IsEntitled, login_asks-IsEntitled}
use awesome_lambda_auth.Errors.{user_not_found, err, ok}
use awesome_lambda_auth.Configuration.Text.{trim_space}
use awesome_lambda_auth.Migrating.Directory.{
  matches, marker_of_ref, assign_target, map_attribute, map_attributes, user_from_source,
  created_or_found, answer_of, provision_from_source, Calling, CognitoUser, Directory,
  MigratingStore, Texts, answered, declined, empty_user, migrating_user_by_email, no_such_user,
  password_rejected,
}
use awesome_lambda_auth.Migrating.{
  evict_locked, refilled, take_token, charge, charge_new, charge_subject, allow, DirectoryLimiter,
  token_scale,
}
use awesome_lambda_auth.Accounts.{user_of_pointer, account_done, get_user_by_email}
use awesome_lambda_auth.Transaction.{is_transaction_conflict, transact_from, transact_write}
use awesome_lambda_auth.RateLimit.{has_control}
use awesome_lambda_auth.Tokens.Store.{check_user}
use awesome_lambda_auth.Database.{Contents}
use awesome_lambda_auth.Database.Local.{local}
use awesome_lambda_auth.Users.{User}
use awesome_lambda_auth.Tests.Data.{empty, env_at}

abbrev texts : Texts
texts = record { normalize = λ s. s; equal_fold = str_eq }

abbrev known_user : CognitoUser
known_user = record {
  username = "ada";
  attributes = ("email", "a@x.org") ∷ ("email_verified", "true") ∷ ("given_name", "Ada") ∷ [];
  created_at = 1;
  updated_at = 2;
}

abbrev old_directory : Directory
old_directory = record {
  get_user = λ name. if str_eq name "a@x.org" then answered known_user else declined no_such_user;
  verify_password =
      λ name password. if str_eq password "right" then none else some password_rejected;
}

abbrev dual_reading : MigratingStore
dual_reading = record {
  ref = record { source = "cognito"; pool = "p1" };
  dual_read = true;
  attribute_map = none;
  scale = token_scale;
}

abbrev full : DirectoryLimiter
full = record {
  burst = 2 * token_scale;
  refill = 1;
  global = record { tokens = 2 * token_scale; last = 0; burst = 2 * token_scale; refill = 60 };
  subjects = [];
  max_subjects = 9;
}

abbrev request : Calling Contents
request = record {
  table = empty;
  scope = some (record { set = false; user_id = ""; marker = no_marker });
  lookups = full;
}

abbrev moved : User
moved = record (empty_user 1 2) {
  id = "usr_1";
  email = "a@x.org";
  tenant_id = "acme";
  first_name = "Ada";
  is_email_verified = true;
}

-- A miss in dual-read mode makes the local row.
provisions_moved :
    (migrating_user_by_email local texts old_directory dual_reading
      (env_at 3)
      request
      "a@x.org"
      "acme"
      (some "usr_1")).1
    ≡ ok moved
unfolding migrating_user_by_email provision_from_source answer_of created_or_found allow
    charge_subject charge_new charge take_token refilled user_from_source map_attributes
    map_attribute assign_target create_migrated_user read_user_by_email get_user_by_email check_user
    check_tenant check_id check_email id_pattern has_control account_done transact_write
    transact_from is_transaction_conflict user_of_pointer lookup insert evict_locked migrated_writes
    trim_space
provisions_moved = refl

abbrev after_move : Contents
after_move =
    (migrating_user_by_email local texts old_directory dual_reading (env_at 3) request "a@x.org"
      "acme" (some "usr_1")).0.table

migrating_user_by_email_law_example :
    let (scope, found) =
      read_user_by_email local texts.normalize (env_at 3) empty request.scope "a@x.org" "acme" in
    let (c', answer) =
      migrating_user_by_email local texts old_directory dual_reading
        (env_at 3)
        request
        "a@x.org"
        "acme"
        (some "usr_1") in
    let falls = (found ≡ err user_not_found) × (dual_reading.dual_read ≡ true) in
    ((answer ≡ found) × (falls ⊎ ((c'.table ≡ request.table) × (c'.lookups ≡ request.lookups))))
    ⊎ (falls
        × ((u : User) × (answer ≡ ok u)
            × (texts.normalize "a@x.org" ≢ "")
            × Provisions local texts old_directory dual_reading
                (env_at 3)
                (record request { scope = scope })
                "a@x.org"
                "acme"
                (some "usr_1")
                u))
migrating_user_by_email_law_example =
    migrating_user_by_email_law local texts old_directory dual_reading (env_at 3) request "a@x.org"
      "acme" (some "usr_1")

-- The profile of the moved user, as a table of it and of its address.
abbrev moved_table : Contents
moved_table =
    (create_migrated_user local texts.normalize (env_at 3) empty none moved
      (marker_of_ref dual_reading.ref)).0

reads_moved :
    (read_user_by_email local texts.normalize
      (env_at 4)
      moved_table
      request.scope
      "a@x.org"
      "acme").1
    ≡ ok moved
unfolding create_migrated_user migrated_writes read_user_by_email get_user_by_email check_user
    check_tenant check_id check_email id_pattern has_control account_done transact_write
    transact_from is_transaction_conflict user_of_pointer email_pk user_pk marked_item lookup
reads_moved = refl

abbrev filed : Option MigrationScope
filed =
    (read_user_by_email local texts.normalize (env_at 4) moved_table request.scope "a@x.org"
      "acme").0

login_asks-IsEntitled_example :
    let v = password_verifier old_directory dual_reading 4 filed full moved "right" in
    ((v.asked ≡ none) × (v.said ≡ rejected))
    ⊎ IsEntitled local texts.normalize old_directory dual_reading moved_table "acme" moved "right" v
login_asks-IsEntitled_example =
    login_asks-IsEntitled local texts.normalize old_directory dual_reading (env_at 4) moved_table
      request.scope "a@x.org" "acme" moved full "right" reads_moved

-- The right password is adopted.
adopts_moved :
    (password_verifier old_directory dual_reading 4 filed full moved "right").said ≡ adopted
unfolding create_migrated_user migrated_writes read_user_by_email get_user_by_email check_user
    check_tenant check_id check_email id_pattern has_control account_done transact_write
    transact_from is_transaction_conflict user_of_pointer password_verifier allow charge_subject
    charge_new charge take_token refilled lookup insert evict_locked matches take_migration_marker
    scope_of_pointer scope_of_id marker_from_item marked_item email_pk user_pk
adopts_moved = refl
