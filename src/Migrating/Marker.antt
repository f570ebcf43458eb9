-- ===== src/Migrating/Marker.antt =====
-- The migration marker and the request's scope that carries it from the profile read to the password
-- verifier: internal/store/dynamodb/migration.go, the reads of users.go that file it, and
-- `CreateMigratedUser`.
use awesome_lambda_auth.Common.{
  ℕ, String, Bool, true, false, not, ◌&&◌, ◌||◌, Option, none, some, List, [], ◌∷◌, str_eq,
  if◌then◌else◌, lookup,
}
use awesome_lambda_auth.Database.{
  Value, object, Item, Write, Fetched, fetched, unreachable, Dynamo, put,
}
use awesome_lambda_auth.Database.Expression.{get_s}
use awesome_lambda_auth.Keys.{check_tenant}
use awesome_lambda_auth.Errors.{Result, ok, err, ◌or_else◌}
use awesome_lambda_auth.Env.{Env}
use awesome_lambda_auth.Items.{check_version}
use awesome_lambda_auth.Transaction.{transact_write}
use awesome_lambda_auth.Tokens.{profile_key}
use awesome_lambda_auth.Tokens.Store.{check_user}
use awesome_lambda_auth.Tokens.Features.{check_email, email_key}
use awesome_lambda_auth.Users.{User}
use awesome_lambda_auth.Accounts.{account_writes, account_done, profile_item, get_user_by_email}

-- The zero value means that the account was not imported.
pub record MigrationMarker : Type 0 where
  pub source : String
  pub pool : String

abbrev pub no_marker : MigrationMarker
no_marker = record { source = ""; pool = "" }

abbrev pub is_zero : MigrationMarker → Bool
is_zero m = str_eq m.source "" && str_eq m.pool ""

-- `migrationScope` of a request that was given one; `none` is a request without.
pub record MigrationScope : Type 0 where
  pub set : Bool
  pub user_id : String
  pub marker : MigrationMarker

-- `WithMigrationScope`: a second call leaves the first one's scope.
unfoldable pub with_migration_scope : Option MigrationScope → Option MigrationScope
with_migration_scope none = some (record { set = false; user_id = ""; marker = no_marker })
with_migration_scope (some scope) = some scope

unfoldable pub record_migration_marker :
    String → MigrationMarker → Option MigrationScope → Option MigrationScope
record_migration_marker id m none = none
record_migration_marker id m (some scope) = some (record { set = true; user_id = id; marker = m })

-- The marker that was filed for the user, if any, which is taken out of the scope.
unfoldable pub take_migration_marker :
    Option MigrationScope → String → Option MigrationScope × Option MigrationMarker
take_migration_marker none id = (none, none)
take_migration_marker (some scope) id =
    if not scope.set || not (str_eq scope.user_id id)
    then (some scope, none)
    else (some (record scope { set = false; marker = no_marker }), some scope.marker)

abbrev field : Option String → String
field none = ""
field (some v) = v

abbrev marker_of : Option Value → MigrationMarker
marker_of (some (object fields)) = record {
  source = field (lookup "source" fields);
  pool = field (lookup "pool" fields);
}
marker_of _ = no_marker

unfoldable pub marker_from_item : Item → MigrationMarker
marker_from_item i = marker_of (i "migration")

abbrev marker_field : String → String → List (String × String) → List (String × String)
marker_field name v rest = if str_eq v "" then rest else (name, v) ∷ rest

-- A marker with neither field is left out.
unfoldable pub marker_item : MigrationMarker → Option Value
marker_item m =
    if is_zero m
    then none
    else some (object (marker_field "source" m.source (marker_field "pool" m.pool [])))

abbrev set_marker : Option Value → Item → Item
set_marker none i = i
set_marker (some v) i = λ a. if str_eq a "migration" then some v else i a

unfoldable pub marked_item : MigrationMarker → Item → Item
unfolding marker_item
marked_item m i = set_marker (marker_item m) i

-- The writes of `createUser` with the marker in the profile, which is the first of them.
abbrev with_marked_profile : MigrationMarker → User → List Write → List Write
with_marked_profile m u [] = []
with_marked_profile m u (profile ∷ rest) =
    record profile { effect = put (marked_item m (profile_item u)) } ∷ rest

unfoldable pub migrated_writes : ℕ → User → MigrationMarker → List Write
unfolding account_writes
migrated_writes now u m = with_marked_profile m u (account_writes now u)

abbrev pub filed_if_created :
    MigrationMarker → Option MigrationScope → Result User → Option MigrationScope
filed_if_created m scope (err e) = scope
filed_if_created m scope (ok u) = record_migration_marker u.id m scope

abbrev pub filed_if_read : String → Option MigrationScope → Fetched → Option MigrationScope
filed_if_read id scope unreachable = scope
filed_if_read id scope (fetched none) = scope
filed_if_read id scope (fetched (some i)) = record_migration_marker id (marker_from_item i) scope

module _ (db : Dynamo) where
  open db use {Table, get_item}

  unfoldable pub create_migrated_user :
      (String → String)
      → Env
      → Table
      → Option MigrationScope
      → User
      → MigrationMarker
      → Table × Option MigrationScope × Result User
  unfolding check_user check_email account_done record_migration_marker
  create_migrated_user normalize env t scope given m =
      let u = record given { email = normalize given.email } in
      let (t', out) = transact_write db env.waits t (migrated_writes env.now u m) in
      elim (check_user env given.id given.tenant_id or_else check_email u.email) [
        | some e ↦ (t, scope, err e)
        | none ↦ (t', filed_if_created m scope (account_done u out), account_done u out)
      ]

  -- `GetUserByID` with the scope that it files the marker in.
  unfoldable pub scope_of_id :
      Env → Table → Option MigrationScope → String → String → Option MigrationScope
  unfolding check_user record_migration_marker
  scope_of_id env t scope id tenant = elim (check_user env id tenant) [
    | some e ↦ scope
    | none ↦ filed_if_read id scope (get_item t (profile_key tenant id))
  ]

  unfoldable pub scope_of_pointer :
      Env → Table → Option MigrationScope → String → Fetched → Option MigrationScope
  unfolding scope_of_id check_version
  scope_of_pointer env t scope tenant unreachable = scope
  scope_of_pointer env t scope tenant (fetched none) = scope
  scope_of_pointer env t scope tenant (fetched (some p)) = elim (check_version p) [
    | some e ↦ scope
    | none ↦ scope_of_id env t scope (get_s p "userId") tenant
  ]

  -- `GetUserByEmail` with the scope.
  unfoldable pub read_user_by_email :
      (String → String)
      → Env
      → Table
      → Option MigrationScope
      → String
      → String
      → Option MigrationScope × Result User
  unfolding scope_of_pointer check_tenant check_email get_user_by_email
  read_user_by_email normalize env t scope email tenant = (
    elim (check_tenant env.multi_tenant tenant or_else check_email (normalize email)) [
      | some e ↦ scope
      | none ↦ scope_of_pointer env t scope tenant (get_item t (email_key tenant (normalize email)))
    ],
    get_user_by_email db normalize env t email tenant,
  )
