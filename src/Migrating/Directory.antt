-- ===== src/Migrating/Directory.antt =====
-- The store in front of the old directory: internal/store/migrating/migrating.go. The directory
-- (`CognitoDirectory`, internal/integration/aws) is a parameter, as it answers during the call. Loops
-- over Go maps read the list's order.
use awesome_lambda_auth.Common.{
  true, ℕ, String, Bool, false, not, ◌&&◌, ◌||◌, Option, none, some, List, [], ◌∷◌, str_eq,
  if◌then◌else◌, lookup,
}
use awesome_lambda_auth.Configuration.Text.{cut_prefix, trim_space}
use awesome_lambda_auth.Database.{Dynamo}
use awesome_lambda_auth.Errors.{Result, StoreError, ok, err, user_not_found, user_exists}
use awesome_lambda_auth.Env.{Env}
use awesome_lambda_auth.Users.{MetaValue, User, as_entries, entries, imported_key}
use awesome_lambda_auth.Migrating.{DirectoryLimiter, allow}
use awesome_lambda_auth.Migrating.Marker.{
  MigrationMarker, MigrationScope, is_zero, create_migrated_user, read_user_by_email,
}

pub record SourceRef : Type 0 where
  pub source : String
  pub pool : String

abbrev pub marker_of_ref : SourceRef → MigrationMarker
marker_of_ref r = record { source = r.source; pool = r.pool }

unfoldable pub matches : SourceRef → MigrationMarker → Bool
matches r m = not (is_zero m) && str_eq m.source r.source && str_eq m.pool r.pool

-- The sentinels of the directory's client, and any other failure of a call.
pub data DirectoryError : Type 0 where
  no_such_user password_rejected not_confirmed reset_required challenge : DirectoryError
  throttled client_has_secret other_failure : DirectoryError

-- `CognitoUser`, less what is not read of it; instants as everywhere.
pub record CognitoUser : Type 0 where
  pub username : String
  pub attributes : List (String × String)
  pub created_at : ℕ
  pub updated_at : ℕ

pub data Answer {ℓ} (A : Type ℓ) : Type ℓ where
  answered : A → Answer A
  declined : DirectoryError → Answer A

pub record Directory : Type 0 where
  pub get_user : String → Answer CognitoUser
  -- `none` is a password that is right
  pub verify_password : String → String → Option DirectoryError

-- What the package takes from Go and its table of Unicode: `normalizeEmail` and `strings.EqualFold`.
pub record Texts : Type 0 where
  pub normalize : String → String
  pub equal_fold : String → String → Bool

unfoldable pub is_known_target : String → Bool
unfolding cut_prefix
is_known_target target =
    str_eq target "-"
    || str_eq target "email"
    || str_eq target "isEmailVerified"
    || str_eq target "phoneNumber"
    || str_eq target "firstName"
    || str_eq target "lastName"
    || str_eq target "role"
    || (elim (cut_prefix target "metadata:") [ some key ↦ not (str_eq key "") | none ↦ false ])

-- `AttributeMap.Validate`: the entries whose target is unknown.
unfoldable pub unknown_targets : List (String × String) → List (String × String)
unfolding is_known_target
unknown_targets [] = []
unknown_targets ((name, target) ∷ rest) =
    let bad = unknown_targets rest in if is_known_target target then bad else (name, target) ∷ bad

abbrev pub default_attribute_map : List (String × String)
default_attribute_map =
    ("email", "email")
    ∷ ("email_verified", "isEmailVerified")
    ∷ ("phone_number", "phoneNumber")
    ∷ ("given_name", "firstName")
    ∷ ("family_name", "lastName")
    ∷ []

-- The loop's two variables: the user, and the imported attributes, latest first.
pub record Mapped : Type 0 where
  pub user : User
  pub imported : List (String × String)

abbrev import_under : Option String → String → Mapped → Mapped
import_under none value m = m
import_under (some key) value m =
    if str_eq key "" then m else record m { imported = (key, value) ∷ m.imported }

abbrev put_user : User → Mapped → Mapped
put_user u m = record m { user = u }

-- The attribute goes where the map says.
unfoldable pub assign_target : Texts → String → String → Mapped → Mapped
assign_target x target value m =
    if str_eq target "-"
    then m
    else if str_eq target "email"
    then put_user (record m.user { email = value }) m
    else if str_eq target "isEmailVerified"
    then put_user (record m.user { is_email_verified = x.equal_fold (trim_space value) "true" }) m
    else if str_eq target "phoneNumber"
    then put_user (record m.user { phone_number = value }) m
    else if str_eq target "firstName"
    then put_user (record m.user { first_name = value }) m
    else if str_eq target "lastName"
    then put_user (record m.user { last_name = value }) m
    else if str_eq target "role"
    then put_user (record m.user { role = value }) m
    else if str_eq value ""
    then m
    else import_under (cut_prefix target "metadata:") value m

unfoldable pub map_attribute : Texts → List (String × String) → String → String → Mapped → Mapped
unfolding assign_target cut_prefix
map_attribute x attrs name value m = elim (lookup name attrs) [
  | some target ↦ assign_target x target value m
  | none ↦ import_under (cut_prefix name "custom:") value m
]

unfoldable pub map_attributes :
    Texts → List (String × String) → List (String × String) → Mapped → Mapped
unfolding map_attribute
map_attributes x attrs [] m = m
map_attributes x attrs ((name, value) ∷ rest) m =
    map_attributes x attrs rest (map_attribute x attrs name value m)

abbrev pub empty_user : ℕ → ℕ → User
empty_user created updated = record {
  id = "";
  email = "";
  password_hash = "";
  tenant_id = "";
  phone_number = "";
  first_name = "";
  last_name = "";
  role = "";
  is_admin = false;
  login_provider = "";
  is_email_verified = false;
  require_2fa = false;
  is_totp_enabled = false;
  totp_secret = "";
  pending_email = "";
  reset_token_hash = "";
  magic_link_token_hash = "";
  email_verification_token_hash = "";
  email_change_token_hash = "";
  sms_code_hash = "";
  created_at = created;
  updated_at = updated;
  reset_token_expires_at = none;
  magic_link_token_expires_at = none;
  email_verification_token_expiry = none;
  email_change_token_expiry = none;
  sms_code_expires_at = none;
  metadata = [];
}

abbrev map_or_default : Option (List (String × String)) → List (String × String)
map_or_default none = default_attribute_map
map_or_default (some given) = given

abbrev nothing_mapped : ℕ → ℕ → Mapped
nothing_mapped created updated = record { user = empty_user created updated; imported = [] }

-- Why a fall-through gave no user.
pub data SourceError : Type 0 where
  not_in_source over_budget no_email no_random : SourceError
  directory_failed : DirectoryError → SourceError
  store_failed : StoreError → SourceError

pub data Provided {ℓ} (A : Type ℓ) : Type ℓ where
  provided : A → Provided A
  missed : SourceError → Provided A

abbrev pub imported_metadata : List (String × String) → List (String × MetaValue)
imported_metadata [] = []
imported_metadata (field ∷ rest) = (imported_key, entries (as_entries (field ∷ rest))) ∷ []

-- `UserFromSource`; `new_id` is what `NewUserID` drew, `none` where there was no randomness. The
-- imported attributes are the user's metadata.
unfoldable pub user_from_source :
    Texts → Option (List (String × String)) → Option String → CognitoUser → Provided Mapped
unfolding map_attributes
user_from_source x attrs new_id rec =
    let m =
      map_attributes x (map_or_default attrs) rec.attributes
        (nothing_mapped rec.created_at rec.updated_at) in
    let address = x.normalize m.user.email in
    if str_eq address "" then missed no_email else elim new_id [
      | none ↦ missed no_random
      | some id ↦ provided (record m {
        user = record m.user { email = address; id = id; metadata = imported_metadata m.imported };
      })
    ]

abbrev source_error : DirectoryError → SourceError
source_error no_such_user = not_in_source
source_error e = directory_failed e

-- `MigratingUserStore`, less its logger, clock and limiters.
pub record MigratingStore : Type 0 where
  pub ref : SourceRef
  pub dual_read : Bool
  pub attribute_map : Option (List (String × String))
  pub scale : ℕ

-- A call's state: the table, the request's scope, and the limiter of the lookups.
pub record Calling (Table : Type 0) : Type 0 where
  pub table : Table
  pub scope : Option MigrationScope
  pub lookups : DirectoryLimiter

abbrev pub as_provided : Result User → Provided User
as_provided (ok u) = provided u
as_provided (err e) = missed (store_failed e)

-- `errors.Is(err, ErrUserNotFound)`, and `errors.Is(err, auth.ErrUserExists)`.
abbrev pub is_miss : Result User → Bool
is_miss (err user_not_found) = true
is_miss _ = false

abbrev pub is_taken : StoreError → Bool
is_taken user_exists = true
is_taken _ = false

module _ (db : Dynamo) (x : Texts) (dir : Directory) (st : MigratingStore) where
  open db use {Table}

  -- The local row that another environment made first is read back.
  unfoldable pub created_or_found :
      Env → Calling Table → String → String → User → Calling Table × Provided User
  unfolding create_migrated_user read_user_by_email
  created_or_found env c email tenant u =
      let (t, scope, made) =
        create_migrated_user db x.normalize env c.table c.scope u (marker_of_ref st.ref) in
      let c' = record c { table = t; scope = scope } in
      let (scope', found) = read_user_by_email db x.normalize env t scope email tenant in
      elim made [
        | ok created ↦ (c', provided created)
        | err e ↦
            if is_taken e
            then (record c' { scope = scope' }, as_provided found)
            else (c', missed (store_failed e))
      ]

  unfoldable pub answer_of :
      Env
      → Calling Table
      → String
      → String
      → Option String
      → Answer CognitoUser
      → Calling Table × Provided User
  unfolding user_from_source created_or_found
  answer_of env c email tenant new_id (declined e) = (c, missed (source_error e))
  answer_of env c email tenant new_id (answered rec) =
      elim (user_from_source x st.attribute_map new_id rec) [
        | missed e ↦ (c, missed e)
        | provided m ↦ created_or_found env c email tenant (record m.user { tenant_id = tenant })
      ]

  unfoldable pub provision_from_source :
      Env → Calling Table → String → String → Option String → Calling Table × Provided User
  provision_from_source env c email tenant new_id =
      let subject = x.normalize email in
      let (limiter, granted) = allow st.scale env.now subject c.lookups in
      let c' = record c { lookups = limiter } in
      if str_eq subject ""
      then (c, missed not_in_source)
      else if granted
      then answer_of env c' email tenant new_id (dir.get_user subject)
      else (c', missed over_budget)

  -- `GetUserByEmail`: a fall-through that fails leaves the miss as it was.
  unfoldable pub migrating_user_by_email :
      Env → Calling Table → String → String → Option String → Calling Table × Result User
  unfolding provision_from_source read_user_by_email
  migrating_user_by_email env c email tenant new_id =
      let (scope, found) = read_user_by_email db x.normalize env c.table c.scope email tenant in
      let c' = record c { scope = scope } in
      let (c'', made) = provision_from_source env c' email tenant new_id in
      if is_miss found && st.dual_read
      then (elim made [ provided u ↦ (c'', ok u) | missed e ↦ (c'', found) ])
      else (c', found)
