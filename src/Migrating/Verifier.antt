-- ===== src/Migrating/Verifier.antt =====
-- The password verifier of a migration: `PasswordVerifier`, internal/store/migrating/verifier.go.
use awesome_lambda_auth.Common.{ℕ, String, not, Option, none, some, str_eq, if◌then◌else◌}
use awesome_lambda_auth.Users.{User}
use awesome_lambda_auth.Migrating.{DirectoryLimiter, allow}
use awesome_lambda_auth.Migrating.Marker.{MigrationScope, take_migration_marker}
use awesome_lambda_auth.Migrating.Directory.{
  Directory, DirectoryError, MigratingStore, matches, no_such_user, password_rejected,
  not_confirmed, reset_required, challenge,
}

-- `(false, false, nil)`, `(true, true, nil)` and an error.
pub data Verdict : Type 0 where
  rejected adopted undecided : Verdict

abbrev pub verdict : Option DirectoryError → Verdict
verdict none = adopted
verdict (some no_such_user) = rejected
verdict (some password_rejected) = rejected
verdict (some not_confirmed) = rejected
verdict (some reset_required) = rejected
verdict (some challenge) = rejected
verdict (some e) = undecided

-- The verdict, the state behind the call, and the address that the directory was asked about.
pub record Verified : Type 0 where
  pub said : Verdict
  pub scope : Option MigrationScope
  pub verifications : DirectoryLimiter
  pub asked : Option String

abbrev refused_with : Option MigrationScope → DirectoryLimiter → Verified
refused_with scope l = record { said = rejected; scope = scope; verifications = l; asked = none }

unfoldable pub password_verifier :
    Directory
    → MigratingStore
    → ℕ
    → Option MigrationScope
    → DirectoryLimiter
    → User
    → String
    → Verified
unfolding take_migration_marker matches allow
password_verifier dir st now scope l user password =
    let (scope', taken) = take_migration_marker scope user.id in
    let refusal = refused_with scope' l in
    let (l', granted) = allow st.scale now user.id l in
    elim taken [
      | none ↦ refusal
      | some m ↦
          if not (matches st.ref m)
          then refusal
          else if str_eq password ""
          then refusal
          else if not granted
          then refused_with scope' l'
          else record {
            said = verdict (dir.verify_password user.email password);
            scope = scope';
            verifications = l';
            asked = some user.email;
          }
    ]
