-- ===== src/Migrating/Gate.antt =====
-- Whom the password verifier asks the old directory about (internal/store/migrating/verifier.go),
-- behind the profile read of the same request.
use mathlib.Core.Path.{subst}
use awesome_lambda_auth.Common.{
  true, ℕ, String, Option, none, some, ◌≡◌, ◌≢◌, ◌⊎◌, refl, sym, ap, inl, inr, ◌∙◌, arith,
  Option-cases, Bool-cases, str-cases,
}
use awesome_lambda_auth.Database.Expression.{get_s}
use awesome_lambda_auth.Tokens.Features.{email_key, check_email}
use awesome_lambda_auth.Items.{check_version}
use awesome_lambda_auth.Accounts.{user_of_pointer, get_user_by_email, get_user_by_id, found_user}
use awesome_lambda_auth.Keys.{check_tenant}
use awesome_lambda_auth.Migrating.Marker.{
  scope_of_pointer, filed_if_read, scope_of_id, record_migration_marker, take_migration_marker,
  MigrationScope, read_user_by_email, marker_from_item,
}
use awesome_lambda_auth.Tokens.Store.{check_user}
use awesome_lambda_auth.Migrating.{allow, DirectoryLimiter}
use awesome_lambda_auth.Database.{Dynamo, Fetched, fetched, unreachable, Item}
use awesome_lambda_auth.Errors.{ok, ◌or_else◌}
use awesome_lambda_auth.Env.{Env}
use awesome_lambda_auth.Users.{User}
use awesome_lambda_auth.Tokens.{profile_key}
use awesome_lambda_auth.Migrating.Directory.{Directory, MigratingStore, matches}
use awesome_lambda_auth.Migrating.Verifier.{Verified, rejected, verdict, password_verifier}

taken_lem :
    (s : MigrationScope) (id : String)
    → ((take_migration_marker (some s) id).1 ≡ none)
      ⊎ (((take_migration_marker (some s) id).1 ≡ some s.marker)
          × (s.set ≡ true)
          × (s.user_id ≡ id))
unfolding take_migration_marker
taken_lem s id = elim (str-cases s.user_id id) [
  | inr (other, test) ↦ inl ground arith
  | inl (same, test) ↦ elim (Bool-cases s.set) [
    | inr unset ↦ inl ground arith
    | inl filed ↦ inr (ground arith, filed, same)
  ]
]

module _ (dir : Directory) (st : MigratingStore) where
  -- The scope holds a marker of this deployment for the user, and the directory decided.
  pub record Consults (user : User) (password : String) (s : MigrationScope) (v : Verified)
      : Type 0 where
    pub filed : s.set ≡ true
    pub same_user : s.user_id ≡ user.id
    pub ours : matches st.ref s.marker ≡ true
    pub not_empty : password ≢ ""
    pub about : v.asked ≡ some user.email
    pub says : v.said ≡ verdict (dir.verify_password user.email password)

  pub verifier_lem :
      (now : ℕ) (scope : Option MigrationScope) (l : DirectoryLimiter) (user : User)
      (password : String)
      → let v = password_verifier dir st now scope l user password in
        ((v.asked ≡ none) × (v.said ≡ rejected))
        ⊎ ((s : MigrationScope) × (scope ≡ some s) × Consults user password s v)
  unfolding password_verifier
  verifier_lem now none l user password = inl (refl, refl)
  verifier_lem now (some s) l user password = elim (taken_lem s user.id) [
    | inl missing ↦ inl (rw (missing, password_verifier) refl, rw (missing, password_verifier) refl)
    | inr (found, filed, same) ↦ elim (Bool-cases (matches st.ref s.marker)) [
      | inr other ↦
          inl (rw (found, other, password_verifier) refl, rw (found, other, password_verifier) refl)
      | inl ours ↦ elim (str-cases password "") [
        | inl (_, test) ↦ inl (
          rw (found, ours, test, password_verifier) refl,
          rw (found, ours, test, password_verifier) refl,
        )
        | inr (ne, test) ↦ elim (Bool-cases (allow st.scale now user.id l).1) [
          | inr spent ↦ inl (
            rw (found, ours, test, spent, password_verifier) refl,
            rw (found, ours, test, spent, password_verifier) refl,
          )
          | inl granted ↦ inr (
            s,
            refl,
            record {
              filed = filed;
              same_user = same;
              ours = ours;
              not_empty = ne;
              about = rw (found, ours, test, granted, password_verifier) refl;
              says = rw (found, ours, test, granted, password_verifier) refl;
            },
          )
        ]
      ]
    ]
  ]

abbrev scope_or : MigrationScope → Option MigrationScope → MigrationScope
scope_or default_ none = default_
scope_or default_ (some s) = s

abbrev item_at : Fetched → Option Item
item_at unreachable = none
item_at (fetched found) = found

module _ (db : Dynamo) (normalize : String → String) where
  open db use {Table, contents, get_item, get_law}

  -- A profile that was read left its marker in the scope.
  filed_lem :
      (id : String) (scope : Option MigrationScope) (f : Fetched) (user : User) (s : MigrationScope)
      → filed_if_read id scope f ≡ some s
      → found_user f ≡ ok user
      → (i : Item) × (f ≡ fetched (some i)) × (s.user_id ≡ id) × (s.marker ≡ marker_from_item i)
  unfolding found_user record_migration_marker
  filed_lem id scope unreachable user s h won = absurd (cc won)
  filed_lem id scope (fetched none) user s h won = absurd (cc won)
  filed_lem id none (fetched (some i)) user s h won = absurd (cc h)
  filed_lem id (some old) (fetched (some i)) user s h won =
      let same = ap (scope_or old) h in
      (
        i,
        refl,
        sym (ap (λ (u : MigrationScope). u.user_id) same),
        sym (ap (λ (u : MigrationScope). u.marker) same),
      )

  -- The user's profile is in the table, and the scope holds its marker.
  abbrev pub HasProfile : Table → String → User → MigrationScope → Type 0
  HasProfile t tenant user s =
      (i : Item) × (contents t (profile_key tenant user.id) ≡ some i)
      × (s.marker ≡ marker_from_item i)

  from_id :
      (env : Env) (t : Table) (scope : Option MigrationScope) (id tenant : String) (user : User)
      (s : MigrationScope)
      → scope_of_id db env t scope id tenant ≡ some s
      → get_user_by_id db env t id tenant ≡ ok user
      → s.user_id ≡ user.id
      → HasProfile t tenant user s
  unfolding scope_of_id get_user_by_id
  from_id env t scope id tenant user s filed won same =
      elim (Option-cases (check_user env id tenant)) [
        | inr (e, bad) ↦ absurd (cc (rw (bad, get_user_by_id) at won))
        | inl good ↦
            let k = profile_key tenant id in
            let (i, read, by_id, marker) =
              filed_lem id scope (get_item t k) user s (rw (good, scope_of_id) at filed)
                (rw (good, get_user_by_id) at won) in
            elim (get_law t k) [
              | inr lost ↦ absurd (cc (sym lost ∙ read))
              | inl stored ↦ (
                i,
                subst (λ v. contents t (profile_key tenant v) ≡ some i) (sym by_id ∙ same)
                    (ap item_at (sym stored ∙ read)),
                marker,
              )
            ]
      ]

  from_pointer :
      (env : Env) (t : Table) (scope : Option MigrationScope) (tenant : String) (f : Fetched)
      (user : User) (s : MigrationScope)
      → scope_of_pointer db env t scope tenant f ≡ some s
      → user_of_pointer db env t tenant f ≡ ok user
      → s.user_id ≡ user.id
      → HasProfile t tenant user s
  unfolding scope_of_pointer user_of_pointer
  from_pointer env t scope tenant unreachable user s filed won same = absurd (cc won)
  from_pointer env t scope tenant (fetched none) user s filed won same = absurd (cc won)
  from_pointer env t scope tenant (fetched (some p)) user s filed won same =
      elim (Option-cases (check_version p)) [
        | inr (e, bad) ↦ absurd (cc (rw (bad, user_of_pointer) at won))
        | inl good ↦
            from_id env t scope (get_s p "userId") tenant user s
              (rw (good, scope_of_pointer) at filed) (rw (good, user_of_pointer) at won) same
      ]

  -- A user that was read by address: the scope for its id holds the marker of its profile.
  pub read_user-HasProfile :
      (env : Env) (t : Table) (scope : Option MigrationScope) (email tenant : String) (user : User)
      (s : MigrationScope)
      → (read_user_by_email db normalize env t scope email tenant).0 ≡ some s
      → (read_user_by_email db normalize env t scope email tenant).1 ≡ ok user
      → s.user_id ≡ user.id
      → HasProfile t tenant user s
  unfolding read_user_by_email get_user_by_email
  read_user-HasProfile env t scope email tenant user s filed won same =
      elim (Option-cases
        (check_tenant env.multi_tenant tenant or_else check_email (normalize email))) [
          | inr (e, bad) ↦ absurd (cc (rw (bad, read_user_by_email, get_user_by_email) at won))
          | inl good ↦
              from_pointer env t scope tenant (get_item t (email_key tenant (normalize email))) user
                s (rw (good, read_user_by_email) at filed)
                (rw (good, read_user_by_email, get_user_by_email) at won) same
        ]

  module _ (dir : Directory) (st : MigratingStore) where
    -- What the directory was asked, and why it might be.
    pub record IsEntitled (t : Table) (tenant : String) (user : User) (password : String)
        (v : Verified) : Type 0 where
      pub profile : Item
      pub stored : contents t (profile_key tenant user.id) ≡ some profile
      pub ours : matches st.ref (marker_from_item profile) ≡ true
      pub not_empty : password ≢ ""
      pub about : v.asked ≡ some user.email
      pub says : v.said ≡ verdict (dir.verify_password user.email password)

    -- At the login of a user that was read by address, the verifier asks the old directory only about
    -- the stored address of a user whose profile in the table carries this deployment's marker, with
    -- a password that is not empty, and says what the directory decides; otherwise it asks nothing
    -- and rejects.
    pub login_asks-IsEntitled :
        (env : Env) (t : Table) (scope : Option MigrationScope) (email tenant : String)
        (user : User) (l : DirectoryLimiter) (password : String)
        → (read_user_by_email db normalize env t scope email tenant).1 ≡ ok user
        → let filed = (read_user_by_email db normalize env t scope email tenant).0 in
          let v = password_verifier dir st env.now filed l user password in
          ((v.asked ≡ none) × (v.said ≡ rejected)) ⊎ IsEntitled t tenant user password v
    login_asks-IsEntitled env t scope email tenant user l password won =
        let filed = (read_user_by_email db normalize env t scope email tenant).0 in
        elim (verifier_lem dir st env.now filed l user password) [
          | inl refused ↦ inl refused
          | inr (s, is_filed, consults) ↦
              let (i, stored, marker) =
                read_user-HasProfile env t scope email tenant user s is_filed won
                  consults.same_user in
              inr (record {
                profile = i;
                stored = stored;
                ours = rw (sym marker) consults.ours;
                not_empty = consults.not_empty;
                about = consults.about;
                says = consults.says;
              })
        ]
