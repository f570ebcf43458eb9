-- ===== src/Migrating/Provision.antt =====
-- What the lookup in dual-read mode answers (`GetUserByEmail`, internal/store/migrating/migrating.go).
use awesome_lambda_auth.Migrating.{DirectoryLimiter, allow}
use awesome_lambda_auth.Migrating.Directory.{
  SourceError, Answer, Calling, CognitoUser, Directory, Mapped, MigratingStore, Provided, Texts,
  answer_of, answered, as_provided, created_or_found, declined, is_miss, is_taken, marker_of_ref,
  migrating_user_by_email, missed, provided, provision_from_source, user_from_source,
}
use awesome_lambda_auth.Errors.{
  Result-cases, Result, StoreError, ok, err, user_not_found, user_exists,
}
use awesome_lambda_auth.Common.{
  String, Bool, true, false, Option, ◌≡◌, ◌≢◌, ◌⊎◌, refl, ap, inl, inr, ◌∙◌, arith, Bool-cases,
  str-cases, ◌&&◌,
}
use awesome_lambda_auth.Database.{Dynamo}
use awesome_lambda_auth.Env.{Env}
use awesome_lambda_auth.Users.{User}
use awesome_lambda_auth.Migrating.Marker.{create_migrated_user, read_user_by_email}

is_miss_lem : (found : Result User) → is_miss found ≡ true → found ≡ err user_not_found
is_miss_lem (ok u) h = absurd (cc h)
is_miss_lem (err e) h = ground arith

is_taken_lem : (e : StoreError) → is_taken e ≡ true → e ≡ user_exists
is_taken_lem e h = ground arith

both_true : (a b : Bool) → (a && b) ≡ true → (a ≡ true) × (b ≡ true)
both_true true b h = (refl, h)
both_true false b h = absurd (cc h)

Provided-cases :
    {A : Type 0} (p : Provided A)
    → ((e : SourceError) × (p ≡ missed e)) ⊎ ((a : A) × (p ≡ provided a))
Provided-cases (missed e) = inl (e, refl)
Provided-cases (provided m) = inr (m, refl)

module _ (db : Dynamo) (x : Texts) (dir : Directory) (st : MigratingStore) where
  open db use {Table}

  -- The user stems from the directory's record for the address: the row was written for it with this
  -- deployment's marker, or another one had claimed the address and its row was read back.
  pub record Provisions (env : Env) (c : Calling Table) (email tenant : String)
      (new_id : Option String) (u : User) : Type 0 where
    pub rec : CognitoUser
    pub mapped : Mapped
    pub listed : dir.get_user (x.normalize email) ≡ answered rec
    pub from_source : user_from_source x st.attribute_map new_id rec ≡ provided mapped
    pub granted : (allow st.scale env.now (x.normalize email) c.lookups).1 ≡ true
    pub kept :
        let named = record mapped.user { tenant_id = tenant } in
        let (t, scope, made) =
          create_migrated_user db x.normalize env c.table c.scope named (marker_of_ref st.ref) in
        (made ≡ ok u)
        ⊎ ((made ≡ err user_exists)
            × ((read_user_by_email db x.normalize env t scope email tenant).1 ≡ ok u))

  as_provided_lem : (r : Result User) (u : User) → as_provided r ≡ provided u → r ≡ ok u
  as_provided_lem (ok v) u h = cc
  as_provided_lem (err e) u h = absurd (cc h)

  provided_lem : (v u : User) → Provided.provided v ≡ provided u → v ≡ u
  provided_lem v u h = cc h

  kept_lem :
      (env : Env) (c : Calling Table) (email tenant : String) (named u : User)
      → (created_or_found db x dir st env c email tenant named).1 ≡ provided u
      → let (t, scope, made) =
          create_migrated_user db x.normalize env c.table c.scope named (marker_of_ref st.ref) in
        (made ≡ ok u)
        ⊎ ((made ≡ err user_exists)
            × ((read_user_by_email db x.normalize env t scope email tenant).1 ≡ ok u))
  unfolding created_or_found
  kept_lem env c email tenant named u h =
      let out =
        create_migrated_user db x.normalize env c.table c.scope named (marker_of_ref st.ref) in
      elim (Result-cases out.2) [
        | inl (e, failed) ↦ elim (Bool-cases (is_taken e)) [
          | inl taken ↦ inr (
            failed ∙ ap err (is_taken_lem e taken),
            as_provided_lem _ u (rw (failed, taken, created_or_found) at h),
          )
          | inr other ↦ absurd (cc (rw (failed, other, created_or_found) at h))
        ]
        | inr (v, made) ↦ inl (made ∙ ap ok (provided_lem v u (rw (made, created_or_found) at h)))
      ]

  answer_lem :
      (env : Env) (c : Calling Table) (l : DirectoryLimiter) (email tenant : String)
      (new_id : Option String) (u : User) (answer : Answer CognitoUser)
      → dir.get_user (x.normalize email) ≡ answer
      → (allow st.scale env.now (x.normalize email) c.lookups).1 ≡ true
      → (answer_of db x dir st env (record c { lookups = l }) email tenant new_id answer).1
        ≡ provided u
      → Provisions env c email tenant new_id u
  unfolding answer_of
  answer_lem env c l email tenant new_id u (declined e) listed granted h = absurd (cc h)
  answer_lem env c l email tenant new_id u (answered rec) listed granted h =
      elim (Provided-cases (user_from_source x st.attribute_map new_id rec)) [
        | inl (e, failed) ↦ absurd (cc (rw (failed, answer_of) at h))
        | inr (mapped, from_source) ↦ record {
          rec = rec;
          mapped = mapped;
          listed = listed;
          from_source = from_source;
          granted = granted;
          kept =
              kept_lem env (record c { lookups = l }) email tenant
                (record mapped.user { tenant_id = tenant }) u (rw (from_source, answer_of) at h);
        }
      ]

  provision_from_source_lem :
      (env : Env) (c : Calling Table) (email tenant : String) (new_id : Option String) (u : User)
      → (provision_from_source db x dir st env c email tenant new_id).1 ≡ provided u
      → (x.normalize email ≢ "") × Provisions env c email tenant new_id u
  unfolding provision_from_source
  provision_from_source_lem env c email tenant new_id u h =
      let subject = x.normalize email in
      let limiter = allow st.scale env.now subject c.lookups in
      elim (str-cases subject "") [
        | inl (_, test) ↦ absurd (cc (rw (test, provision_from_source) at h))
        | inr (ne, test) ↦ elim (Bool-cases limiter.1) [
          | inr spent ↦ absurd (cc (rw (test, spent, provision_from_source) at h))
          | inl granted ↦ (
            ne,
            answer_lem env c limiter.0 email tenant new_id u (dir.get_user subject) refl granted
                (rw (test, granted, provision_from_source) at h),
          )
        ]
      ]

  -- A lookup by address answers as the store behind it does, a hit, a failure and a miss alike, and
  -- changes neither the table nor the limiter unless that was a miss in dual-read mode; or, at a
  -- miss in that mode, it answers a user from the old directory.
  pub migrating_user_by_email_law :
      (env : Env) (c : Calling Table) (email tenant : String) (new_id : Option String)
      → let (scope, found) = read_user_by_email db x.normalize env c.table c.scope email tenant in
        let (c', answer) = migrating_user_by_email db x dir st env c email tenant new_id in
        let falls = (found ≡ err user_not_found) × (st.dual_read ≡ true) in
        ((answer ≡ found) × (falls ⊎ ((c'.table ≡ c.table) × (c'.lookups ≡ c.lookups))))
        ⊎ (falls
            × ((u : User) × (answer ≡ ok u)
                × (x.normalize email ≢ "")
                × Provisions env (record c { scope = scope }) email tenant new_id u))
  unfolding migrating_user_by_email
  migrating_user_by_email_law env c email tenant new_id =
      let read = read_user_by_email db x.normalize env c.table c.scope email tenant in
      let c' = record c { scope = read.0 } in
      elim (Bool-cases (is_miss read.1 && st.dual_read)) [
        | inr stays ↦ inl (
          rw (stays, migrating_user_by_email) refl,
          inr (rw (stays, migrating_user_by_email) refl, rw (stays, migrating_user_by_email) refl),
        )
        | inl falls ↦
            let (miss, dual) = both_true (is_miss read.1) st.dual_read falls in
            let made = provision_from_source db x dir st env c' email tenant new_id in
            let same = is_miss_lem read.1 miss in
            elim (Provided-cases made.1) [
              | inl (e, missed_by) ↦
                  inl (rw (falls, missed_by, migrating_user_by_email) refl, inl (same, dual))
              | inr (u, found) ↦
                  let (named, origin) =
                    provision_from_source_lem env c' email tenant new_id u found in
                  inr (
                    (same, dual),
                    (u, rw (falls, found, migrating_user_by_email) refl, named, origin),
                  )
            ]
      ]
