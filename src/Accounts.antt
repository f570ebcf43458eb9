-- ===== src/Accounts.antt =====
-- Creating, finding and renaming a user: internal/store/dynamodb/users.go. `User.Metadata` and the
-- migration marker are left out; the marker is in Migrating/Marker.
pub mod Creation
pub mod Lookup
pub mod Factors
pub mod Deletion
pub mod Listed
pub mod Parts
pub mod Owns
pub mod Removal
use Prim.Native.String.{◌++◌}
use awesome_lambda_auth.Common.{
  lookup, ◌==◌, true, none, str_eq, if◌then◌else◌, some, Option, String, ℕ, List, [], ◌∷◌,
}
use awesome_lambda_auth.Users.{imported_key, string_map_av, User, user_from_item}
use awesome_lambda_auth.Database.{
  Value, tx_failed, committed, flag, num, unreachable, cancelled, fetched, put, text, update,
  attributes, stamp, Fetched, Item, Key, Outcome, TxOutcome, Write, Dynamo, written, refused,
  failed,
}
use awesome_lambda_auth.Keys.{user_pk, check_tenant, key_sep}
use awesome_lambda_auth.Errors.{user_exists, user_not_found, service, ◌or_else◌, Result, ok, err}
use awesome_lambda_auth.Database.Expression.{
  schema_version, get_s, is_some, remove, attribute_exists, attribute_not_exists, item_of, put_s,
  assign, put_t,
}
use awesome_lambda_auth.Tokens.{
  family_reset, family_magic, family_verify, hash_attr, family_echg, exp_attr, family_sms,
  profile_key, Family,
}
use awesome_lambda_auth.Transaction.{tx_failed_at, transact_write}
use awesome_lambda_auth.Tokens.Features.{email_item, email_key, check_email}
use awesome_lambda_auth.Env.{Env}
use awesome_lambda_auth.Items.{check_version}
use awesome_lambda_auth.Tokens.Store.{check_user}

-- `tp`: a missing time and the zero one are left out.
abbrev pub tp_value : Option ℕ → Option Value → Option Value
tp_value none old = old
tp_value (some t) old = if t == 0 then old else some (stamp t)

abbrev pub put_tp : String → Option ℕ → Item → Item
put_tp a o i = λ b. if str_eq b a then tp_value o (i b) else i b

-- A token's hash and its expiry, where they are there.
abbrev pub put_token : Family → String → Option ℕ → Item → Item
put_token f hash expiry i = put_tp (exp_attr f) expiry (put_s (hash_attr f) hash i)

unfoldable pub user_gsi1_sk : String → String → String
user_gsi1_sk tenant user = tenant ++ (key_sep ++ user)

abbrev value_or : Option Value → Option Value → Option Value
value_or none v = v
value_or (some w) v = some w

-- `av`, where there is a value.
abbrev pub put_av : String → Option Value → Item → Item
put_av name v i = λ a. if str_eq a name then value_or v (i a) else i a

unfoldable pub profile_item : User → Item
unfolding string_map_av
profile_item u = put_av imported_key (string_map_av (lookup imported_key u.metadata)) (
    put_token family_sms u.sms_code_hash u.sms_code_expires_at (
      put_token family_echg u.email_change_token_hash u.email_change_token_expiry (
        put_token family_verify u.email_verification_token_hash u.email_verification_token_expiry (
          put_token family_magic u.magic_link_token_hash u.magic_link_token_expires_at (
            put_token family_reset u.reset_token_hash u.reset_token_expires_at (
              put_t "updatedAt" u.updated_at (
                put_t "createdAt" u.created_at (
                  put_s "pendingEmail" u.pending_email (
                    put_s "totpSecret" u.totp_secret (
                      assign "isTotpEnabled" (flag u.is_totp_enabled) (
                        assign "require2FA" (flag u.require_2fa) (
                          assign "isEmailVerified" (flag u.is_email_verified) (
                            put_s "loginProvider" u.login_provider (
                              assign "isAdmin" (flag u.is_admin) (
                                put_s "role" u.role (
                                  put_s "lastName" u.last_name (
                                    put_s "firstName" u.first_name (
                                      put_s "phoneNumber" u.phone_number (
                                        put_s "passwordHash" u.password_hash (
                                          item_of (
                                            ("PK", text (user_pk u.tenant_id u.id))
                                            ∷ ("SK", text "PROFILE")
                                            ∷ ("_t", text "user")
                                            ∷ ("_v", num schema_version)
                                            ∷ ("userId", text u.id)
                                            ∷ ("tenantId", text u.tenant_id)
                                            ∷ ("email", text u.email)
                                            ∷ ("GSI1PK", text "USER")
                                            ∷ ("GSI1SK", text (user_gsi1_sk u.tenant_id u.id))
                                            ∷ [])))))))))))))))))))))

abbrev pub member_key : String → String → Key
member_key tenant user = ("TENANT#" ++ tenant, "MEMBER#" ++ user)

unfoldable pub membership_item : ℕ → String → String → Item
membership_item now user tenant = put_t "createdAt" now (
    item_of (
      ("PK", text ("TENANT#" ++ tenant))
      ∷ ("SK", text ("MEMBER#" ++ user))
      ∷ ("_t", text "member")
      ∷ ("_v", num schema_version)
      ∷ ("userId", text user)
      ∷ ("tenantId", text tenant)
      ∷ ("GSI1PK", text ("USERID#" ++ user))
      ∷ ("GSI1SK", text ("TENANT#" ++ tenant))
      ∷ []))

-- The three puts of `createUser`: neither the user nor the address may be there.
unfoldable pub account_writes : ℕ → User → List Write
unfolding profile_item membership_item
account_writes now u =
    record {
      at = profile_key u.tenant_id u.id;
      cond = attribute_not_exists "PK";
      effect = put (profile_item u);
    }
    ∷ record {
      at = email_key u.tenant_id u.email;
      cond = attribute_not_exists "PK";
      effect = put (email_item u.id u.tenant_id u.email);
    }
    ∷ record {
      at = member_key u.tenant_id u.id;
      cond = λ i. true;
      effect = put (membership_item now u.id u.tenant_id);
    }
    ∷ []

unfoldable pub account_done : User → TxOutcome → Result User
account_done u committed = ok u
account_done u tx_failed = err service
account_done u (cancelled rs) =
    if is_some (tx_failed_at rs 0)
    then err user_exists
    else if is_some (tx_failed_at rs 1)
    then err user_exists
    else err service

unfoldable pub found_user : Fetched → Result User
unfolding user_from_item
found_user unreachable = err service
found_user (fetched none) = err user_not_found
found_user (fetched (some i)) = user_from_item i

-- An empty name is removed.
abbrev pub set_or_remove : String → String → Item → Item
set_or_remove a v i = if str_eq v "" then remove a i else assign a (text v) i

unfoldable pub renamed : ℕ → String → String → Item → Item
renamed now first last i =
    set_or_remove "lastName" last
      (set_or_remove "firstName" first (assign "updatedAt" (stamp now) i))

unfoldable pub rename_write : ℕ → String → String → String → String → Write
unfolding renamed
rename_write now user tenant first last = record {
  at = profile_key tenant user;
  cond = attribute_exists "PK";
  effect = update (renamed now first last);
}

-- The item after the write, which the call asks for, is read off the one before it.
unfoldable pub rename_done : ℕ → String → String → Outcome → Result User
unfolding renamed user_from_item
rename_done now first last (written pre) = user_from_item (renamed now first last (attributes pre))
rename_done now first last (refused pre) = err user_not_found
rename_done now first last failed = err service

module _ (db : Dynamo) where
  open db use {Table, get_item, write_item}

  unfoldable pub create_user : (String → String) → Env → Table → User → Table × Result User
  unfolding check_user check_email account_done
  create_user normalize env t given =
      let u = record given { email = normalize given.email } in
      let (t', out) = transact_write db env.waits t (account_writes env.now u) in
      elim (check_user env given.id given.tenant_id or_else check_email u.email) [
        | some e ↦ (t, err e)
        | none ↦ (t', account_done u out)
      ]

  unfoldable pub get_user_by_id : Env → Table → String → String → Result User
  unfolding check_user found_user
  get_user_by_id env t id tenant = elim (check_user env id tenant) [
    | some e ↦ err e
    | none ↦ found_user (get_item t (profile_key tenant id))
  ]

  unfoldable pub user_of_pointer : Env → Table → String → Fetched → Result User
  unfolding get_user_by_id check_version
  user_of_pointer env t tenant unreachable = err service
  user_of_pointer env t tenant (fetched none) = err user_not_found
  user_of_pointer env t tenant (fetched (some p)) = elim (check_version p) [
    | some e ↦ err e
    | none ↦ get_user_by_id env t (get_s p "userId") tenant
  ]

  unfoldable pub get_user_by_email : (String → String) → Env → Table → String → String → Result User
  unfolding user_of_pointer check_tenant check_email
  get_user_by_email normalize env t email tenant =
      elim (check_tenant env.multi_tenant tenant or_else check_email (normalize email)) [
        | some e ↦ err e
        | none ↦ user_of_pointer env t tenant (get_item t (email_key tenant (normalize email)))
      ]

  unfoldable pub update_profile :
      Env → Table → String → String → String → String → Table × Result User
  unfolding check_user rename_done
  update_profile env t user tenant first last = elim (check_user env user tenant) [
    | some e ↦ (t, err e)
    | none ↦
        let (t', out) = write_item t (rename_write env.now user tenant first last) in
        (t', rename_done env.now first last out)
  ]
