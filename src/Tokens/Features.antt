-- ===== src/Tokens/Features.antt =====
-- The methods of internal/store/dynamodb/feature_tokens.go that are more than a family's name, and
-- the check of an address (internal/store/dynamodb/keys.go).
use Prim.Native.String.{◌++◌, len}
use awesome_lambda_auth.Database.Expression.{
  remove, equals, assign, schema_version, attribute_exists, get_s, is_some, attribute_not_exists,
  item_of,
}
use awesome_lambda_auth.Database.{
  flag, tx_failed, committed, stamp, delete, num, unreachable, update, put, cancelled, fetched,
  text, Fetched, Write, Item, Key, Dynamo, TxOutcome,
}
use awesome_lambda_auth.Keys.{codes, check_hash, key_sep}
use awesome_lambda_auth.Tokens.{family_sms, family_echg, profile_key}
use awesome_lambda_auth.Common.{
  ◌&&◌, [], ltb, true, ◌∷◌, str_eq, if◌then◌else◌, none, some, Bool, List, Option, String, ℕ,
}
use awesome_lambda_auth.Errors.{
  invalid_code, user_exists, err, ◌or_else◌, invalid_email, invalid_token, no_pending_email_change,
  Result, user_not_found, service, StoreError,
}
use awesome_lambda_auth.RateLimit.{has_control}
use awesome_lambda_auth.Transaction.{tx_failed_at, transact_write}
use awesome_lambda_auth.Users.{User}
use awesome_lambda_auth.Tokens.Store.{
  consume_single_use_token, updated, check_user, issue_single_use_token,
}
use awesome_lambda_auth.Env.{Env}
use awesome_lambda_auth.Items.{check_version}

abbrev pub max_email_key_len : ℕ
max_email_key_len = 320

unfoldable pub check_email : String → Option StoreError
check_email email =
    if str_eq email ""
    then some invalid_email
    else if ltb max_email_key_len (len email)
    then some invalid_email
    else if has_control (codes email)
    then some invalid_email
    else none

unfoldable pub email_pk : String → String → String
email_pk tenant email = "EMAIL#" ++ (tenant ++ (key_sep ++ email))

abbrev pub email_key : String → String → Key
email_key tenant email = (email_pk tenant email, "EMAIL")

unfoldable pub verified_write : ℕ → String → String → Bool → Write
verified_write now user tenant verified = record {
  at = profile_key tenant user;
  cond = attribute_exists "PK";
  effect =
      update (λ i. assign "updatedAt" (stamp now) (assign "isEmailVerified" (flag verified) i));
}

abbrev pub email_item : String → String → String → Item
email_item user tenant email = item_of (
    ("PK", text (email_pk tenant email))
    ∷ ("SK", text "EMAIL")
    ∷ ("_t", text "email")
    ∷ ("_v", num schema_version)
    ∷ ("userId", text user)
    ∷ ("tenantId", text tenant)
    ∷ [])

-- The three writes of `ApplyEmailChange`: claim the new address, release the old one, and move the
-- profile over.
unfoldable pub change_writes : ℕ → String → String → String → String → List Write
change_writes now user tenant current pending =
    record {
      at = email_key tenant pending;
      cond = attribute_not_exists "PK";
      effect = put (email_item user tenant pending);
    }
    ∷ record { at = email_key tenant current; cond = λ i. true; effect = delete }
    ∷ record {
      at = profile_key tenant user;
      cond = λ i.
          attribute_exists "PK" i
          && equals "email" (text current) i
          && equals "pendingEmail" (text pending) i;
      effect = update (λ i.
          remove "pendingEmail" (assign "updatedAt" (stamp now) (assign "email" (text pending) i)));
    }
    ∷ []

abbrev moved_under : Option (Option Item) → StoreError
moved_under none = service
moved_under (some none) = user_not_found
moved_under (some (some i)) = invalid_token

unfoldable pub change_done : TxOutcome → Option StoreError
change_done committed = none
change_done tx_failed = some service
change_done (cancelled rs) =
    if is_some (tx_failed_at rs 0) then some user_exists else some (moved_under (tx_failed_at rs 2))

-- The checks of `ApplyEmailChange` on the profile's addresses.
unfoldable pub check_change : String → String → Option StoreError
unfolding check_email
check_change current pending =
    if str_eq pending ""
    then some no_pending_email_change
    else check_email pending or_else (if str_eq pending current then some user_exists else none)

module _ (db : Dynamo) where
  open db use {Table, get_item, write_item}

  -- `GetUserBySMSCodeHash`: the caller knows the user.
  unfoldable pub get_user_by_sms_code_hash :
      Env → Table → String → String → String → Table × Result User
  unfolding check_user consume_single_use_token
  get_user_by_sms_code_hash env t user tenant hash = elim (check_user env user tenant) [
    | some e ↦ (t, err e)
    | none ↦ elim (check_hash hash) [
      | some e ↦ (t, err invalid_code)
      | none ↦ consume_single_use_token db env t family_sms user tenant hash
    ]
  ]

  unfoldable pub mark_email_verified :
      Env → Table → String → String → Bool → Table × Option StoreError
  unfolding check_user updated
  mark_email_verified env t user tenant verified = elim (check_user env user tenant) [
    | some e ↦ (t, some e)
    | none ↦
        let (t', out) = write_item t (verified_write env.now user tenant verified) in
        (t', updated out)
  ]

  -- `normalize` is `normalizeEmail`, Go's lower case of the trimmed address.
  unfoldable pub update_email_change_token :
      (String → String)
      → Env
      → Table
      → String
      → String
      → String
      → String
      → ℕ
      → Table × Option StoreError
  unfolding check_email issue_single_use_token
  update_email_change_token normalize env t user tenant pending hash expiry =
      elim (check_email (normalize pending)) [
        | some e ↦ (t, some e)
        | none ↦
            issue_single_use_token db env t family_echg user tenant hash expiry
              (record { attr = "pendingEmail"; value = normalize pending } ∷ [])
      ]

  unfoldable pub change_profile :
      Env → Table → String → String → String → String → Table × Option StoreError
  unfolding change_done check_change
  change_profile env t user tenant current pending = elim (check_change current pending) [
    | some e ↦ (t, some e)
    | none ↦
        let (t', out) =
          transact_write db env.waits t (change_writes env.now user tenant current pending) in
        (t', change_done out)
  ]

  unfoldable pub change_fetched :
      Env → Table → String → String → Fetched → Table × Option StoreError
  unfolding change_profile check_version
  change_fetched env t user tenant unreachable = (t, some service)
  change_fetched env t user tenant (fetched none) = (t, some user_not_found)
  change_fetched env t user tenant (fetched (some i)) = elim (check_version i) [
    | some e ↦ (t, some e)
    | none ↦ change_profile env t user tenant (get_s i "email") (get_s i "pendingEmail")
  ]

  unfoldable pub apply_email_change : Env → Table → String → String → Table × Option StoreError
  unfolding check_user change_fetched
  apply_email_change env t user tenant = elim (check_user env user tenant) [
    | some e ↦ (t, some e)
    | none ↦ change_fetched env t user tenant (get_item t (profile_key tenant user))
  ]
