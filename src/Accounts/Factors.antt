-- ===== src/Accounts/Factors.antt =====
-- The second factors of a user: internal/store/dynamodb/totp.go.
use awesome_lambda_auth.Common.{ℕ, String, Bool, Option, none, some}
use awesome_lambda_auth.Database.{
  Dynamo, Item, Outcome, Write, attributes, failed, flag, refused, stamp, update, written,
}
use awesome_lambda_auth.Database.Expression.{assign, attribute_exists}
use awesome_lambda_auth.Errors.{Result, StoreError, err, service, user_not_found}
use awesome_lambda_auth.Env.{Env}
use awesome_lambda_auth.Tokens.{profile_key}
use awesome_lambda_auth.Tokens.Store.{check_user}
use awesome_lambda_auth.Users.{User, user_from_item}
use awesome_lambda_auth.Accounts.{set_or_remove}

unfoldable pub with_totp : ℕ → String → Bool → Item → Item
with_totp now secret enabled i =
    set_or_remove "totpSecret" secret
      (assign "isTotpEnabled" (flag enabled) (assign "updatedAt" (stamp now) i))

unfoldable pub with_phone : ℕ → String → Item → Item
with_phone now phone i = set_or_remove "phoneNumber" phone (assign "updatedAt" (stamp now) i)

abbrev profile_update : String → String → (Item → Item) → Write
profile_update tenant user change = record {
  at = profile_key tenant user;
  cond = attribute_exists "PK";
  effect = update change;
}

abbrev totp_done : Outcome → Option StoreError
totp_done (written pre) = none
totp_done (refused pre) = some user_not_found
totp_done failed = some service

-- The item behind the write, which the call asks for, is read off the one before it.
unfoldable pub phone_done : (Item → Item) → Outcome → Result User
unfolding user_from_item
phone_done change (written pre) = user_from_item (change (attributes pre))
phone_done change (refused pre) = err user_not_found
phone_done change failed = err service

module _ (db : Dynamo) where
  open db use {Table, write_item}

  unfoldable pub update_totp_secret :
      Env → Table → String → String → String → Bool → Table × Option StoreError
  unfolding check_user with_totp
  update_totp_secret env t user tenant secret enabled =
      let (t', out) =
        write_item t (profile_update tenant user (with_totp env.now secret enabled)) in
      elim (check_user env user tenant) [ some e ↦ (t, some e) | none ↦ (t', totp_done out) ]

  unfoldable pub update_phone_number : Env → Table → String → String → String → Table × Result User
  unfolding check_user with_phone phone_done
  update_phone_number env t user tenant phone =
      let change = with_phone env.now phone in
      let (t', out) = write_item t (profile_update tenant user change) in
      elim (check_user env user tenant) [ some e ↦ (t, err e) | none ↦ (t', phone_done change out) ]
