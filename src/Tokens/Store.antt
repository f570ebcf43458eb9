-- ===== src/Tokens/Store.antt =====
-- The methods of internal/store/dynamodb/tokens.go: setting the password, and issuing, consuming and
-- clearing a token of any family.
use awesome_lambda_auth.Database.{
  tx_failed, committed, unreachable, failed, cancelled, fetched, refused, written, Fetched, Dynamo,
  Outcome, TxOutcome,
}
use awesome_lambda_auth.Errors.{
  wrong_extras, hash_bound, no_pointer, user_not_found, err, service, ◌or_else◌, Result, StoreError,
}
use awesome_lambda_auth.Common.{
  [], ◌==◌, ◌∷◌, length, str_eq, not, if◌then◌else◌, none, some, List, Option, String, ℕ,
}
use awesome_lambda_auth.Tokens.{
  extra_issue_attrs, token_key, hash_attr, has_pointer, invalid_err, pointer_write, profile_key,
  clear_write, consume_write, issue_write, password_write, TokenExtra, Family,
}
use awesome_lambda_auth.Transaction.{tx_failed_at, transact_write}
use awesome_lambda_auth.Database.Expression.{get_s, is_some}
use awesome_lambda_auth.Keys.{check_hash, check_id, check_tenant}
use awesome_lambda_auth.Users.{User, user_from_item}
use awesome_lambda_auth.Items.{check_version}
use awesome_lambda_auth.Env.{Env}

-- A conditional update of the profile: what its answer means.
unfoldable pub updated : Outcome → Option StoreError
updated (written pre) = none
updated (refused pre) = some user_not_found
updated failed = some service

unfoldable pub check_user : Env → String → String → Option StoreError
check_user env user tenant = check_tenant env.multi_tenant tenant or_else check_id user

-- The checks of `issueSingleUseToken`.
unfoldable pub check_issue :
    Env → Family → String → String → String → List TokenExtra → Option StoreError
unfolding check_user
check_issue env f user tenant hash extras =
    check_user env user tenant
    or_else check_hash hash
    or_else (if length extras == length (extra_issue_attrs f) then none else some wrong_extras)

unfoldable pub issue_done : TxOutcome → Option StoreError
issue_done committed = none
issue_done tx_failed = some service
issue_done (cancelled rs) =
    if is_some (tx_failed_at rs 0)
    then some user_not_found
    else if is_some (tx_failed_at rs 1)
    then some hash_bound
    else some service

unfoldable pub consumed : Family → Outcome → Result User
unfolding user_from_item
consumed f (written none) = err (invalid_err f)
consumed f (written (some i)) = user_from_item i
consumed f (refused pre) = err (invalid_err f)
consumed f failed = err service

-- The comparison of `userByTokenNonAtomic` with the profile.
unfoldable pub matched : Family → String → Fetched → Result User
unfolding user_from_item
matched f hash unreachable = err service
matched f hash (fetched none) = err (invalid_err f)
matched f hash (fetched (some i)) =
    if str_eq (get_s i (hash_attr f)) hash then user_from_item i else err (invalid_err f)

module _ (db : Dynamo) where
  open db use {Table, get_item, write_item}

  unfoldable pub update_password :
      Env → Table → String → String → String → Table × Option StoreError
  unfolding updated check_user
  update_password env t user tenant hash = elim (check_user env user tenant) [
    | some e ↦ (t, some e)
    | none ↦
        let (t', out) = write_item t (password_write env.now user tenant hash) in (t', updated out)
  ]

  unfoldable pub issue :
      Env
      → Table
      → Family
      → String
      → String
      → String
      → ℕ
      → List TokenExtra
      → Table × Option StoreError
  unfolding issue_done updated
  issue env t f user tenant hash expiry extras =
      let profile = issue_write f env.now user tenant hash expiry extras in
      let pointer = pointer_write f user tenant hash expiry in
      let (t', out) = write_item t profile in
      let (t'', done) = transact_write db env.waits t (profile ∷ pointer ∷ []) in
      if has_pointer f then (t'', issue_done done) else (t', updated out)

  unfoldable pub issue_single_use_token :
      Env
      → Table
      → Family
      → String
      → String
      → String
      → ℕ
      → List TokenExtra
      → Table × Option StoreError
  unfolding issue check_issue
  issue_single_use_token env t f user tenant hash expiry extras =
      elim (check_issue env f user tenant hash extras) [
        | some e ↦ (t, some e)
        | none ↦ issue env t f user tenant hash expiry extras
      ]

  unfoldable pub consume_single_use_token :
      Env → Table → Family → String → String → String → Table × Result User
  unfolding consumed matched
  consume_single_use_token env t f user tenant hash =
      let (t', out) = write_item t (consume_write f env.now user tenant hash) in
      if env.consume_on_read
      then (t', consumed f out)
      else (t, matched f hash (get_item t (profile_key tenant user)))

  unfoldable pub user_by_pointer : Env → Table → Family → String → Fetched → Table × Result User
  unfolding consume_single_use_token check_version
  user_by_pointer env t f hash unreachable = (t, err service)
  user_by_pointer env t f hash (fetched none) = (t, err (invalid_err f))
  user_by_pointer env t f hash (fetched (some p)) = elim (check_version p) [
    | some e ↦ (t, err e)
    | none ↦ consume_single_use_token env t f (get_s p "userId") (get_s p "tenantId") hash
  ]

  unfoldable pub user_by_single_use_token : Env → Table → Family → String → Table × Result User
  unfolding user_by_pointer
  user_by_single_use_token env t f hash =
      if not (has_pointer f) then (t, err no_pointer) else elim (check_hash hash) [
        | some e ↦ (t, err (invalid_err f))
        | none ↦ user_by_pointer env t f hash (get_item t (token_key f hash))
      ]

  unfoldable pub clear_single_use_token :
      Env → Table → Family → String → String → Table × Option StoreError
  unfolding updated check_user
  clear_single_use_token env t f user tenant = elim (check_user env user tenant) [
    | some e ↦ (t, some e)
    | none ↦ let (t', out) = write_item t (clear_write f user tenant) in (t', updated out)
  ]
