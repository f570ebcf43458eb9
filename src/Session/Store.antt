-- ===== src/Session/Store.antt =====
-- The session store's methods (internal/store/dynamodb/sessions.go): creating, resolving, rotating
-- and revoking a session. Each takes the table and returns it with the method's result; an `error`
-- is an `Option StoreError`.
use awesome_lambda_auth.Items.{check_version}
use awesome_lambda_auth.Common.{
  ℕ, String, Bool, true, false, not, Option, none, some, str_eq, if◌then◌else◌,
}
use awesome_lambda_auth.Database.{
  Item, Dynamo, Fetched, fetched, unreachable, Outcome, written, refused, failed, TxOutcome,
  committed, cancelled, tx_failed,
}
use awesome_lambda_auth.Database.Expression.{get_s, get_n, has_s, is_some}
use awesome_lambda_auth.Errors.{
  StoreError, session_not_found, session_revoked, hash_bound, rotation_refused, service, ◌or_else◌,
  Result, ok, err,
}
use awesome_lambda_auth.Keys.{check_id, check_hash}
use awesome_lambda_auth.Transaction.{tx_failed_at, transact_write}
use awesome_lambda_auth.Session.{
  Session, RotationPrecondition, RotationScope, record_scope, rotation_pre_for, session_key,
  refresh_key, session_from_item, check_session, create_writes, rotate_writes, revoke_write,
  revoke_family_write, revoke_by_id_write,
}
use awesome_lambda_auth.Env.{Env}

module _ (db : Dynamo) where
  open db use {Table, get_item, write_item}

  unfoldable pub created : Table → Session → TxOutcome → Table × Result Session
  created t sess committed = (t, ok sess)
  created t sess tx_failed = (t, err service)
  created t sess (cancelled rs) =
      (t, err (if is_some (tx_failed_at rs 2) then hash_bound else service))

  unfoldable pub create_session : Env → Table → Session → Table × Result Session
  unfolding created
  create_session env t sess = elim (check_session env sess) [
    | some e ↦ (t, err e)
    | none ↦
        let (t', out) = transact_write db env.waits t (create_writes env sess) in
        created t' sess out
  ]

  unfoldable pub found_session : Fetched → Result Item
  found_session unreachable = err service
  found_session (fetched none) = err session_not_found
  found_session (fetched (some i)) = ok i

  unfoldable pub get_session_item : Table → String → Result Item
  unfolding found_session
  get_session_item t id = found_session (get_item t (session_key id))

  unfoldable pub get_session_by_id : Table → String → Result Session
  unfolding get_session_item
  get_session_by_id t id = elim (check_id id) [
    | some e ↦ err session_not_found
    | none ↦ elim (get_session_item t id) [ err e ↦ err e | ok i ↦ session_from_item i ]
  ]

  unfoldable pub family_revoked : Outcome → Option StoreError
  family_revoked (written pre) = none
  family_revoked (refused pre) = none
  family_revoked failed = some service

  -- Kills every generation: each refresh resolves through the session item.
  unfoldable pub revoke_family : Env → Table → String → String → ℕ → Table × Option StoreError
  unfolding family_revoked
  revoke_family env t id reason gen =
      let (t', out) = write_item t (revoke_family_write env.now id reason gen) in
      (t', family_revoked out)

  abbrev pub or_not_found : Option StoreError → StoreError
  or_not_found none = session_not_found
  or_not_found (some e) = e

  unfoldable pub replay_seen : Env → Table → String → ℕ → Table × StoreError
  unfolding revoke_family
  replay_seen env t id gen =
      let (t', e) = revoke_family env t id "refresh_replay" gen in (t', or_not_found e)

  abbrev pub recorded : Option RotationScope → String → String → ℕ → Option RotationScope
  recorded none id hash gen = none
  recorded (some scope) id hash gen =
      some (record_scope scope id (record { old_hash = hash; gen = gen; has_gen = true }))

  unfoldable pub judge_found :
      Env
      → Table
      → Option RotationScope
      → String
      → ℕ
      → Item
      → Result Session
      → Table × Option RotationScope × Result Session
  unfolding replay_seen record_scope
  judge_found env t scope hash pointer_gen current (err e) = (t, scope, err e)
  judge_found env t scope hash pointer_gen current (ok sess) =
      if is_some sess.revoked_at
      then (t, scope, ok sess)
      else if not (str_eq (get_s current "refreshHash") hash)
      then (let (t', e) = replay_seen env t sess.id pointer_gen in (t', scope, err e))
      else (t, recorded scope sess.id hash (get_n current "gen"), ok sess)

  -- The part of `GetSessionByRefreshTokenHash` behind the pointer and the session's item.
  unfoldable pub judge_session :
      Env
      → Table
      → Option RotationScope
      → String
      → ℕ
      → Item
      → Table × Option RotationScope × Result Session
  unfolding judge_found
  judge_session env t scope hash pointer_gen current =
      judge_found env t scope hash pointer_gen current (session_from_item current)

  unfoldable pub resolve_pointer :
      Env
      → Table
      → Option RotationScope
      → String
      → Fetched
      → Table × Option RotationScope × Result Session
  unfolding judge_session get_session_item
  resolve_pointer env t scope hash unreachable = (t, scope, err service)
  resolve_pointer env t scope hash (fetched none) = (t, scope, err session_not_found)
  resolve_pointer env t scope hash (fetched (some pointer)) = elim (check_version pointer) [
    | some e ↦ (t, scope, err e)
    | none ↦ elim (get_session_item t (get_s pointer "sessionId")) [
      | err e ↦ (t, scope, err e)
      | ok current ↦ judge_session env t scope hash (get_n pointer "gen") current
    ]
  ]

  unfoldable pub get_session_by_refresh_token_hash :
      Env → Table → Option RotationScope → String → Table × Option RotationScope × Result Session
  unfolding resolve_pointer
  get_session_by_refresh_token_hash env t scope hash = elim (check_hash hash) [
    | some e ↦ (t, scope, err session_not_found)
    | none ↦ resolve_pointer env t scope hash (get_item t (refresh_key hash))
  ]

  -- `classifyRotationLoss`, once it has a pre-image.
  unfoldable pub classify_item :
      Env → Table → String → RotationPrecondition → Bool → Item → Table × Option StoreError
  unfolding replay_seen
  classify_item env t id pre have_pre i =
      if has_s i "revokedAt"
      then (t, some session_revoked)
      else if not have_pre
      then (t, some rotation_refused)
      else (let (t', e) = replay_seen env t id pre.gen in (t', some e))

  unfoldable pub classify_fetched :
      Env → Table → String → RotationPrecondition → Bool → Fetched → Table × Option StoreError
  unfolding classify_item
  classify_fetched env t id pre have_pre unreachable = (t, some service)
  classify_fetched env t id pre have_pre (fetched none) = (t, some session_not_found)
  classify_fetched env t id pre have_pre (fetched (some i)) = classify_item env t id pre have_pre i

  unfoldable pub classify_rotation_loss :
      Env → Table → String → RotationPrecondition → Bool → Option Item → Table × Option StoreError
  unfolding classify_fetched
  classify_rotation_loss env t id pre have_pre none =
      classify_fetched env t id pre have_pre (get_item t (session_key id))
  classify_rotation_loss env t id pre have_pre (some i) = classify_item env t id pre have_pre i

  unfoldable pub rotation_done :
      Env → Table → Session → RotationPrecondition → Bool → TxOutcome → Table × Option StoreError
  unfolding classify_rotation_loss
  rotation_done env t sess pre have_pre committed = (t, none)
  rotation_done env t sess pre have_pre tx_failed = (t, some service)
  rotation_done env t sess pre have_pre (cancelled rs) = elim (tx_failed_at rs 0) [
    | some p ↦ (t, some hash_bound)
    | none ↦ elim (tx_failed_at rs 1) [
      | none ↦ (t, some service)
      | some pre_image ↦ classify_rotation_loss env t sess.id pre have_pre pre_image
    ]
  ]

  unfoldable pub rotate :
      Env → Table → Session → RotationPrecondition → Bool → Table × Option StoreError
  unfolding rotation_done
  rotate env t sess pre have_pre =
      let (t', out) = transact_write db env.waits t (rotate_writes env sess pre have_pre) in
      rotation_done env t' sess pre have_pre out

  abbrev pub error_of : Result Item → Option StoreError
  error_of (ok i) = none
  error_of (err e) = some e

  -- The end of `revoke`: a pre-image means that the session was revoked already.
  unfoldable pub revoke_done : Table → String → Outcome → Option StoreError
  unfolding get_session_item
  revoke_done t id (written pre) = none
  revoke_done t id failed = some service
  revoke_done t id (refused (some i)) = none
  revoke_done t id (refused none) = error_of (get_session_item t id)

  unfoldable pub revoke : Table → String → ℕ → Table × Option StoreError
  unfolding revoke_done
  revoke t id at = let (t', out) = write_item t (revoke_write id at) in (t', revoke_done t' id out)

  unfoldable pub revoked_by_id : Outcome → Option StoreError
  revoked_by_id (written pre) = none
  revoked_by_id (refused pre) = some session_not_found
  revoked_by_id failed = some service

  unfoldable pub revoke_session_by_id : Env → Table → String → Table × Option StoreError
  unfolding revoked_by_id
  revoke_session_by_id env t id = elim (check_id id) [
    | some e ↦ (t, some session_not_found)
    | none ↦ let (t', out) = write_item t (revoke_by_id_write env.now id) in (t', revoked_by_id out)
  ]

  unfoldable pub rotate_session :
      Env → Table → String → String → Session → Table × Option StoreError
  unfolding rotate
  rotate_session env t id old_hash next =
      let next' = record next { id = id } in
      elim (check_session env next' or_else check_hash old_hash) [
        | some e ↦ (t, some e)
        | none ↦ rotate env t next' (record { old_hash = old_hash; gen = 0; has_gen = false }) true
      ]

  unfoldable pub split_update :
      Env
      → Table
      → Option RotationScope
      → Session
      → Option ℕ
      → Table × Option RotationScope × Option StoreError
  unfolding revoke rotate rotation_pre_for
  split_update env t scope sess (some at) = let (t', e) = revoke t sess.id at in (t', scope, e)
  split_update env t scope sess none =
      let (scope', pre, found) = rotation_pre_for scope sess.id in
      let (t', e) = rotate env t sess pre found in (t', scope', e)

  -- Revokes or rotates, by the only signal there is.
  unfoldable pub update_session :
      Env
      → Table
      → Option RotationScope
      → Session
      → Table × Option RotationScope × Option StoreError
  unfolding split_update
  update_session env t scope sess = elim (check_session env sess) [
    | some e ↦ (t, scope, some e)
    | none ↦ split_update env t scope sess sess.revoked_at
  ]
