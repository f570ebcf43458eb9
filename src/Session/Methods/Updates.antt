-- ===== src/Session/Methods/Updates.antt =====
-- Resolving, updating and rotating a session are a few steps of Session.History
-- (internal/store/dynamodb/sessions.go).
use awesome_lambda_auth.Items.{check_version}
use awesome_lambda_auth.Session.{
  session_from_item, refresh_key, rotation_pre_for, RotationScope, check_session, Session,
}
use awesome_lambda_auth.Env.{Env}
use awesome_lambda_auth.Common.{
  str_eq, true, none, some, Option, Option-cases, ℕ, String, inl, inr, Bool-cases,
}
use awesome_lambda_auth.Database.Expression.{get_n, is_some, get_s}
use awesome_lambda_auth.Errors.{ok, err, Result-cases, Result, ◌or_else◌}
use awesome_lambda_auth.Session.Store.{
  get_session_item, judge_found, get_session_by_refresh_token_hash, judge_session, replay_seen,
  resolve_pointer, rotate_session, split_update, update_session,
}
use awesome_lambda_auth.Keys.{check_hash}
use awesome_lambda_auth.Database.{unreachable, fetched, Fetched, Item, Contents, Dynamo}
use awesome_lambda_auth.Session.History.{History}
use awesome_lambda_auth.Session.Methods.{family-History, revoke-History, rotate-History}

module _ (db : Dynamo) (id : String) where
  open db use {Table, contents, get_item}

  abbrev From : Contents → Table → Type 0
  From start t = History id start (contents t)

  replay_seen-History :
      (env : Env) (start : Contents) (t : Table) (other : String) (gen : ℕ)
      → From start t
      → From start (replay_seen db env t other gen).0
  unfolding replay_seen
  replay_seen-History env start t other gen past =
      family-History db id env start t other "refresh_replay" gen past

  judge_session-History :
      (env : Env) (start : Contents) (t : Table) (scope : Option RotationScope) (hash : String)
      (gen : ℕ) (i : Item)
      → From start t
      → From start (judge_session db env t scope hash gen i).0
  unfolding judge_session
  judge_session-History env start t scope hash gen i past = found-History (session_from_item i)
    where
      found-History :
          (found : Result Session) → From start (judge_found db env t scope hash gen i found).0
      found-History (err e) = past
      found-History (ok sess) = elim (Bool-cases (is_some sess.revoked_at)) [
        | inl dead ↦ rw dead past
        | inr alive ↦ elim (Bool-cases (str_eq (get_s i "refreshHash") hash)) [
          | inl current ↦ rw (alive, current) past
          | inr stale ↦ rw (alive, stale) (replay_seen-History env start t sess.id gen past)
        ]
      ]

  resolve_pointer-History :
      (env : Env) (start : Contents) (t : Table) (scope : Option RotationScope) (hash : String)
      (pointer : Fetched)
      → From start t
      → From start (resolve_pointer db env t scope hash pointer).0
  unfolding resolve_pointer
  resolve_pointer-History env start t scope hash unreachable past = past
  resolve_pointer-History env start t scope hash (fetched none) past = past
  resolve_pointer-History env start t scope hash (fetched (some p)) past =
      elim (Option-cases (check_version p)) [
        | inr (e, bad) ↦ rw (bad, resolve_pointer) past
        | inl good ↦ elim (Result-cases (get_session_item db t (get_s p "sessionId"))) [
          | inl (e, lost) ↦ rw (good, lost, resolve_pointer) past
          | inr (i, found) ↦
              rw (good, found, resolve_pointer)
                (judge_session-History env start t scope hash (get_n p "gen") i past)
        ]
      ]

  pub resolve-History :
      (env : Env) (start : Contents) (t : Table) (scope : Option RotationScope) (hash : String)
      → From start t
      → From start (get_session_by_refresh_token_hash db env t scope hash).0
  unfolding get_session_by_refresh_token_hash
  resolve-History env start t scope hash past = elim (Option-cases (check_hash hash)) [
    | inr (e, bad) ↦ rw (bad, get_session_by_refresh_token_hash) past
    | inl good ↦
        rw (good, get_session_by_refresh_token_hash)
          (resolve_pointer-History env start t scope hash (get_item t (refresh_key hash)) past)
  ]

  split_update-History :
      (env : Env) (start : Contents) (t : Table) (scope : Option RotationScope) (sess : Session)
      (at : Option ℕ)
      → From start t
      → From start (split_update db env t scope sess at).0
  unfolding split_update
  split_update-History env start t scope sess (some at) past =
      revoke-History db id start t sess.id at past
  split_update-History env start t scope sess none past =
      let (scope', pre, found) = rotation_pre_for scope sess.id in
      rotate-History db id env start t sess pre found past

  pub update_session-History :
      (env : Env) (start : Contents) (t : Table) (scope : Option RotationScope) (sess : Session)
      → From start t
      → From start (update_session db env t scope sess).0
  unfolding update_session
  update_session-History env start t scope sess past =
      elim (Option-cases (check_session env sess)) [
        | inr (e, bad) ↦ rw (bad, update_session) past
        | inl good ↦
            rw (good, update_session)
              (split_update-History env start t scope sess sess.revoked_at past)
      ]

  pub rotate_session-History :
      (env : Env) (start : Contents) (t : Table) (other old_hash : String) (next : Session)
      → From start t
      → From start (rotate_session db env t other old_hash next).0
  unfolding rotate_session
  rotate_session-History env start t other old_hash next past =
      elim (Option-cases
        (check_session env (record next { id = other }) or_else check_hash old_hash)) [
          | inr (e, bad) ↦ rw (bad, rotate_session) past
          | inl good ↦
              rw (good, rotate_session)
                (rotate-History db id env start t (record next { id = other }) _ true past)
        ]
