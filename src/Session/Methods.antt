-- ===== src/Session/Methods.antt =====
-- Each method of internal/store/dynamodb/sessions.go does to the table what a few steps of
-- Session.History do.
pub mod Updates
use awesome_lambda_auth.Session.Creation.{created_table}
use awesome_lambda_auth.Items.{check_version}
use awesome_lambda_auth.Session.{
  session_from_item, refresh_key, rotation_pre_for, RotationScope, session_key, create_writes,
  check_session, revoke_by_id_write, check_id, rotate_writes, Session, revoke_write,
  RotationPrecondition, revoke_family_write,
}
use awesome_lambda_auth.Env.{Env}
use awesome_lambda_auth.Common.{
  str_eq, true, none, refl, some, ◌≡◌, ◌≢◌, Option, Option-cases, ℕ, String, inl, inr, Bool, List,
  [], ◌∷◌, Bool-cases,
}
use awesome_lambda_auth.Database.Expression.{get_n, is_some, get_s, has_s}
use awesome_lambda_auth.Errors.{ok, err, Result-cases, Result, ◌or_else◌}
use awesome_lambda_auth.Session.Store.{
  get_session_item, judge_found, get_session_by_refresh_token_hash, judge_session, replay_seen,
  resolve_pointer, rotate_session, split_update, update_session, classify_fetched,
  classify_rotation_loss, create_session, created, revoke, revoke_session_by_id, rotate,
  rotation_done, revoke_family, classify_item,
}
use awesome_lambda_auth.Keys.{check_hash}
use awesome_lambda_auth.Database.{
  unreachable, fetched, Fetched, Item, Write, Contents, Outcome, written, refused, failed, WriteLaw,
  TxOutcome, committed, cancelled, tx_failed, TxLaw, Dynamo,
}
use awesome_lambda_auth.Session.Rotation.{create_writes-Distinct, rotate_writes-Distinct}
use awesome_lambda_auth.Transaction.Retry.{transact_write_law}
use awesome_lambda_auth.Session.History.{
  creates, rotates, kills_by_id, logs_out, Issued, kills_family, Step, idles, commits, History,
  then,
}
use awesome_lambda_auth.Transaction.{transact_write, tx_failed_at}

write-Step :
    (id : String) (w : Write) (before after : Contents) (out : Outcome)
    → Issued id (w ∷ [])
    → WriteLaw before after w out
    → Step id before after
write-Step id w before after (written pre) i (held, _, applied) = commits _ i (held, tt) applied
write-Step id w before after (refused pre) i (_, _, same) = idles same
write-Step id w before after failed i (inl same) = idles same
write-Step id w before after failed i (inr (held, applied)) = commits _ i (held, tt) applied

tx-Step :
    (id : String) (ws : List Write) (before after : Contents) (out : TxOutcome)
    → Issued id ws
    → TxLaw before after ws out
    → Step id before after
tx-Step id ws before after committed i (held, applied) = commits ws i held applied
tx-Step id ws before after (cancelled rs) i (same, _) = idles same
tx-Step id ws before after tx_failed i (inl same) = idles same
tx-Step id ws before after tx_failed i (inr (held, applied)) = commits ws i held applied

module _ (db : Dynamo) (id : String) where
  open db use {Table, contents, write_item, write_law, get_item}

  -- The item of a session that a step may touch, with the steps so far.
  abbrev From : Contents → Table → Type 0
  From start t = History id start (contents t)

  pub family-History :
      (env : Env) (start : Contents) (t : Table) (other reason : String) (gen : ℕ)
      → From start t
      → From start (revoke_family db env t other reason gen).0
  unfolding revoke_family
  family-History env start t other reason gen past =
      let w = revoke_family_write env.now other reason gen in
      then past (
        write-Step id w (contents t) (contents (write_item t w).0) (write_item t w).1
          (kills_family env.now other reason gen) (write_law t w))

  classify_item-History :
      (env : Env) (start : Contents) (t : Table) (other : String) (pre : RotationPrecondition)
      (have_pre : Bool) (i : Item)
      → From start t
      → From start (classify_item db env t other pre have_pre i).0
  unfolding classify_item
  classify_item-History env start t other pre have_pre i past =
      elim (Bool-cases (has_s i "revokedAt")) [
        | inl dead ↦ rw dead past
        | inr alive ↦ elim (Bool-cases have_pre) [
          | inl with_pre ↦
              rw (alive, with_pre) (family-History env start t other "refresh_replay" pre.gen past)
          | inr without ↦ rw (alive, without) past
        ]
      ]

  classify-History :
      (env : Env) (start : Contents) (t : Table) (other : String) (pre : RotationPrecondition)
      (have_pre : Bool) (image : Option Item)
      → From start t
      → From start (classify_rotation_loss db env t other pre have_pre image).0
  unfolding classify_rotation_loss
  classify-History env start t other pre have_pre (some i) past =
      classify_item-History env start t other pre have_pre i past
  classify-History env start t other pre have_pre none past =
      fetched-History (get_item t (session_key other))
    where
      fetched-History :
          (f : Fetched) → From start (classify_fetched db env t other pre have_pre f).0
      fetched-History unreachable = past
      fetched-History (fetched none) = past
      fetched-History (fetched (some i)) =
          classify_item-History env start t other pre have_pre i past

  rotation_done-History :
      (env : Env) (start : Contents) (t : Table) (sess : Session) (pre : RotationPrecondition)
      (have_pre : Bool) (out : TxOutcome)
      → From start t
      → From start (rotation_done db env t sess pre have_pre out).0
  unfolding rotation_done
  rotation_done-History env start t sess pre have_pre committed past = past
  rotation_done-History env start t sess pre have_pre tx_failed past = past
  rotation_done-History env start t sess pre have_pre (cancelled rs) past =
      elim (Option-cases (tx_failed_at rs 0)) [
        | inr (p, bound) ↦ rw (bound, rotation_done) past
        | inl free ↦ elim (Option-cases (tx_failed_at rs 1)) [
          | inl kept ↦ rw (free, kept, rotation_done) past
          | inr (image, lost) ↦
              rw (free, lost, rotation_done)
                (classify-History env start t sess.id pre have_pre image past)
        ]
      ]

  pub rotate-History :
      (env : Env) (start : Contents) (t : Table) (sess : Session) (pre : RotationPrecondition)
      (have_pre : Bool)
      → From start t
      → From start (rotate db env t sess pre have_pre).0
  unfolding rotate
  rotate-History env start t sess pre have_pre past =
      let ws = rotate_writes env sess pre have_pre in
      let (t', out) = transact_write db env.waits t ws in
      rotation_done-History env start t' sess pre have_pre out (
        then past (
          tx-Step id ws (contents t) (contents t') out (rotates env sess pre have_pre)
            (transact_write_law db env.waits ws (rotate_writes-Distinct env sess pre have_pre) t)))

  pub revoke-History :
      (start : Contents) (t : Table) (other : String) (at : ℕ)
      → From start t
      → From start (revoke db t other at).0
  unfolding revoke
  revoke-History start t other at past =
      let w = revoke_write other at in
      then past (
        write-Step id w (contents t) (contents (write_item t w).0) (write_item t w).1
          (logs_out other at) (write_law t w))

  -- `RevokeSessionByID` is at most one step.
  pub revoke_session_by_id-History :
      (env : Env) (start : Contents) (t : Table) (other : String)
      → From start t
      → From start (revoke_session_by_id db env t other).0
  unfolding revoke_session_by_id
  revoke_session_by_id-History env start t other past = elim (Option-cases (check_id other)) [
    | inr (e, bad) ↦ rw (bad, revoke_session_by_id) past
    | inl good ↦
        let w = revoke_by_id_write env.now other in
        rw (good, revoke_session_by_id)
          (then past (
            write-Step id w (contents t) (contents (write_item t w).0) (write_item t w).1
              (kills_by_id env.now other) (write_law t w)))
  ]

  pub create_session-History :
      (env : Env) (start : Contents) (t : Table) (sess : Session)
      → sess.id ≢ id
      → From start t
      → From start (create_session db env t sess).0
  unfolding create_session
  create_session-History env start t sess fresh past =
      elim (Option-cases (check_session env sess)) [
        | inr (e, bad) ↦ rw (bad, create_session) past
        | inl good ↦
            let ws = create_writes env sess in
            let (t', out) = transact_write db env.waits t ws in
            rw (good, create_session)
              (rw (created_table db t' sess out) (
                then past (
                  tx-Step id ws (contents t) (contents t') out (creates env sess fresh)
                    (transact_write_law db env.waits ws (create_writes-Distinct env sess) t))))
      ]
