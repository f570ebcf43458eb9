-- ===== src/Session/Rotation.antt =====
-- Refresh rotation (`rotate` and `classifyRotationLoss`, internal/store/dynamodb/sessions.go).
use awesome_lambda_auth.Session.SortKeys.{refresh_index-ne, index-ne, refresh-ne, sort-ne}
use awesome_lambda_auth.Common.{
  ◌+◌, String, ◌≡◌, ◌≢◌, refl, sym, inl, inr, Bool, true, Option, none, some, List, arith,
  Option-cases,
}
use awesome_lambda_auth.Database.{
  Item, Key, Contents, attributes, Dynamo, TxOutcome, committed, cancelled, Reason, tx_failed,
  Distinct, TxLaw,
}
use awesome_lambda_auth.Transaction.{tx_failed_at, transact_write}
use awesome_lambda_auth.Transaction.Retry.{transact_write_law}
use awesome_lambda_auth.Session.{
  Session, RotationPrecondition, session_key, refresh_key, refresh_pointer, rotation_cond, rotated,
  rotate_writes, create_writes,
}
use awesome_lambda_auth.Env.{Env}
use awesome_lambda_auth.Session.Store.{rotate, rotation_done, classify_rotation_loss}

pub create_writes-Distinct : (env : Env) (sess : Session) → Distinct (create_writes env sess)
unfolding create_writes
create_writes-Distinct env sess = (
  (sort-ne _ _ index-ne, (sort-ne _ _ (λ e. refresh-ne (sym e)), tt)),
  ((sort-ne _ _ refresh_index-ne, tt), (tt, tt)),
)

pub rotate_writes-Distinct :
    (env : Env) (sess : Session) (pre : RotationPrecondition) (have_pre : Bool)
    → Distinct (rotate_writes env sess pre have_pre)
unfolding rotate_writes
rotate_writes-Distinct env sess pre have_pre = ((sort-ne _ _ refresh-ne, tt), (tt, tt))

module _ (db : Dynamo) where
  open db use {Table, contents}

  -- What a refresh that succeeds has done.
  pub record Rotates (env : Env) (before after : Contents) (sess : Session)
      (pre : RotationPrecondition) (have_pre : Bool) : Type 0 where
    pub old : Item
    pub found : before (session_key sess.id) ≡ some old
    pub allowed : rotation_cond pre have_pre old ≡ true
    pub advanced : after (session_key sess.id) ≡ some (rotated env sess old)
    pub pointed :
        after (refresh_key sess.refresh_token_hash) ≡ some (refresh_pointer env sess (pre.gen + 1))
    pub others :
        (k : Key)
        → k ≢ session_key sess.id
        → k ≢ refresh_key sess.refresh_token_hash
        → after k ≡ before k

  classify-ne-none :
      (env : Env) (t : Table) (id : String) (pre : RotationPrecondition) (have_pre : Bool)
      (image : Option Item)
      → (classify_rotation_loss db env t id pre have_pre image).1 ≢ none
  unfolding classify_rotation_loss
  classify-ne-none env t id pre have_pre none = ground arith
  classify-ne-none env t id pre have_pre (some i) = ground arith

  cancelled-ne-none :
      (env : Env) (t : Table) (sess : Session) (pre : RotationPrecondition) (have_pre : Bool)
      (rs : List Reason)
      → (rotation_done db env t sess pre have_pre (cancelled rs)).1 ≢ none
  unfolding rotation_done
  cancelled-ne-none env t sess pre have_pre rs h = elim (Option-cases (tx_failed_at rs 0)) [
    | inr (p, bound) ↦ cc (rw (bound, rotation_done) at h)
    | inl free ↦ elim (Option-cases (tx_failed_at rs 1)) [
      | inl kept ↦ cc (rw (free, kept, rotation_done) at h)
      | inr (image, lost) ↦
          classify-ne-none env t sess.id pre have_pre image (rw (free, lost, rotation_done) at h)
    ]
  ]

  cond-found :
      (old : Option Item) (pre : RotationPrecondition) (have_pre : Bool)
      → rotation_cond pre have_pre (attributes old) ≡ true
      → (i : Item) × (old ≡ some i)
  unfolding rotation_cond
  cond-found none pre have_pre h = absurd (cc h)
  cond-found (some i) pre have_pre h = (i, refl)

  committed-Rotates :
      (env : Env) (sess : Session) (pre : RotationPrecondition) (have_pre : Bool)
      (before after : Contents)
      → TxLaw before after (rotate_writes env sess pre have_pre) committed
      → Rotates env before after sess pre have_pre
  unfolding rotate_writes
  committed-Rotates env sess pre have_pre before after ((_, (held, _)), ((new, (step, _)), frame)) =
      let (old, found) = cond-found (before (session_key sess.id)) pre have_pre held in
      record {
        old = old;
        found = found;
        allowed = rw found at held;
        advanced = rw found at step;
        pointed = new;
        others = λ k h j. frame k (j, (h, tt));
      }

  rotation_done-Rotates :
      (env : Env) (before : Contents) (t' : Table) (sess : Session) (pre : RotationPrecondition)
      (have_pre : Bool) (out : TxOutcome)
      → TxLaw before (contents t') (rotate_writes env sess pre have_pre) out
      → (rotation_done db env t' sess pre have_pre out).1 ≡ none
      → Rotates env before
          (contents (rotation_done db env t' sess pre have_pre out).0)
          sess
          pre
          have_pre
  unfolding rotation_done
  rotation_done-Rotates env before t' sess pre have_pre committed law h =
      committed-Rotates env sess pre have_pre before (contents t') law
  rotation_done-Rotates env before t' sess pre have_pre tx_failed law h = absurd (cc h)
  rotation_done-Rotates env before t' sess pre have_pre (cancelled rs) law h =
      absurd (cancelled-ne-none env t' sess pre have_pre rs h)

  -- A refresh that succeeds found the session with every condition that the caller's precondition
  -- pins, advanced it to the new hash and the next generation, wrote the new hash's pointer, and
  -- changed no other item.
  pub rotate-Rotates :
      (env : Env) (t : Table) (sess : Session) (pre : RotationPrecondition) (have_pre : Bool)
      → (rotate db env t sess pre have_pre).1 ≡ none
      → Rotates env (contents t) (contents (rotate db env t sess pre have_pre).0) sess pre have_pre
  unfolding rotate
  rotate-Rotates env t sess pre have_pre h =
      let ws = rotate_writes env sess pre have_pre in
      rotation_done-Rotates env (contents t) (transact_write db env.waits t ws).0 sess pre have_pre
        (transact_write db env.waits t ws).1
        (transact_write_law db env.waits ws (rotate_writes-Distinct env sess pre have_pre) t) h
