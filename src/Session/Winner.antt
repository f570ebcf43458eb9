-- ===== src/Session/Winner.antt =====
-- Concurrent refreshes of one token (`rotate`, internal/store/dynamodb/sessions.go).
use mathlib.Core.Path.{subst}
use awesome_lambda_auth.Common.{◌+◌, ◌≡◌, ◌≢◌, sym, ap, ◌∙◌, Bool, true, none, some, arith}
use awesome_lambda_auth.Database.{Value, Item, Contents, Dynamo}
use awesome_lambda_auth.Database.Expression.{get_n}
use awesome_lambda_auth.Session.{Session, RotationPrecondition, session_key, rotation_cond, rotated}
use awesome_lambda_auth.Env.{Env}
use awesome_lambda_auth.Session.Store.{rotate}
use awesome_lambda_auth.Session.Rotation.{rotate-Rotates}
use awesome_lambda_auth.Session.History.{History, GenFrom, RevokedBy}
use awesome_lambda_auth.Session.History.Invariants.{gen-rotated, History-GenFrom, History-RevokedBy}

pinned_gen :
    (pre : RotationPrecondition) (i : Item)
    → pre.has_gen ≡ true
    → rotation_cond pre true i ≡ true
    → get_n i "gen" ≡ pre.gen
unfolding rotation_cond
pinned_gen pre i pinned allowed = ground arith

pub live :
    (pre : RotationPrecondition) (have_pre : Bool) (i : Item)
    → rotation_cond pre have_pre i ≡ true
    → i "revokedAt" ≡ none
unfolding rotation_cond
live pre have_pre i allowed = ground arith

module _ (db : Dynamo) where
  open db use {Table, contents}

  -- Of all the refreshes that pin one generation of a session, in any requests and with any of the
  -- store's writes and TTL removals between them that do not create a session under its id, at most
  -- one succeeds.
  pub single_winner :
      (env env' : Env) (t t' : Table) (sess sess' : Session) (pre pre' : RotationPrecondition)
      → sess'.id ≡ sess.id
      → pre.has_gen ≡ true
      → pre'.has_gen ≡ true
      → pre'.gen ≡ pre.gen
      → (rotate db env t sess pre true).1 ≡ none
      → History sess.id (contents (rotate db env t sess pre true).0) (contents t')
      → (rotate db env' t' sess' pre' true).1 ≢ none
  single_winner env env' t t' sess sess' pre pre' same p p' g won past won' =
      let first = rotate-Rotates db env t sess pre true won in
      let second = rotate-Rotates db env' t' sess' pre' true won' in
      let from : GenFrom (pre.gen + 1) (some (rotated env sess first.old)) =
        omega (arith, gen-rotated env sess first.old, pinned_gen pre first.old p first.allowed) in
      let later = History-GenFrom sess.id (pre.gen + 1) past (rw first.advanced from) in
      let here =
        subst (λ o. GenFrom (pre.gen + 1) o)
          (ap (λ id. contents t' (session_key id)) (sym same) ∙ second.found) later in
      absurd (omega (arith, pinned_gen pre' second.old p' second.allowed, here))

  -- Once a session is revoked no refresh of it succeeds again, with any precondition or none, after any
  -- of the store's writes that create no session under its id.
  pub revoked_never_rotates :
      (env : Env) (start : Contents) (t : Table) (sess : Session) (pre : RotationPrecondition)
      (have_pre : Bool) (at reason : Value)
      → RevokedBy at reason (start (session_key sess.id))
      → History sess.id start (contents t)
      → (rotate db env t sess pre have_pre).1 ≢ none
  revoked_never_rotates env start t sess pre have_pre at reason dead past won =
      let r = rotate-Rotates db env t sess pre have_pre won in
      let still = rw r.found at (History-RevokedBy sess.id at reason past dead) in
      let alive = live pre have_pre r.old r.allowed in cc (still.0)
