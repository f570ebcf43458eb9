-- ===== src/Session/Creation.antt =====
-- Creating a session and resolving its token (`CreateSession` and `GetSessionByRefreshTokenHash`,
-- internal/store/dynamodb/sessions.go).
use text.Mathlib.TextPositions.{eq_refl}
use awesome_lambda_auth.Database.Expression.{is_some, get_n, get_s}
use awesome_lambda_auth.Items.{check_version}
use awesome_lambda_auth.Common.{
  false, String, ap, ◌∙◌, inl, refl, inr, some, Option-cases, none, Option, ℕ, ◌≡◌, arith,
}
use awesome_lambda_auth.Database.{
  Item, fetched, Key, TxLaw, tx_failed, cancelled, committed, TxOutcome, Contents, Dynamo,
}
use awesome_lambda_auth.Session.Store.{
  recorded, get_session_item, judge_found, judge_session, resolve_pointer, create_session, created,
  get_session_by_refresh_token_hash,
}
use awesome_lambda_auth.Session.{
  RotationScope, refresh_pointer, refresh_key, first_gen, session_key, create_writes, check_session,
  Session, session_item, session_from_item,
}
use awesome_lambda_auth.Env.{Env}
use awesome_lambda_auth.Session.Rotation.{create_writes-Distinct}
use awesome_lambda_auth.Transaction.Retry.{transact_write_law}
use awesome_lambda_auth.Transaction.{transact_write}
use awesome_lambda_auth.Keys.{check_hash}
use awesome_lambda_auth.Errors.{ok}

session_from_item-session_item :
    (env : Env) (sess : Session) (gen : ℕ)
    → sess.revoked_at ≡ none
    → session_from_item (session_item env sess gen) ≡ ok sess
unfolding session_from_item session_item check_version
session_from_item-session_item env sess gen live = ground arith

session_item-hash :
    (env : Env) (sess : Session) (gen : ℕ)
    → get_s (session_item env sess gen) "refreshHash" ≡ sess.refresh_token_hash
unfolding session_item
session_item-hash env sess gen = ground arith

session_item-gen :
    (env : Env) (sess : Session) (gen : ℕ) → get_n (session_item env sess gen) "gen" ≡ gen
unfolding session_item
session_item-gen env sess gen = ground arith

check_session-hash :
    (env : Env) (sess : Session)
    → check_session env sess ≡ none
    → check_hash sess.refresh_token_hash ≡ none
unfolding check_session
check_session-hash env sess h = ground arith

module _ (db : Dynamo) where
  open db use {Table, contents, get_item}

  judge_found-current :
      (env : Env) (t : Table) (scope : Option RotationScope) (hash : String) (pointer_gen gen : ℕ)
      (i : Item) (sess : Session)
      → is_some sess.revoked_at ≡ false
      → get_s i "refreshHash" ≡ hash
      → get_n i "gen" ≡ gen
      → judge_found db env t scope hash pointer_gen i (ok sess)
        ≡ (t, recorded db scope sess.id hash gen, ok sess)
  unfolding judge_found
  judge_found-current env t scope hash pointer_gen gen i sess live same same_gen =
      rw (live, same, eq_refl hash, same_gen)

  created-ok :
      (t : Table) (sess sess' : Session) (out : TxOutcome)
      → (created db t sess out).1 ≡ ok sess'
      → out ≡ committed
  unfolding created
  created-ok t sess sess' committed h = refl
  created-ok t sess sess' tx_failed h = cc
  created-ok t sess sess' (cancelled rs) h = cc

  pub created_table : (t : Table) (sess : Session) (out : TxOutcome) → (created db t sess out).0 ≡ t
  unfolding created
  created_table t sess committed = refl
  created_table t sess tx_failed = refl
  created_table t sess (cancelled rs) = refl

  -- Both items of a session that was created.
  record IsStored (env : Env) (after : Contents) (sess : Session) : Type 0 where
    stored : after (session_key sess.id) ≡ some (session_item env sess first_gen)
    pointed :
        after (refresh_key sess.refresh_token_hash) ≡ some (refresh_pointer env sess first_gen)
    checked : check_session env sess ≡ none

  committed-IsStored :
      (env : Env) (before after : Contents) (sess : Session) (out : TxOutcome)
      → check_session env sess ≡ none
      → out ≡ committed
      → TxLaw before after (create_writes env sess) out
      → IsStored env after sess
  unfolding create_writes
  committed-IsStored env before after sess committed good won (_, ((new, (_, (pointer, _))), _)) =
      record { stored = new; pointed = pointer; checked = good }
  committed-IsStored env before after sess (cancelled rs) good won law = absurd (cc won)
  committed-IsStored env before after sess tx_failed good won law = absurd (cc won)

  create_session-IsStored :
      (env : Env) (t : Table) (sess sess' : Session)
      → (create_session db env t sess).1 ≡ ok sess'
      → IsStored env (contents (create_session db env t sess).0) sess
  unfolding create_session
  create_session-IsStored env t sess sess' h = elim (Option-cases (check_session env sess)) [
    | inr (e, bad) ↦ absurd (cc (rw (bad, create_session) at h))
    | inl good ↦
        let ws = create_writes env sess in
        let (t', out) = transact_write db env.waits t ws in
        rw (good, create_session)
          (rw (created_table t' sess out) (
            committed-IsStored env (contents t) (contents t') sess out good
              (created-ok t' sess sess' out (rw (good, create_session) at h))
              (transact_write_law db env.waits ws (create_writes-Distinct env sess) t)))
  ]

  -- The token of a session that was just created resolves to that session, as it was given, in any
  -- request whose reads answer; the lookup changes nothing, and hands the token's hash and the
  -- first generation to the request's rotation scope.
  pub create_resolve :
      (env env' : Env) (t : Table) (scope : Option RotationScope) (sess sess' : Session)
      → (create_session db env t sess).1 ≡ ok sess'
      → sess.revoked_at ≡ none
      → ((k : Key)
          → get_item (create_session db env t sess).0 k
            ≡ fetched (contents (create_session db env t sess).0 k))
      → get_session_by_refresh_token_hash db env'
          (create_session db env t sess).0
          scope
          sess.refresh_token_hash
        ≡ (
          (create_session db env t sess).0,
          recorded db scope sess.id sess.refresh_token_hash first_gen,
          ok sess,
        )
  unfolding get_session_by_refresh_token_hash resolve_pointer judge_session judge_found
      get_session_item refresh_pointer check_version
  create_resolve env env' t scope sess sess' h live reads =
      let r = create_session-IsStored env t sess sess' h in
      let pointer = reads (refresh_key sess.refresh_token_hash) ∙ ap fetched r.pointed in
      let named = reads (session_key sess.id) ∙ ap fetched r.stored in
      rw
        (
          check_session-hash env sess r.checked,
          pointer,
          get_session_by_refresh_token_hash,
          resolve_pointer,
        )
        (rw (named, session_from_item-session_item env sess first_gen live)
          (judge_found-current env' (create_session db env t sess).0 scope sess.refresh_token_hash _
            first_gen (session_item env sess first_gen) sess (ap is_some live)
            (session_item-hash env sess first_gen) (session_item-gen env sess first_gen)))
