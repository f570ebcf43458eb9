-- ===== src/Session/Calls.antt =====
-- Whole calls of the session store, in any number and order (internal/store/dynamodb/sessions.go).
use awesome_lambda_auth.Common.{String, ◌≢◌, List, [], ◌∷◌, Option, All}
use awesome_lambda_auth.Database.{Dynamo, Contents}
use awesome_lambda_auth.Session.{Session, RotationScope}
use awesome_lambda_auth.Env.{Env}
use awesome_lambda_auth.Session.Store.{
  create_session, get_session_by_refresh_token_hash, update_session, rotate_session,
  revoke_session_by_id,
}
use awesome_lambda_auth.Session.History.{History}
use awesome_lambda_auth.Session.Methods.{create_session-History, revoke_session_by_id-History}
use awesome_lambda_auth.Session.Methods.Updates.{
  resolve-History, update_session-History, rotate_session-History,
}

-- The methods that write, with their arguments.
pub data Call : Type 0 where
  create : Session → Call
  resolve : Option RotationScope → String → Call
  refresh_or_logout : Option RotationScope → Session → Call
  refresh_from : (id old_hash : String) → Session → Call
  admin_revoke : (id : String) → Call

-- The call creates no session under this id.
abbrev pub IsFresh : String → Call → Type 0
IsFresh id (create sess) = sess.id ≢ id
IsFresh id (resolve scope hash) = Unit
IsFresh id (refresh_or_logout scope sess) = Unit
IsFresh id (refresh_from other old next) = Unit
IsFresh id (admin_revoke other) = Unit

module _ (db : Dynamo) where
  open db use {Table, contents}

  unfoldable pub run_call : Env → Table → Call → Table
  run_call env t (create sess) = (create_session db env t sess).0
  run_call env t (resolve scope hash) = (get_session_by_refresh_token_hash db env t scope hash).0
  run_call env t (refresh_or_logout scope sess) = (update_session db env t scope sess).0
  run_call env t (refresh_from id old next) = (rotate_session db env t id old next).0
  run_call env t (admin_revoke id) = (revoke_session_by_id db env t id).0

  -- Each call at its own instant, with its own options.
  unfoldable pub run_calls : Table → List (Env × Call) → Table
  unfolding run_call
  run_calls t [] = t
  run_calls t ((env, c) ∷ cs) = run_calls (run_call env t c) cs

  run_call-History :
      (id : String) (env : Env) (start : Contents) (t : Table) (c : Call)
      → IsFresh id c
      → History id start (contents t)
      → History id start (contents (run_call env t c))
  unfolding run_call
  run_call-History id env start t (create sess) fresh past =
      create_session-History db id env start t sess fresh past
  run_call-History id env start t (resolve scope hash) fresh past =
      resolve-History db id env start t scope hash past
  run_call-History id env start t (refresh_or_logout scope sess) fresh past =
      update_session-History db id env start t scope sess past
  run_call-History id env start t (refresh_from other old next) fresh past =
      rotate_session-History db id env start t other old next past
  run_call-History id env start t (admin_revoke other) fresh past =
      revoke_session_by_id-History db id env start t other past

  pub run_calls-History :
      (id : String) (start : Contents) (t : Table) (cs : List (Env × Call))
      → All (λ c. IsFresh id c.1) cs
      → History id start (contents t)
      → History id start (contents (run_calls t cs))
  unfolding run_calls
  run_calls-History id start t [] fresh past = past
  run_calls-History id start t ((env, c) ∷ cs) (f, fresh) past =
      run_calls-History id start (run_call env t c) cs fresh
        (run_call-History id env start t c f past)
