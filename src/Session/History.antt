-- ===== src/Session/History.antt =====
-- What other requests and the table's TTL can do to a session between two calls of the store
-- (internal/store/dynamodb/sessions.go): every interleaving of the store's writes, as steps.
pub mod ItemSteps
pub mod Invariants
use mathlib.Core.Path.{subst}
use awesome_lambda_auth.Common.{
  ℕ, ◌+◌, ◌≤◌, String, ◌≡◌, ◌≢◌, refl, sym, ap, Bool, true, false, Option, none, some, List, [],
  ◌∷◌, arith, eq_iff, str-cases, inl, inr, ◌⊎◌, All,
}
use awesome_lambda_auth.Database.{
  Value, Item, Key, Write, Contents, attributes, apply_effect, Holds, Unchanged, AllApplied,
  no_attributes,
}
use awesome_lambda_auth.Database.Expression.{get_n, attribute_exists}
use awesome_lambda_auth.Keys.Injective.{session_pk_injective}
use awesome_lambda_auth.Session.{
  Session, RotationPrecondition, session_key, rotation_cond, rotated, create_writes, rotate_writes,
  revoke_write, revoke_family_write, revoke_by_id_write,
}
use awesome_lambda_auth.Env.{Env}

-- The writes that the store issues, where no session is created under the id that is watched: ids
-- are 128 random bits.
pub data Issued (id : String) : List Write → Type 0 where
  creates : (env : Env) (sess : Session) → sess.id ≢ id → Issued id (create_writes env sess)
  rotates :
      (env : Env) (sess : Session) (pre : RotationPrecondition) (have_pre : Bool)
      → Issued id (rotate_writes env sess pre have_pre)
  logs_out : (other : String) (at : ℕ) → Issued id (revoke_write other at ∷ [])
  kills_family :
      (now : ℕ) (other reason : String) (gen : ℕ)
      → Issued id (revoke_family_write now other reason gen ∷ [])
  kills_by_id : (now : ℕ) (other : String) → Issued id (revoke_by_id_write now other ∷ [])

pub data Step (id : String) (before after : Contents) : Type 0 where
  -- reads, refused writes and failed ones
  idles : Unchanged before after → Step id before after
  commits :
      (ws : List Write)
      → Issued id ws
      → All (Holds before) ws
      → AllApplied before after ws
      → Step id before after
  -- TTL removes items, any number of them
  reaps : ((k : Key) → (after k ≡ before k) ⊎ (after k ≡ none)) → Step id before after

pub data History (id : String) (start : Contents) : Contents → Type 0 where
  here : History id start start
  then : {mid end : Contents} → History id start mid → Step id mid end → History id start end

-- The session is at this generation or a later one, or its item is gone.
abbrev pub GenFrom : ℕ → Option Item → Type 0
GenFrom g none = Unit
GenFrom g (some i) = g ≤ get_n i "gen"

-- The session is revoked, with this instant and this reason, or its item is gone.
abbrev pub RevokedBy : Value → Value → Option Item → Type 0
RevokedBy at reason none = Unit
RevokedBy at reason (some i) = (i "revokedAt" ≡ some at) × (i "revokedReason" ≡ some reason)
