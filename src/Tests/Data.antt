-- ===== src/Tests/Data.antt =====
-- The data of the runs.
use awesome_lambda_auth.Common.{
  refl, ◌≡◌, some, str_eq, false, if◌then◌else◌, none, true, String, ℕ,
}
use awesome_lambda_auth.Database.{fetched, Key, Contents}
use awesome_lambda_auth.Session.Store.{create_session, revoke_session_by_id, rotate}
use awesome_lambda_auth.Session.{refresh_pointer, session_item, Session, RotationPrecondition}
use awesome_lambda_auth.Env.{Env}
use awesome_lambda_auth.Database.Local.{local}

abbrev pub env_at : ℕ → Env
env_at now = record {
  multi_tenant = false;
  consume_on_read = true;
  ttl_grace = 0;
  now = now;
  format_time = λ t. "2026";
  waits = λ n. true;
}

abbrev pub empty : Contents
empty k = none

-- A session, its refreshed form, and the form of a refresh that comes too late.
abbrev pub session_with : String → Session
session_with hash = record {
  id = "s1";
  user_id = "u1";
  tenant_id = "acme";
  refresh_token_hash = hash;
  created_at = 1_000_000_000;
  expires_at = 90_000_000_000;
  revoked_at = none;
}

abbrev pub pinned : RotationPrecondition
pinned = record { old_hash = "h1"; gen = 1; has_gen = true }

abbrev pub stored : Contents
stored k =
    if str_eq k.1 "SESSION"
    then some (session_item (env_at 1) (session_with "h1") 1)
    else if str_eq k.1 "REFRESH"
    then some (refresh_pointer (env_at 1) (session_with "h1") 1)
    else none

abbrev pub rotated_once : Contents
rotated_once = (rotate local (env_at 2) stored (session_with "h2") pinned true).0

abbrev pub revoked : Contents
revoked = (revoke_session_by_id local (env_at 5) stored "s1").0

abbrev pub created_once : Contents
created_once = (create_session local (env_at 1) empty (session_with "h1")).0

pub local_reads : (t : Contents) (k : Key) → local.get_item t k ≡ fetched (t k)
local_reads t k = refl
