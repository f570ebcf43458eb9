-- ===== src/Session.antt =====
-- The session store's data: internal/store/dynamodb/sessions.go (items and writes) and
-- internal/store/dynamodb/rotation.go (the rotation scope of a request).
pub mod Store
pub mod SortKeys
pub mod Rotation
pub mod History
pub mod Winner
pub mod Advance
pub mod Lookup
pub mod Replay
pub mod Creation
pub mod Methods
pub mod Calls
use awesome_lambda_auth.Database.Expression.{
  put_t, attribute_exists, attribute_not_exists, equals, assign, assign_if_missing, add, item_of,
  get_s, get_n, get_time_ptr, unix, schema_version,
}
use awesome_lambda_auth.Env.{Env}
use awesome_lambda_auth.Items.{decode_time_ptr, decode_time, check_version}
use awesome_lambda_auth.Errors.{
  passes, ◌>>=◌, ◌>>◌, ok, err, Result, StoreError, version_too_new, bad_time, ◌or_else◌,
}
use awesome_lambda_auth.Common.{
  refl, inr, inl, ◌⊎◌, ◌≡◌, ℕ, ◌+◌, String, Bool, true, false, ◌&&◌, ◌||◌, Option, none, some, List,
  [], ◌∷◌, str_eq, ltb, if◌then◌else◌,
}
use awesome_lambda_auth.Database.{Value, text, num, stamp, Item, Key, Write, put, update, Reason}
use awesome_lambda_auth.Keys.{
  check_tenant, check_id, check_hash, user_pk, session_pk, refresh_pk, session_gsi1_sk,
}

-- `auth.Session`; instants are nanoseconds since the Unix epoch, and 0 is the zero time.
pub record Session : Type 0 where
  pub id : String
  pub user_id : String
  pub tenant_id : String
  pub refresh_token_hash : String
  pub created_at : ℕ
  pub expires_at : ℕ
  pub revoked_at : Option ℕ

pub record RotationPrecondition : Type 0 where
  pub old_hash : String
  pub gen : ℕ
  pub has_gen : Bool

abbrev pub no_precondition : RotationPrecondition
no_precondition = record { old_hash = ""; gen = 0; has_gen = false }

pub record RotationScope : Type 0 where
  pub set : Bool
  pub pre : RotationPrecondition
  pub session : String

-- `WithRotationScope`: a request that has a scope keeps it.
unfoldable pub with_rotation_scope : Option RotationScope → Option RotationScope
with_rotation_scope (some scope) = some scope
with_rotation_scope none = some (record { set = false; pre = no_precondition; session = "" })

unfoldable pub record_scope : RotationScope → String → RotationPrecondition → RotationScope
record_scope r id pre = record { set = true; pre = pre; session = id }

-- `take_scope` answers once, and only for the session that the scope was recorded for.
unfoldable pub take_scope : RotationScope → String → RotationScope × RotationPrecondition × Bool
take_scope r id =
    if r.set && str_eq r.session id
    then (record r { set = false; pre = no_precondition }, r.pre, true)
    else (r, no_precondition, false)

unfoldable pub rotation_pre_for :
    Option RotationScope → String → Option RotationScope × RotationPrecondition × Bool
rotation_pre_for none id = (none, no_precondition, false)
rotation_pre_for (some scope) id =
    let (scope', pre, found) = take_scope scope id in (some scope', pre, found)

abbrev pub first_gen : ℕ
first_gen = 1

abbrev pub session_key : String → Key
session_key id = (session_pk id, "SESSION")

abbrev pub session_index_key : String → Key
session_index_key id = (session_pk id, "SIDX")

abbrev pub refresh_key : String → Key
refresh_key hash = (refresh_pk hash, "REFRESH")

abbrev stamp_if_some : String → Option ℕ → Item → Item
stamp_if_some name none i = i
stamp_if_some name (some t) i = put_t name t i

unfoldable pub session_item : Env → Session → ℕ → Item
session_item env sess gen = stamp_if_some "revokedAt" sess.revoked_at (
    item_of (
      ("PK", text (session_pk sess.id))
      ∷ ("SK", text "SESSION")
      ∷ ("_t", text "session")
      ∷ ("_v", num schema_version)
      ∷ ("sessionId", text sess.id)
      ∷ ("userId", text sess.user_id)
      ∷ ("tenantId", text sess.tenant_id)
      ∷ ("refreshHash", text sess.refresh_token_hash)
      ∷ ("gen", num gen)
      ∷ ("createdAt", stamp sess.created_at)
      ∷ ("expiresAt", stamp sess.expires_at)
      ∷ ("GSI1PK", text (user_pk sess.tenant_id sess.user_id))
      ∷ ("GSI1SK", text (session_gsi1_sk (env.format_time sess.created_at) sess.id))
      ∷ ("ttl", num (unix (sess.expires_at + env.ttl_grace)))
      ∷ []))

unfoldable pub session_index_item : Env → Session → Item
session_index_item env sess = item_of (
    ("PK", text (session_pk sess.id))
    ∷ ("SK", text "SIDX")
    ∷ ("_t", text "sessionidx")
    ∷ ("_v", num schema_version)
    ∷ ("GSI1PK", text "SESSION")
    ∷ ("GSI1SK", text sess.id)
    ∷ ("ttl", num (unix (sess.expires_at + env.ttl_grace)))
    ∷ [])

unfoldable pub refresh_pointer : Env → Session → ℕ → Item
refresh_pointer env sess gen = item_of (
    ("PK", text (refresh_pk sess.refresh_token_hash))
    ∷ ("SK", text "REFRESH")
    ∷ ("_t", text "refresh")
    ∷ ("_v", num schema_version)
    ∷ ("sessionId", text sess.id)
    ∷ ("userId", text sess.user_id)
    ∷ ("tenantId", text sess.tenant_id)
    ∷ ("gen", num gen)
    ∷ ("ttl", num (unix (sess.expires_at + env.ttl_grace)))
    ∷ [])

unfoldable pub session_from_item : Item → Result Session
session_from_item i = do
  passes (check_version i)
  created ← decode_time i "createdAt"
  expires ← decode_time i "expiresAt"
  revoked ← decode_time_ptr i "revokedAt"
  ok (record {
    id = get_s i "sessionId";
    user_id = get_s i "userId";
    tenant_id = get_s i "tenantId";
    refresh_token_hash = get_s i "refreshHash";
    created_at = created;
    expires_at = expires;
    revoked_at = revoked;
  })

unfoldable pub check_session : Env → Session → Option StoreError
check_session env sess =
    check_tenant env.multi_tenant sess.tenant_id
    or_else check_id sess.id
    or_else check_id sess.user_id
    or_else check_hash sess.refresh_token_hash

-- The three puts of `CreateSession`.
unfoldable pub create_writes : Env → Session → List Write
create_writes env sess =
    record {
      at = session_key sess.id;
      cond = λ i. true;
      effect = put (session_item env sess first_gen);
    }
    ∷ record {
      at = session_index_key sess.id;
      cond = λ i. true;
      effect = put (session_index_item env sess);
    }
    ∷ record {
      at = refresh_key sess.refresh_token_hash;
      cond = λ i. attribute_not_exists "PK" i || equals "sessionId" (text sess.id) i;
      effect = put (refresh_pointer env sess first_gen);
    }
    ∷ []

-- The condition that `rotate` puts on the session item.
unfoldable pub rotation_cond : RotationPrecondition → Bool → Item → Bool
rotation_cond pre have_pre i =
    attribute_exists "PK" i
    && attribute_not_exists "revokedAt" i
    && (if have_pre
        then equals "refreshHash" (text pre.old_hash) i
          && (if pre.has_gen then equals "gen" (num pre.gen) i else true)
        else true)

unfoldable pub rotated : Env → Session → Item → Item
rotated env sess i = add "gen" 1 (
    assign "ttl" (num (unix (sess.expires_at + env.ttl_grace))) (
      assign "updatedAt" (stamp env.now) (
        assign "expiresAt" (stamp sess.expires_at)
          (assign "refreshHash" (text sess.refresh_token_hash) i))))

-- The two writes of `rotate`.
unfoldable pub rotate_writes : Env → Session → RotationPrecondition → Bool → List Write
rotate_writes env sess pre have_pre =
    record {
      at = refresh_key sess.refresh_token_hash;
      cond = λ i. attribute_not_exists "PK" i || equals "sessionId" (text sess.id) i;
      effect = put (refresh_pointer env sess (pre.gen + 1));
    }
    ∷ record {
      at = session_key sess.id;
      cond = rotation_cond pre have_pre;
      effect = update (rotated env sess);
    }
    ∷ []

abbrev not_revoked : Item → Bool
not_revoked i = attribute_exists "PK" i && attribute_not_exists "revokedAt" i

unfoldable pub revoke_write : String → ℕ → Write
revoke_write id at = record {
  at = session_key id;
  cond = not_revoked;
  effect = update (λ i.
      assign "updatedAt" (stamp at)
        (assign "revokedReason" (text "logout") (assign "revokedAt" (stamp at) i)));
}

unfoldable pub revoke_family_write : ℕ → String → String → ℕ → Write
revoke_family_write now id reason gen = record {
  at = session_key id;
  cond = not_revoked;
  effect = update (λ i. assign "updatedAt" (stamp now) (
      assign "revokedGen" (num gen)
        (assign "revokedReason" (text reason) (assign "revokedAt" (stamp now) i))));
}

unfoldable pub revoke_by_id_write : ℕ → String → Write
revoke_by_id_write now id = record {
  at = session_key id;
  cond = attribute_exists "PK";
  effect = update (λ i. assign "updatedAt" (stamp now) (
      assign_if_missing "revokedReason" (text "admin_revoke")
        (assign_if_missing "revokedAt" (stamp now) i)));
}
