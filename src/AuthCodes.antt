-- ===== src/AuthCodes.antt =====
-- Authorization codes: internal/store/dynamodb/auth_codes.go, over `consumeItemOnce` of
-- internal/store/dynamodb/tokens.go.
pub mod Redeem
pub mod Replay
use Prim.Native.String.{◌++◌}
use awesome_lambda_auth.Database.Expression.{
  assign_unless, exceeds, schema_version, unix, attribute_not_exists, get_s, assign, item_of,
  attribute_exists, put_s, put_t,
}
use awesome_lambda_auth.Database.{
  stamp, num, text, put, delete, Dynamo, Item, Key, Outcome, Write, written, refused, failed,
}
use awesome_lambda_auth.Common.{
  ◌||◌, ◌&&◌, none, some, ◌==◌, Bool, Option, if◌then◌else◌, true, String, ℕ, List, [], ◌∷◌,
}
use awesome_lambda_auth.Keys.{check_tenant, check_hash}
use awesome_lambda_auth.Errors.{
  service, ◌or_else◌, invalid_code, passes, Result, StoreError, ok, err, ◌>>=◌, ◌>>◌,
}
use awesome_lambda_auth.Items.{decode_time, check_version}
use awesome_lambda_auth.Env.{Env}

-- `auth.AuthCode`; instants are nanoseconds since the Unix epoch, and 0 is the zero time.
pub record AuthCode : Type 0 where
  pub code_hash : String
  pub user_id : String
  pub tenant_id : String
  pub client_id : String
  pub redirect_uri : String
  pub nonce : String
  pub scope : String
  pub code_challenge : String
  pub code_challenge_method : String
  pub expires_at : ℕ

unfoldable pub auth_code_pk : String → String
auth_code_pk hash = "OIDC#" ++ hash

abbrev pub code_key : String → Key
code_key hash = (auth_code_pk hash, "CODE")

abbrev ttl_of : ℕ → Item → Item
ttl_of expiry i = assign_unless (expiry == 0) "ttl" (num (unix expiry)) i

unfoldable pub code_item : ℕ → AuthCode → Item
code_item now c = ttl_of c.expires_at (
    put_t "createdAt" now (
      put_t "expiresAt" c.expires_at (
        put_s "codeChallengeMethod" c.code_challenge_method (
          put_s "codeChallenge" c.code_challenge (
            put_s "scope" c.scope (
              put_s "nonce" c.nonce (
                put_s "redirectUri" c.redirect_uri (
                  put_s "clientId" c.client_id (
                    put_s "tenantId" c.tenant_id (
                      put_s "userId" c.user_id (
                        item_of (
                          ("PK", text (auth_code_pk c.code_hash))
                          ∷ ("SK", text "CODE")
                          ∷ ("_t", text "authcode")
                          ∷ ("_v", num schema_version)
                          ∷ []))))))))))))

unfoldable pub auth_code_from_item : String → Item → Result AuthCode
unfolding check_version
auth_code_from_item hash i = do
  passes (check_version i)
  expires ← decode_time i "expiresAt"
  ok (record {
    code_hash = hash;
    user_id = get_s i "userId";
    tenant_id = get_s i "tenantId";
    client_id = get_s i "clientId";
    redirect_uri = get_s i "redirectUri";
    nonce = get_s i "nonce";
    scope = get_s i "scope";
    code_challenge = get_s i "codeChallenge";
    code_challenge_method = get_s i "codeChallengeMethod";
    expires_at = expires;
  })

-- The item is there, and has no deadline or one that has not passed.
unfoldable pub once_cond : ℕ → String → Item → Bool
once_cond now exp_attr i =
    attribute_exists "PK" i && (attribute_not_exists exp_attr i || exceeds exp_attr (stamp now) i)

unfoldable pub once_write : ℕ → Key → String → Write
unfolding once_cond
once_write now k exp_attr = record { at = k; cond = once_cond now exp_attr; effect = delete }

unfoldable pub once_done : StoreError → StoreError → Outcome → Result Item
once_done absent expired (written none) = err absent
once_done absent expired (written (some i)) = ok i
once_done absent expired (refused none) = err absent
once_done absent expired (refused (some i)) = err expired
once_done absent expired failed = err service

unfoldable pub save_write : ℕ → AuthCode → Write
unfolding code_item
save_write now c = record {
  at = code_key c.code_hash;
  cond = λ i. true;
  effect = put (code_item now c);
}

-- A put without a condition is never refused.
unfoldable pub saved : Outcome → Option StoreError
saved (written pre) = none
saved (refused pre) = some service
saved failed = some service

unfoldable pub check_code : Env → AuthCode → Option StoreError
check_code env c = check_hash c.code_hash or_else check_tenant env.multi_tenant c.tenant_id

module _ (db : Dynamo) where
  open db use {Table, write_item}

  unfoldable pub consume_item_once :
      Env → Table → Key → String → StoreError → StoreError → Table × Result Item
  unfolding once_done
  consume_item_once env t k exp_attr absent expired =
      let (t', out) = write_item t (once_write env.now k exp_attr) in
      (t', once_done absent expired out)

  unfoldable pub save_code : Env → Table → AuthCode → Table × Option StoreError
  unfolding saved check_code
  save_code env t c = elim (check_code env c) [
    | some e ↦ (t, some e)
    | none ↦ let (t', out) = write_item t (save_write env.now c) in (t', saved out)
  ]

  unfoldable pub consume_code : Env → Table → String → Table × Result AuthCode
  unfolding consume_item_once
  consume_code env t hash =
      let (t', found) =
        consume_item_once env t (code_key hash) "expiresAt" invalid_code invalid_code in
      elim (check_hash hash) [
        | some e ↦ (t, err invalid_code)
        | none ↦ (t', found >>= auth_code_from_item hash)
      ]
