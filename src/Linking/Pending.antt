-- ===== src/Linking/Pending.antt =====
-- The stash of an OAuth flow: internal/store/dynamodb/pending_links.go, with the namespaces of keys.go.
use Prim.Native.String.{◌++◌}
use awesome_lambda_auth.Common.{
  ℕ, ◌+◌, ◌==◌, String, Bool, true, ◌&&◌, ◌||◌, not, Option, none, some, [], ◌∷◌, leb,
  if◌then◌else◌,
}
use awesome_lambda_auth.Configuration.Text.{has_prefix}
use awesome_lambda_auth.Database.{
  Dynamo, Fetched, Item, Key, Outcome, delete, failed, fetched, num, put, refused, text,
  unreachable, written,
}
use awesome_lambda_auth.Database.Expression.{
  assign, get_s, item_of, put_s, put_t, schema_version, unix,
}
use awesome_lambda_auth.Errors.{
  Result, StoreError, err, ok, passes, pending_link_expired, pending_link_not_found, service, ◌>>=◌,
  ◌>>◌,
}
use awesome_lambda_auth.Env.{Env}
use awesome_lambda_auth.Items.{check_version, decode_time}
use awesome_lambda_auth.AuthCodes.{consume_item_once}
use awesome_lambda_auth.Linking.{check_opaque}

-- `auth.OAuthPendingMeta`
pub record PendingMeta : Type 0 where
  pub provider : String
  pub redirect_url : String
  pub tenant_id : String
  pub user_id : String
  pub email : String
  pub provider_account_id : String
  pub expires_at : ℕ

abbrev pub check_state_key : String → Option StoreError
check_state_key state = check_opaque 1024 state

-- `pendingLinkIsSingleUse`
unfoldable pub is_single_use : String → Bool
unfolding has_prefix
is_single_use state = has_prefix state "oauth-state:" || has_prefix state "link-token:"

unfoldable pub pending_link_pk : String → String
pending_link_pk state = "PLINK#" ++ state

abbrev pub pending_key : String → Key
pending_key state = (pending_link_pk state, "PLINK")

-- The deadline of the store's own; a lifetime of 0 stands for one that is not positive.
abbrev put_deadline : ℕ → ℕ → Item → Item
put_deadline now lifetime i =
    if lifetime == 0
    then i
    else assign "ttl" (num (unix (now + lifetime))) (put_t "expiresAt" (now + lifetime) i)

unfoldable pub pending_link_item : ℕ → String → PendingMeta → ℕ → Item
pending_link_item now state m lifetime = put_deadline now lifetime (
    put_t "createdAt" now (
      put_t "metaExpiresAt" m.expires_at (
        put_s "providerId" m.provider_account_id (
          put_s "email" m.email (
            put_s "userId" m.user_id (
              put_s "tenantId" m.tenant_id (
                put_s "redirectUrl" m.redirect_url (
                  put_s "provider" m.provider (
                    item_of (
                      ("PK", text (pending_link_pk state))
                      ∷ ("SK", text "PLINK")
                      ∷ ("_t", text "plink")
                      ∷ ("_v", num schema_version)
                      ∷ []))))))))))

unfoldable pub pending_link_from_item : Item → Result PendingMeta
unfolding check_version
pending_link_from_item i = do
  passes (check_version i)
  expires ← decode_time i "metaExpiresAt"
  ok (record {
    provider = get_s i "provider";
    redirect_url = get_s i "redirectUrl";
    tenant_id = get_s i "tenantId";
    user_id = get_s i "userId";
    email = get_s i "email";
    provider_account_id = get_s i "providerId";
    expires_at = expires;
  })

-- A write without a condition is never refused.
abbrev unconditional : Outcome → Option StoreError
unconditional (written pre) = none
unconditional (refused pre) = some service
unconditional failed = some service

-- An entry whose deadline has passed is expired, though it is still there.
unfoldable pub live_link : ℕ → Item → Result PendingMeta
unfolding pending_link_from_item
live_link now i = do
  deadline ← decode_time i "expiresAt"
  (if not (deadline == 0) && leb deadline now
      then err pending_link_expired
      else pending_link_from_item i)

unfoldable pub read_link : ℕ → Fetched → Result PendingMeta
unfolding live_link
read_link now unreachable = err service
read_link now (fetched none) = err pending_link_not_found
read_link now (fetched (some i)) = live_link now i

module _ (db : Dynamo) where
  open db use {Table, get_item, write_item}

  unfoldable pub save_pending : Env → Table → String → PendingMeta → ℕ → Table × Option StoreError
  unfolding check_opaque pending_link_item
  save_pending env t state m lifetime =
      let (t', out) = write_item t (record {
        at = pending_key state;
        cond = λ i. true;
        effect = put (pending_link_item env.now state m lifetime);
      }) in
      elim (check_state_key state) [ some e ↦ (t, some e) | none ↦ (t', unconditional out) ]

  -- The entries of a single-use namespace are consumed by the read.
  unfoldable pub get_pending : Env → Table → String → Table × Result PendingMeta
  unfolding consume_item_once read_link is_single_use check_opaque
  get_pending env t state =
      let (t', found) =
        consume_item_once db env t (pending_key state) "expiresAt" pending_link_not_found
          pending_link_expired in
      elim (check_state_key state) [
        | some e ↦ (t, err pending_link_not_found)
        | none ↦
            if is_single_use state && env.consume_on_read
            then (t', found >>= pending_link_from_item)
            else (t, read_link env.now (get_item t (pending_key state)))
      ]

  unfoldable pub delete_pending : Env → Table → String → Table × Option StoreError
  unfolding check_opaque
  delete_pending env t state =
      let (t', out) =
        write_item t (record { at = pending_key state; cond = λ i. true; effect = delete }) in
      elim (check_state_key state) [ some e ↦ (t, some e) | none ↦ (t', unconditional out) ]
