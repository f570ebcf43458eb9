-- ===== src/Linking.antt =====
-- Accounts of OAuth providers that are bound to users: internal/store/dynamodb/linked_accounts.go,
-- less the listing by owner.
pub mod Binding
pub mod Pending
use Prim.Native.String.{◌++◌, len}
use awesome_lambda_auth.Common.{
  ℕ, zero, suc, ◌+◌, String, Bool, true, false, ◌&&◌, ◌||◌, Option, none, some, List, [], ◌∷◌,
  str_eq, ltb, if◌then◌else◌,
}
use awesome_lambda_auth.Database.{
  Dynamo, Fetched, Item, Key, Outcome, TxOutcome, Write, attributes, cancelled, committed, delete,
  failed, fetched, num, put, refused, text, tx_failed, unreachable, written,
}
use awesome_lambda_auth.Database.Expression.{
  attribute_not_exists, equals, get_s, is_some, item_of, put_s, put_t, schema_version,
}
use awesome_lambda_auth.Errors.{
  Result, StoreError, err, invalid_identifier, link_conflict, link_id_taken, link_not_found, ok,
  passes, service, ◌or_else◌, ◌>>=◌, ◌>>◌,
}
use awesome_lambda_auth.Env.{Env}
use awesome_lambda_auth.Items.{check_version, decode_time}
use awesome_lambda_auth.Keys.{check_id, codes, key_sep}
use awesome_lambda_auth.RateLimit.{has_control}
use awesome_lambda_auth.Transaction.{transact_write, tx_failed_at}

-- `auth.OAuthLinkedAccount`
pub record LinkedAccount : Type 0 where
  pub id : String
  pub user_id : String
  pub provider : String
  pub provider_id : String
  pub email : String
  pub name : String
  pub picture : String
  pub created_at : ℕ

-- Not empty, at most so many bytes, and no NUL, line feed or carriage return.
unfoldable pub check_opaque : ℕ → String → Option StoreError
unfolding has_control
check_opaque most s =
    if str_eq s ""
    then some invalid_identifier
    else if ltb most (len s)
    then some invalid_identifier
    else if has_control (codes s)
    then some invalid_identifier
    else none

abbrev pub check_provider_account_id : String → Option StoreError
check_provider_account_id id = check_opaque 512 id

unfoldable pub oauth_pk : String → String → String
oauth_pk provider provider_id = "OAUTH#" ++ (provider ++ (key_sep ++ provider_id))

unfoldable pub link_id_pk : String → String
link_id_pk id = "LINKID#" ++ id

abbrev pub link_key : String → String → Key
link_key provider provider_id = (oauth_pk provider provider_id, "OAUTH")

abbrev pub link_id_key : String → Key
link_id_key id = (link_id_pk id, "LINKID")

unfoldable pub link_item : LinkedAccount → Item
link_item l = put_t "createdAt" l.created_at (
    put_s "picture" l.picture (
      put_s "name" l.name (
        put_s "email" l.email (
          item_of (
            ("PK", text (oauth_pk l.provider l.provider_id))
            ∷ ("SK", text "OAUTH")
            ∷ ("_t", text "link")
            ∷ ("_v", num schema_version)
            ∷ ("linkId", text l.id)
            ∷ ("userId", text l.user_id)
            ∷ ("provider", text l.provider)
            ∷ ("providerId", text l.provider_id)
            ∷ ("GSI1PK", text ("USERID#" ++ l.user_id))
            ∷ ("GSI1SK", text ("OAUTH#" ++ (l.provider ++ (key_sep ++ l.provider_id))))
            ∷ [])))))

unfoldable pub link_id_item : LinkedAccount → Item
link_id_item l = item_of (
    ("PK", text (link_id_pk l.id))
    ∷ ("SK", text "LINKID")
    ∷ ("_t", text "linkid")
    ∷ ("_v", num schema_version)
    ∷ ("linkId", text l.id)
    ∷ ("userId", text l.user_id)
    ∷ ("provider", text l.provider)
    ∷ ("providerId", text l.provider_id)
    ∷ [])

unfoldable pub link_from_item : Item → Result LinkedAccount
unfolding check_version
link_from_item i = do
  passes (check_version i)
  created ← decode_time i "createdAt"
  ok (record {
    id = get_s i "linkId";
    user_id = get_s i "userId";
    provider = get_s i "provider";
    provider_id = get_s i "providerId";
    email = get_s i "email";
    name = get_s i "name";
    picture = get_s i "picture";
    created_at = created;
  })

-- Nothing holds the binding, or still what was observed.
abbrev pub still_observed : String → Item → Bool
still_observed observed i =
    attribute_not_exists "PK" i
    || (if str_eq observed "" then false else equals "linkId" (text observed) i)

abbrev pub names_link : LinkedAccount → Item → Bool
names_link l i =
    attribute_not_exists "PK" i
    || (equals "userId" (text l.user_id) i
        && equals "provider" (text l.provider) i
        && equals "providerId" (text l.provider_id) i)

abbrev pub drop_pointer : String → Write
drop_pointer id = record { at = link_id_key id; cond = λ i. true; effect = delete }

-- The pointer of the id that held the binding goes, where that is another.
abbrev pub stale_pointer : LinkedAccount → String → List Write
stale_pointer l observed =
    if str_eq observed ""
    then []
    else if str_eq observed l.id
    then []
    else drop_pointer observed ∷ []

unfoldable pub bind_writes : LinkedAccount → String → List Write
unfolding link_item link_id_item
bind_writes l observed =
    record {
      at = link_key l.provider l.provider_id;
      cond = still_observed observed;
      effect = put (link_item l);
    }
    ∷ record { at = link_id_key l.id; cond = names_link l; effect = put (link_id_item l) }
    ∷ stale_pointer l observed

-- What an attempt comes to: `rebound` is a binding that another caller changed in between.
pub data Attempt : Type 0 where
  bound rebound : Attempt
  broke : StoreError → Attempt

unfoldable pub attempt_of : TxOutcome → Attempt
attempt_of committed = bound
attempt_of tx_failed = broke service
attempt_of (cancelled rs) =
    if is_some (tx_failed_at rs 1)
    then broke link_id_taken
    else if is_some (tx_failed_at rs 0)
    then rebound
    else broke service

-- `linkRebindAttempts`, less the last one.
abbrev pub rebind_retries : ℕ
rebind_retries = 3

unfoldable pub check_link : LinkedAccount → Option StoreError
unfolding check_opaque
check_link l =
    check_id l.id
    or_else check_id l.user_id
    or_else check_id l.provider
    or_else check_provider_account_id l.provider_id

-- Deleting an absent pointer succeeds, and so does deleting a link that another id holds.
abbrev deleted : Outcome → Option StoreError
deleted (written pre) = none
deleted (refused pre) = some service
deleted failed = some service

module _ (db : Dynamo) where
  open db use {Table, get_item, write_item}

  unfoldable pub bind_observed : Env → Table → LinkedAccount → Item → Table × Attempt
  unfolding check_version attempt_of
  bind_observed env t l i =
      let (t', out) = transact_write db env.waits t (bind_writes l (get_s i "linkId")) in
      elim (check_version i) [ some e ↦ (t, broke e) | none ↦ (t', attempt_of out) ]

  unfoldable pub try_bind : Env → Table → LinkedAccount → Fetched → Table × Attempt
  unfolding bind_observed
  try_bind env t l unreachable = (t, broke service)
  try_bind env t l (fetched found) = bind_observed env t l (attributes found)

  -- The loop of `Save`, with the retries that are left.
  unfoldable pub save_from : Env → ℕ → ℕ → Table → LinkedAccount → Table × Option StoreError
  unfolding try_bind
  save_from env zero attempt t l =
      let (t', came) = try_bind env t l (get_item t (link_key l.provider l.provider_id)) in
      elim came [ bound ↦ (t', none) | rebound ↦ (t', some link_conflict) | broke e ↦ (t', some e) ]
  save_from env (suc left) attempt t l =
      let (t', came) = try_bind env t l (get_item t (link_key l.provider l.provider_id)) in
      let again = save_from env left (attempt + 1) t' l in
      elim came [
        | bound ↦ (t', none)
        | rebound ↦ if env.waits attempt then again else (t', some service)
        | broke e ↦ (t', some e)
      ]

  unfoldable pub save_link : Env → Table → LinkedAccount → Table × Option StoreError
  unfolding save_from check_link
  save_link env t l = elim (check_link l) [
    | some e ↦ (t, some e)
    | none ↦ save_from env rebind_retries 0 t l
  ]

  unfoldable pub found_link : Fetched → Result LinkedAccount
  unfolding link_from_item
  found_link unreachable = err service
  found_link (fetched none) = err link_not_found
  found_link (fetched (some i)) = link_from_item i

  -- A malformed provider or account is one that nobody has bound.
  unfoldable pub find_by_provider : Table → String → String → Result LinkedAccount
  unfolding found_link check_opaque
  find_by_provider t provider provider_id =
      elim (check_id provider or_else check_provider_account_id provider_id) [
        | some e ↦ err link_not_found
        | none ↦ found_link (get_item t (link_key provider provider_id))
      ]

  unfoldable pub unlink_writes : String → Item → List Write
  unlink_writes id pointer =
      record {
        at = link_key (get_s pointer "provider") (get_s pointer "providerId");
        cond = equals "linkId" (text id);
        effect = delete;
      }
      ∷ drop_pointer id
      ∷ []

  -- Where the binding is gone or another id's, the pointer alone is dropped.
  unfoldable pub unlinked : Table × TxOutcome → String → Table × Option StoreError
  unlinked (t, committed) id = (t, none)
  unlinked (t, tx_failed) id = (t, some service)
  unlinked (t, cancelled rs) id =
      let (t', out) = write_item t (drop_pointer id) in
      if is_some (tx_failed_at rs 0) then (t', deleted out) else (t, some service)

  unfoldable pub delete_pointed : Env → Table → String → Fetched → Table × Option StoreError
  unfolding unlinked unlink_writes check_version
  delete_pointed env t id unreachable = (t, some service)
  delete_pointed env t id (fetched none) = (t, none)
  delete_pointed env t id (fetched (some p)) = elim (check_version p) [
    | some e ↦ (t, some e)
    | none ↦ unlinked (transact_write db env.waits t (unlink_writes id p)) id
  ]

  unfoldable pub delete_link : Env → Table → String → Table × Option StoreError
  unfolding delete_pointed
  delete_link env t id = elim (check_id id) [
    | some e ↦ (t, some e)
    | none ↦ delete_pointed env t id (get_item t (link_id_key id))
  ]
