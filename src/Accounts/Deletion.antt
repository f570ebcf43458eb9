-- ===== src/Accounts/Deletion.antt =====
-- Deleting a user and listing users and what they own: `DeleteUser` and `ListUsers` of users.go, with
-- the listings of sessions.go, linked_accounts.go and metadata.go (internal/store/dynamodb) that it
-- sweeps by. The answers of the service to a query are a list of pages, as in Paging.
use mathlib.Core.List.{◌++◌ as append}
use awesome_lambda_auth.Common.{
  ℕ, String, Bool, ◌&&◌, ◌||◌, ◌==◌, ltb, Option, none, some, List, [], ◌∷◌, str_eq, if◌then◌else◌,
  ℤ,
}
use awesome_lambda_auth.Configuration.Sorting.{le_text, sort_stable}
use awesome_lambda_auth.Database.{Dynamo, Item, Key}
use awesome_lambda_auth.Database.Expression.{get_s}
use awesome_lambda_auth.Env.{Env}
use awesome_lambda_auth.Errors.{
  Result, StoreError, err, invalid_identifier, ok, passes, user_not_found, ◌>>=◌, ◌>>◌,
}
use awesome_lambda_auth.Keys.{check_id, codes, id_pattern}
use awesome_lambda_auth.Accounts.{member_key}
use awesome_lambda_auth.Linking.{LinkedAccount, link_from_item, link_id_key, link_key}
use awesome_lambda_auth.Paging.{Replies, canonical_keys, paged_index_query, query_all}
use awesome_lambda_auth.Paging.Batch.{Batches, batch_get, delete_keys}
use awesome_lambda_auth.Session.{Session, session_from_item}
use awesome_lambda_auth.Tokens.{
  Family, family_echg, family_magic, family_reset, family_verify, hash_attr, token_key,
}
use awesome_lambda_auth.Tokens.Features.{email_key}
use awesome_lambda_auth.Tokens.Store.{check_user}
use awesome_lambda_auth.Users.{User, user_from_item}

-- The caps of the listings (`Options`).
pub record Caps : Type 0 where
  pub sessions : ℕ
  pub linked_accounts : ℕ
  pub metadata_keys : ℕ
  pub page_window : ℕ

abbrev pub max_user_collection_items : ℕ
max_user_collection_items = 2000

abbrev pub Pages : Type 0
Pages = List (Option (List Item))

abbrev pub canonical_key_of_entry : Item → Key
canonical_key_of_entry e = (get_s e "PK", get_s e "SK")

abbrev pub canonical_key_in_same_partition : String → Item → Key
canonical_key_in_same_partition sk e = (get_s e "PK", sk)

abbrev pub keys_of_items : List Item → List Key
keys_of_items = canonical_keys canonical_key_of_entry

-- Each item decoded, or the first error.
unfoldable pub decode_all {ℓ} : {A : Type ℓ} → (Item → Result A) → List Item → Result (List A)
decode_all decode [] = ok []
decode_all decode (i ∷ rest) = do a ← decode i; later ← decode_all decode rest; ok (a ∷ later)

unfoldable pub session_keys_for_user : Env → Caps → String → String → Pages → Result (List Key)
unfolding check_user query_all
session_keys_for_user env caps user tenant pages = do
  passes (check_user env user tenant)
  items ← query_all caps.sessions [] pages
  ok (keys_of_items items)

unfoldable pub metadata_keys_of : Caps → Pages → Result (List Key)
unfolding query_all
metadata_keys_of caps pages = do
  items ← query_all caps.metadata_keys [] pages
  ok (keys_of_items items)

abbrev by_creation : Session → Session → Bool
by_creation a b =
    ltb a.created_at b.created_at || (a.created_at == b.created_at && le_text a.id b.id)

abbrev by_provider : LinkedAccount → LinkedAccount → Bool
by_provider a b =
    if str_eq a.provider b.provider
    then le_text a.provider_id b.provider_id
    else le_text a.provider b.provider

abbrev pub owned_by : String → List LinkedAccount → List LinkedAccount
owned_by user [] = []
owned_by user (l ∷ ls) = if str_eq l.user_id user then l ∷ owned_by user ls else owned_by user ls

-- The last item with the profile's sort key.
unfoldable pub last_profile : List Item → Option Item
last_profile [] = none
last_profile (i ∷ rest) = elim (last_profile rest) [
  | some later ↦ some later
  | none ↦ if str_eq (get_s i "SK") "PROFILE" then some i else none
]

abbrev pub profile_of : List Item → Result Item
profile_of items = elim (last_profile items) [ some p ↦ ok p | none ↦ err user_not_found ]

abbrev pub pointer_families : List Family
pointer_families = family_reset ∷ family_magic ∷ family_verify ∷ family_echg ∷ []

unfoldable pub pointer_keys : Item → List Family → List Key
pointer_keys profile [] = []
pointer_keys profile (f ∷ rest) =
    let hash = get_s profile (hash_attr f) in
    if str_eq hash ""
    then pointer_keys profile rest
    else token_key f hash ∷ pointer_keys profile rest

abbrev pub index_keys : List Key → List Key
index_keys [] = []
index_keys ((pk, sk) ∷ rest) = (pk, "SIDX") ∷ index_keys rest

abbrev pub keys_of_links : List LinkedAccount → List Key
keys_of_links [] = []
keys_of_links (l ∷ rest) =
    link_key l.provider l.provider_id
    ∷ (if str_eq l.id "" then keys_of_links rest else link_id_key l.id ∷ keys_of_links rest)

-- What the service answered to the four queries of a deletion.
pub record Owned : Type 0 where
  pub collection : Pages
  pub sessions : Pages
  pub links : Pages
  pub metadata : Pages

module _ (db : Dynamo) (batches : Batches db) where
  open db use {Table}

  -- The links that the index names, read back, and of these the ones that are still the user's.
  unfoldable pub owned_links_for_user :
      Env → Caps → Table → String → Pages → Result (List LinkedAccount)
  unfolding query_all batch_get decode_all
  owned_links_for_user env caps t user pages = do
    passes (check_id user)
    entries ← query_all caps.linked_accounts [] pages
    items ← batch_get db batches env t (keys_of_items entries)
    links ← decode_all link_from_item items
    ok (owned_by user links)

  unfoldable pub list_links_for_user :
      Env → Caps → Table → String → Pages → Result (List LinkedAccount)
  unfolding owned_links_for_user sort_stable le_text
  list_links_for_user env caps t user pages = do
    links ← owned_links_for_user env caps t user pages
    ok (sort_stable by_provider links)

  unfoldable pub list_sessions_for_user :
      Env → Caps → Table → String → String → Pages → Result (List Session)
  unfolding session_keys_for_user batch_get decode_all sort_stable le_text
  list_sessions_for_user env caps t user tenant pages = do
    keys ← session_keys_for_user env caps user tenant pages
    items ← batch_get db batches env t keys
    found ← decode_all session_from_item items
    ok (sort_stable by_creation found)

  unfoldable pub get_all_sessions :
      Env → Caps → Table → ℤ → ℤ → (ℕ → Replies) → Result (List Session)
  unfolding paged_index_query batch_get decode_all
  get_all_sessions env caps t limit offset first = do
    items ←
        paged_index_query (batch_get db batches env t) (canonical_key_in_same_partition "SESSION")
          caps.page_window limit offset first
    decode_all session_from_item items

  unfoldable pub list_users :
      Env → Caps → Table → String → ℤ → ℤ → (ℕ → Replies) → Result (List User)
  unfolding paged_index_query batch_get decode_all id_pattern
  list_users env caps t tenant limit offset first = do
    passes (if str_eq tenant "" || id_pattern (codes tenant) then none else some invalid_identifier)
    items ←
        paged_index_query (batch_get db batches env t) canonical_key_of_entry caps.page_window limit
          offset first
    decode_all user_from_item items

  -- The keys that a deletion sweeps.
  unfoldable pub swept_keys : Env → Caps → Table → String → String → Owned → Result (List Key)
  unfolding query_all last_profile pointer_keys session_keys_for_user owned_links_for_user
      metadata_keys_of
  swept_keys env caps t user tenant owned = do
    collection ← query_all max_user_collection_items [] owned.collection
    profile ← profile_of collection
    sessions ← session_keys_for_user env caps user tenant owned.sessions
    links ← owned_links_for_user env caps t user owned.links
    metadata ← metadata_keys_of caps owned.metadata
    ok (
        append (keys_of_items collection) (
          append (email_key tenant (get_s profile "email") ∷ member_key tenant user ∷ []) (
            append (pointer_keys profile pointer_families) (
              append sessions
                (append (index_keys sessions) (append (keys_of_links links) metadata))))))

  unfoldable pub delete_user :
      Env → Caps → Table → String → String → Owned → Table × Option StoreError
  unfolding check_user swept_keys delete_keys
  delete_user env caps t user tenant owned = elim (check_user env user tenant) [
    | some e ↦ (t, some e)
    | none ↦ elim (swept_keys env caps t user tenant owned) [
      | err e ↦ (t, some e)
      | ok keys ↦ delete_keys db batches env t keys
    ]
  ]
