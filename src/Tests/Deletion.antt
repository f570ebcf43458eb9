-- ===== src/Tests/Deletion.antt =====
-- A run of deleting a user.
use awesome_lambda_auth.Accounts.Removal.{Stored, delete_user-Deletes, Deletes}
use awesome_lambda_auth.Tokens.{pk_prefix, profile_key}
use awesome_lambda_auth.Tokens.Features.{email_pk}
use awesome_lambda_auth.Paging.Batch.{
  delete_pending_keys, delete_chunks, delete_keys, chunks_from, chunks_of, read_pending_keys,
  read_chunks, batch_get, Batches, Occurs, Shrinks,
}
use awesome_lambda_auth.Accounts.Deletion.{
  metadata_keys_of, decode_all, owned_links_for_user, session_keys_for_user, pointer_keys,
  last_profile, swept_keys, Caps, Owned, delete_user,
}
use awesome_lambda_auth.Paging.{query_all}
use awesome_lambda_auth.Errors.{service, user_not_found, err}
use awesome_lambda_auth.Keys.{id_pattern, check_id, check_tenant, user_pk}
use awesome_lambda_auth.Accounts.{get_user_by_id}
use awesome_lambda_auth.Common.{
  str_eq, if◌then◌else◌, true, none, some, List, [], ◌∷◌, ◌≡◌, ◌⊎◌, refl, inl, inr, All, Bool-cases,
  eq_iff, arith,
}
use awesome_lambda_auth.Database.Expression.{item_of}
use awesome_lambda_auth.Accounts.Listed.{AllPages}
use awesome_lambda_auth.Database.{text, Contents, Item, Key}
use awesome_lambda_auth.Tests.Data.{env_at}
use awesome_lambda_auth.Tokens.Store.{check_user}
use awesome_lambda_auth.Database.Local.{local, key_eq, store_at, store_at_self}

-- Batches that never fail.
abbrev without_all : Contents → List Key → Contents
without_all t [] = t
without_all t (k ∷ ks) = store_at (without_all t ks) k none

abbrev items_at : Contents → List Key → List Item
items_at t [] = []
items_at t (k ∷ ks) = elim (t k) [ none ↦ items_at t ks | some i ↦ i ∷ items_at t ks ]

same_key : (j k : Key) → key_eq j k ≡ true → j ≡ k
same_key j k h = ground (arith, eq_iff j.0 k.0, eq_iff j.1 k.1)

store_at-none : (t : Contents) (j k : Key) → t j ≡ none → store_at t k none j ≡ none
store_at-none t j k h = elim (Bool-cases (key_eq j k)) [ inl e ↦ rw (e) refl | inr e ↦ rw (e) h ]

without_all-gone :
    (t : Contents) (keys : List Key) (k : Key) → Occurs k keys → without_all t keys k ≡ none
without_all-gone t [] k h = absurd h
without_all-gone t (j ∷ ks) k (inl e) = rw e (store_at_self (without_all t ks) j none)
without_all-gone t (j ∷ ks) k (inr h) =
    store_at-none (without_all t ks) k j (without_all-gone t ks k h)

without_all-Shrinks : (t : Contents) (keys : List Key) → Shrinks t (without_all t keys) keys
without_all-Shrinks t [] k = inl refl
without_all-Shrinks t (j ∷ ks) k = elim (Bool-cases (key_eq k j)) [
  | inl e ↦ inr (rw e refl, inl (same_key k j e))
  | inr e ↦ elim (without_all-Shrinks t ks k) [
    | inl same ↦ inl (rw e same)
    | inr (gone, h) ↦ inr (rw e gone, inr h)
  ]
]

all_gone :
    (t : Contents) (keys : List Key)
    → ((k : Key) → Occurs k keys → t k ≡ none)
    → All (λ k. (t k ≡ none) ⊎ Occurs k []) keys
all_gone t [] each = tt
all_gone t (k ∷ ks) each = (inl (each k (inl refl)), all_gone t ks (λ j h. each j (inr h)))

abbrev local_batches : Batches local
local_batches = record {
  delete_batch = λ t keys. (without_all t keys, some []);
  read_batch = λ t attempt keys. some (items_at t keys, []);
  delete_law = λ t keys. (
    all_gone (without_all t keys) keys (without_all-gone t keys),
    tt,
    without_all-Shrinks t keys,
  );
}

abbrev stored_profile : Item
stored_profile = item_of (
    ("PK", text "USER#acme#u1")
    ∷ ("SK", text "PROFILE")
    ∷ ("email", text "a@x.org")
    ∷ ("resetHash", text "h9")
    ∷ [])

-- A session of the user, and the entry of a link that is gone.
abbrev session_entry : Item
session_entry = item_of (("PK", text "SESSION#s1") ∷ ("SK", text "SESSION") ∷ [])

abbrev link_entry : Item
link_entry = item_of (("PK", text "OAUTH#x") ∷ ("SK", text "LINK") ∷ [])

abbrev owned : Owned
owned = record {
  collection = some (stored_profile ∷ []) ∷ [];
  sessions = some (session_entry ∷ []) ∷ [];
  links = some (link_entry ∷ []) ∷ [];
  metadata = some [] ∷ [];
}

abbrev caps : Caps
caps = record { sessions = 10; linked_accounts = 10; metadata_keys = 10; page_window = 10 }

abbrev user_and_session : Contents
user_and_session k =
    if key_eq k (profile_key "acme" "u1")
    then some stored_profile
    else if str_eq k.1 "SESSION"
    then some session_entry
    else none

abbrev after_deletion : Contents
after_deletion =
    (delete_user local local_batches (env_at 1) caps user_and_session "u1" "acme" owned).0

reports_none :
    (delete_user local local_batches (env_at 1) caps user_and_session "u1" "acme" owned).1 ≡ none
unfolding delete_user check_user check_tenant check_id id_pattern swept_keys query_all last_profile
    pointer_keys session_keys_for_user owned_links_for_user batch_get read_chunks read_pending_keys
    chunks_of chunks_from decode_all metadata_keys_of delete_keys delete_chunks delete_pending_keys
    user_pk email_pk pk_prefix
reports_none = refl

own_partition : AllPages (Stored local local_batches user_and_session "u1" "acme") owned.collection
unfolding user_pk
own_partition = (((refl, refl), tt), tt)

delete_user-Deletes_example :
    (profile : Item) × Deletes local local_batches
      (env_at 1)
      caps
      user_and_session
      after_deletion
      "acme"
      "u1"
      owned
      profile
    × ((get_user_by_id local (env_at 1) after_deletion "u1" "acme" ≡ err user_not_found)
        ⊎ (get_user_by_id local (env_at 1) after_deletion "u1" "acme" ≡ err service))
delete_user-Deletes_example =
    delete_user-Deletes local local_batches (env_at 1) caps user_and_session "u1" "acme" owned
      reports_none own_partition
