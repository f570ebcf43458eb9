-- ===== src/Accounts/Parts.antt =====
-- The keys that a deletion lists, part by part (`DeleteUser`, internal/store/dynamodb/users.go).
use mathlib.Core.List.{◌++◌ as append}
use awesome_lambda_auth.Accounts.Deletion.{
  Pages, keys_of_links, metadata_keys_of, owned_links_for_user, max_user_collection_items,
  index_keys, swept_keys, Caps, Owned, keys_of_items, last_profile, pointer_families, pointer_keys,
  session_keys_for_user,
}
use awesome_lambda_auth.Paging.Batch.{Batches}
use awesome_lambda_auth.Errors.{◌>>=◌, Result-cases, ok}
use awesome_lambda_auth.Tokens.Store.{check_user}
use awesome_lambda_auth.Accounts.{member_key}
use awesome_lambda_auth.Common.{sym, String, some, List, [], ◌∷◌, ◌≡◌, inl, inr, Option-cases}
use awesome_lambda_auth.Database.{Dynamo, Item, Key}
use awesome_lambda_auth.Database.Expression.{get_s}
use awesome_lambda_auth.Env.{Env}
use awesome_lambda_auth.Linking.{LinkedAccount}
use awesome_lambda_auth.Paging.{query_all}
use awesome_lambda_auth.Tokens.Features.{email_key}

module _ (db : Dynamo) (batches : Batches db) where
  open db use {Table}

  pub session_keys-listed :
      (env : Env) (caps : Caps) (user tenant : String) (pages : Pages) (keys : List Key)
      → session_keys_for_user env caps user tenant pages ≡ ok keys
      → (items : List Item) × (query_all caps.sessions [] pages ≡ ok items)
        × (keys_of_items items ≡ keys)
  unfolding session_keys_for_user
  session_keys-listed env caps user tenant pages keys h =
      elim (Option-cases (check_user env user tenant)) [
        | inr (e, bad) ↦ absurd (cc (rw (bad, session_keys_for_user) at h))
        | inl fine ↦ elim (Result-cases (query_all caps.sessions [] pages)) [
          | inl (e, bad) ↦ absurd (cc (rw (fine, ◌>>=◌, bad, session_keys_for_user) at h))
          | inr (items, got) ↦
              let all : ok (keys_of_items items) ≡ ok keys =
                rw (fine, ◌>>=◌, got, session_keys_for_user) at h in
              (items, got, cc all)
        ]
      ]

  pub metadata_keys-listed :
      (caps : Caps) (pages : Pages) (keys : List Key)
      → metadata_keys_of caps pages ≡ ok keys
      → (items : List Item) × (query_all caps.metadata_keys [] pages ≡ ok items)
        × (keys_of_items items ≡ keys)
  unfolding metadata_keys_of
  metadata_keys-listed caps pages keys h =
      elim (Result-cases (query_all caps.metadata_keys [] pages)) [
        | inl (e, bad) ↦ absurd (cc (rw (bad, metadata_keys_of) at h))
        | inr (items, got) ↦
            let all : ok (keys_of_items items) ≡ ok keys = rw (got, metadata_keys_of) at h in
            (items, got, cc all)
      ]

  -- What is swept, in the order in which it is listed.
  abbrev pub keys_in_order :
      String → String → List Item → Item → List Key → List Key → List Key → List Key
  keys_in_order user tenant items profile sessions links metadata = append (keys_of_items items) (
      append (email_key tenant (get_s profile "email") ∷ member_key tenant user ∷ []) (
        append (pointer_keys profile pointer_families)
          (append sessions (append (index_keys sessions) (append links metadata)))))

  pub record Parts (env : Env) (caps : Caps) (t : Table) (user tenant : String) (owned : Owned)
      (keys : List Key) : Type 0 where
    pub items : List Item
    pub profile : Item
    pub sessions : List Key
    pub links : List LinkedAccount
    pub metadata : List Key
    pub collected : query_all max_user_collection_items [] owned.collection ≡ ok items
    pub found : last_profile items ≡ some profile
    pub listed : session_keys_for_user env caps user tenant owned.sessions ≡ ok sessions
    pub bound : owned_links_for_user db batches env caps t user owned.links ≡ ok links
    pub described : metadata_keys_of caps owned.metadata ≡ ok metadata
    pub in_order :
        keys ≡ keys_in_order user tenant items profile sessions (keys_of_links links) metadata

  pub swept_keys-Parts :
      (env : Env) (caps : Caps) (t : Table) (user tenant : String) (owned : Owned) (keys : List Key)
      → swept_keys db batches env caps t user tenant owned ≡ ok keys
      → Parts env caps t user tenant owned keys
  unfolding swept_keys
  swept_keys-Parts env caps t user tenant owned keys h =
      elim (Result-cases (query_all max_user_collection_items [] owned.collection)) [
        | inl (e, bad) ↦ absurd (cc (rw (bad, swept_keys) at h))
        | inr (items, c_ok) ↦ elim (Option-cases (last_profile items)) [
          | inl nothing ↦ absurd (cc (rw (c_ok, ◌>>=◌, nothing, swept_keys) at h))
          | inr (profile, p_ok) ↦
              elim (Result-cases (session_keys_for_user env caps user tenant owned.sessions)) [
                | inl (e, bad) ↦ absurd (cc (rw (c_ok, ◌>>=◌, p_ok, ◌>>=◌, bad, swept_keys) at h))
                | inr (sessions, s_ok) ↦
                    elim (Result-cases
                      (owned_links_for_user db batches env caps t user owned.links)) [
                        | inl (e, bad) ↦
                            absurd (
                              cc (rw (c_ok, ◌>>=◌, p_ok, ◌>>=◌, s_ok, ◌>>=◌, bad, swept_keys) at h))
                        | inr (links, l_ok) ↦
                            elim (Result-cases (metadata_keys_of caps owned.metadata)) [
                              | inl (e, bad) ↦ absurd (
                                  cc (
                                    rw
                                      (
                                        c_ok, ◌>>=◌, p_ok, ◌>>=◌, s_ok, ◌>>=◌, l_ok, ◌>>=◌, bad,
                                        swept_keys,
                                      )
                                      at h))
                              | inr (metadata, m_ok) ↦
                                  let all : ok (
                                        keys_in_order user tenant items profile sessions
                                          (keys_of_links links) metadata)
                                      ≡ ok keys =
                                    rw
                                      (
                                        c_ok, ◌>>=◌, p_ok, ◌>>=◌, s_ok, ◌>>=◌, l_ok, ◌>>=◌, m_ok,
                                        swept_keys,
                                      )
                                      at h in
                                  record {
                                    items = items;
                                    profile = profile;
                                    sessions = sessions;
                                    links = links;
                                    metadata = metadata;
                                    bound = l_ok;
                                    described = m_ok;
                                    collected = c_ok;
                                    found = p_ok;
                                    listed = s_ok;
                                    in_order = sym (cc all);
                                  }
                            ]
                      ]
              ]
        ]
      ]
