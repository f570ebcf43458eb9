-- ===== src/Accounts/Owns.antt =====
-- What a deletion may delete (`DeleteUser`, internal/store/dynamodb/users.go).
use mathlib.Core.Path.{subst}
use mathlib.Core.List.{◌++◌ as append}
use awesome_lambda_auth.Linking.{link_from_item, LinkedAccount, link_id_key, link_key}
use awesome_lambda_auth.Accounts.Deletion.{
  decode_all, Caps, Owned, Pages, index_keys, keys_of_items, keys_of_links,
  max_user_collection_items, owned_by, owned_links_for_user, pointer_families, pointer_keys,
}
use awesome_lambda_auth.Paging.Batch.{batch_get, Batches, Occurs}
use awesome_lambda_auth.Errors.{◌>>=◌, Result-cases, ok}
use awesome_lambda_auth.Keys.{check_id}
use awesome_lambda_auth.Common.{
  Option-cases, ℕ, String, none, some, List, [], ◌∷◌, ◌≡◌, ◌⊎◌, refl, sym, ap, ◌∙◌, inl, inr,
  Bool-cases, eq_iff, str_eq, str-cases, ltb, length,
}
use awesome_lambda_auth.Database.{Dynamo, Item, Key}
use awesome_lambda_auth.Database.Expression.{get_s}
use awesome_lambda_auth.Env.{Env}
use awesome_lambda_auth.Accounts.{member_key}
use awesome_lambda_auth.Accounts.Parts.{Parts, metadata_keys-listed, session_keys-listed}
use awesome_lambda_auth.Paging.{query_all}
use awesome_lambda_auth.Paging.Swept.{append-Occurs}
use awesome_lambda_auth.Tokens.{Family, hash_attr, token_key}
use awesome_lambda_auth.Tokens.Features.{email_key}

-- The key of an item of an answered page.
abbrev pub OnPages : Key → Pages → Type 0
OnPages k [] = ⊥
OnPages k (none ∷ rest) = OnPages k rest
OnPages k (some items ∷ rest) = Occurs k (keys_of_items items) ⊎ OnPages k rest

keys-Occurs :
    (k : Key) (xs ys : List Item)
    → Occurs k (keys_of_items (append xs ys))
    → Occurs k (keys_of_items xs) ⊎ Occurs k (keys_of_items ys)
keys-Occurs k [] ys h = inr h
keys-Occurs k (x ∷ xs) ys (inl same) = inl (inl same)
keys-Occurs k (x ∷ xs) ys (inr h) = elim (keys-Occurs k xs ys h) [
  | inl here ↦ inl (inr here)
  | inr there ↦ inr there
]

query_all-Occurs :
    (k : Key) (most : ℕ) (out : List Item) (pages : Pages) (items : List Item)
    → query_all most out pages ≡ ok items
    → Occurs k (keys_of_items items)
    → Occurs k (keys_of_items out) ⊎ OnPages k pages
unfolding query_all
query_all-Occurs k most out [] items h occurs =
    let same : items ≡ out = cc h in inl (subst (λ is. Occurs k (keys_of_items is)) same occurs)
query_all-Occurs k most out (none ∷ rest) items h occurs = absurd (cc h)
query_all-Occurs k most out (some page ∷ rest) items h occurs =
    elim (Bool-cases (ltb most (length (append out page)))) [
      | inl wide ↦ absurd (cc (rw (wide, query_all) at h))
      | inr fits ↦
          elim (query_all-Occurs k most (append out page) rest items (rw (fits, query_all) at h)
            occurs) [
              | inr later ↦ inr (inr later)
              | inl now ↦ elim (keys-Occurs k out page now) [
                | inl before ↦ inl before
                | inr here ↦ inr (inl here)
              ]
            ]
    ]

listed-OnPages :
    (k : Key) (most : ℕ) (pages : Pages) (items : List Item)
    → query_all most [] pages ≡ ok items
    → Occurs k (keys_of_items items)
    → OnPages k pages
listed-OnPages k most pages items h occurs =
    elim (query_all-Occurs k most [] pages items h occurs) [
      | inl before ↦ absurd before
      | inr here ↦ here
    ]

pointers-Family :
    (k : Key) (profile : Item) (fs : List Family)
    → Occurs k (pointer_keys profile fs)
    → (f : Family) × (k ≡ token_key f (get_s profile (hash_attr f)))
unfolding pointer_keys
pointers-Family k profile [] h = absurd h
pointers-Family k profile (f ∷ fs) h = elim (str-cases (get_s profile (hash_attr f)) "") [
  | inl (empty, test) ↦ pointers-Family k profile fs (rw (test, pointer_keys) at h)
  | inr (full, test) ↦
      let own = token_key f (get_s profile (hash_attr f)) in
      let now : Occurs k (own ∷ pointer_keys profile fs) = rw (test, pointer_keys) at h in
      elim now [ inl same ↦ (f, same) | inr later ↦ pointers-Family k profile fs later ]
]

entry-Occurs :
    (k : Key) (keys : List Key)
    → Occurs k (index_keys keys)
    → (j : Key) × Occurs j keys × (k ≡ (j.0, "SIDX"))
entry-Occurs k [] h = absurd h
entry-Occurs k ((pk, sk) ∷ keys) (inl same) = ((pk, sk), inl refl, same)
entry-Occurs k ((pk, sk) ∷ keys) (inr h) =
    let (j, occurs, same) = entry-Occurs k keys h in (j, inr occurs, same)

abbrev LinkKey : LinkedAccount → Key → Type 0
LinkKey l k = (k ≡ link_key l.provider l.provider_id) ⊎ (k ≡ link_id_key l.id)

link-Occurs :
    (k : Key) (links : List LinkedAccount)
    → Occurs k (keys_of_links links)
    → (l : LinkedAccount) × Occurs l links × LinkKey l k
link-Occurs k [] h = absurd h
link-Occurs k (l ∷ links) (inl same) = (l, inl refl, inl same)
link-Occurs k (l ∷ links) (inr h) = elim (Bool-cases (str_eq l.id "")) [
  | inl empty ↦ let (m, occurs, key) = link-Occurs k links (rw empty at h) in (m, inr occurs, key)
  | inr full ↦
      let now : Occurs k (link_id_key l.id ∷ keys_of_links links) = rw full at h in
      elim now [
        | inl same ↦ (l, inl refl, inr same)
        | inr later ↦ let (m, occurs, key) = link-Occurs k links later in (m, inr occurs, key)
      ]
]

owned-Occurs :
    (user : String) (l : LinkedAccount) (ls : List LinkedAccount)
    → Occurs l (owned_by user ls)
    → l.user_id ≡ user
owned-Occurs user l [] h = absurd h
owned-Occurs user l (m ∷ ls) h = elim (Bool-cases (str_eq m.user_id user)) [
  | inr other ↦ owned-Occurs user l ls (rw other at h)
  | inl own ↦
      let now : Occurs l (m ∷ owned_by user ls) = rw own at h in
      elim now [
        | inl same ↦ ap (λ x. x.user_id) same ∙ (eq_iff m.user_id user).0 own
        | inr later ↦ owned-Occurs user l ls later
      ]
]

module _ (db : Dynamo) (batches : Batches db) where
  open db use {Table}

  -- What is the user's: what the queries listed, what the profile names, and the bindings of the
  -- linked accounts that were read back and are the user's.
  pub data Owns (env : Env) (caps : Caps) (t : Table) (tenant user : String) (owned : Owned)
      (profile : Item) (k : Key) : Type 0 where
    its_item : OnPages k owned.collection → Owns env caps t tenant user owned profile k
    its_address :
        k ≡ email_key tenant (get_s profile "email") → Owns env caps t tenant user owned profile k
    its_membership : k ≡ member_key tenant user → Owns env caps t tenant user owned profile k
    its_token :
        (f : Family)
        → k ≡ token_key f (get_s profile (hash_attr f))
        → Owns env caps t tenant user owned profile k
    its_session : OnPages k owned.sessions → Owns env caps t tenant user owned profile k
    its_entry :
        (j : Key)
        → OnPages j owned.sessions
        → k ≡ (j.0, "SIDX")
        → Owns env caps t tenant user owned profile k
    its_metadata : OnPages k owned.metadata → Owns env caps t tenant user owned profile k
    its_link :
        (links : List LinkedAccount) (l : LinkedAccount)
        → owned_links_for_user db batches env caps t user owned.links ≡ ok links
        → Occurs l links
        → l.user_id ≡ user
        → (k ≡ link_key l.provider l.provider_id) ⊎ (k ≡ link_id_key l.id)
        → Owns env caps t tenant user owned profile k

  bound-user :
      (env : Env) (caps : Caps) (t : Table) (user : String) (pages : Pages)
      (links : List LinkedAccount)
      → owned_links_for_user db batches env caps t user pages ≡ ok links
      → (l : LinkedAccount) → Occurs l links
      → l.user_id ≡ user
  unfolding owned_links_for_user
  bound-user env caps t user pages links h l occurs = elim (Option-cases (check_id user)) [
    | inr (e, bad) ↦ absurd (cc (rw (bad, owned_links_for_user) at h))
    | inl fine ↦ elim (Result-cases (query_all caps.linked_accounts [] pages)) [
      | inl (e, bad) ↦ absurd (cc (rw (fine, ◌>>=◌, bad, owned_links_for_user) at h))
      | inr (entries, q_ok) ↦
          elim (Result-cases (batch_get db batches env t (keys_of_items entries))) [
            | inl (e, bad) ↦
                absurd (cc (rw (fine, ◌>>=◌, q_ok, ◌>>=◌, bad, owned_links_for_user) at h))
            | inr (items, b_ok) ↦ elim (Result-cases (decode_all link_from_item items)) [
              | inl (e, bad) ↦
                  absurd (
                    cc (rw (fine, ◌>>=◌, q_ok, ◌>>=◌, b_ok, ◌>>=◌, bad, owned_links_for_user) at h))
              | inr (read, d_ok) ↦
                  let all : ok (owned_by user read) ≡ ok links =
                    rw (fine, ◌>>=◌, q_ok, ◌>>=◌, b_ok, ◌>>=◌, d_ok, owned_links_for_user) at h in
                  let same : links ≡ owned_by user read = sym (cc all) in
                  owned-Occurs user l read (subst (Occurs l) same occurs)
            ]
          ]
    ]
  ]

  -- Every key that a deletion lists is the user's.
  pub Parts-Owns :
      (env : Env) (caps : Caps) (t : Table) (user tenant : String) (owned : Owned) (keys : List Key)
      (parts : Parts db batches env caps t user tenant owned keys) (k : Key)
      → Occurs k keys
      → Owns env caps t tenant user owned parts.profile k
  Parts-Owns env caps t user tenant owned keys parts k occurs =
      let (sessions, s_got, s_keys) =
        session_keys-listed db batches env caps user tenant owned.sessions parts.sessions
          parts.listed in
      let (described, m_got, m_keys) =
        metadata_keys-listed db batches caps owned.metadata parts.metadata parts.described in
      let on_sessions : (j : Key) → Occurs j parts.sessions → OnPages j owned.sessions = λ j h.
        listed-OnPages j caps.sessions owned.sessions sessions s_got
          (subst (Occurs j) (sym s_keys) h) in
      elim (append-Occurs k _ _ (subst (Occurs k) parts.in_order occurs)) [
        | inl item ↦ its_item (
            listed-OnPages k max_user_collection_items owned.collection parts.items parts.collected
              item)
        | inr (inl address) ↦ its_address address
        | inr (inr (inl member)) ↦ its_membership member
        | inr (inr (inr rest)) ↦ elim (append-Occurs k _ _ rest) [
          | inl pointer ↦
              let (f, same) = pointers-Family k parts.profile pointer_families pointer in
              its_token f same
          | inr rest ↦ elim (append-Occurs k _ _ rest) [
            | inl session ↦ its_session (on_sessions k session)
            | inr rest ↦ elim (append-Occurs k _ _ rest) [
              | inl entry ↦
                  let (j, here, same) = entry-Occurs k parts.sessions entry in
                  its_entry j (on_sessions j here) same
              | inr rest ↦ elim (append-Occurs k _ _ rest) [
                | inl link ↦
                    let (l, here, key) = link-Occurs k parts.links link in
                    its_link parts.links l parts.bound here
                      (bound-user env caps t user owned.links parts.links parts.bound l here) key
                | inr metadata ↦ its_metadata (
                    listed-OnPages k caps.metadata_keys owned.metadata described m_got
                      (subst (Occurs k) (sym m_keys) metadata))
              ]
            ]
          ]
        ]
      ]
