-- ===== src/Accounts/Removal.antt =====
-- What deleting a user has done (`DeleteUser`, internal/store/dynamodb/users.go).
use mathlib.Core.Path.{subst}
use mathlib.Core.List.{◌++◌ as append}
use awesome_lambda_auth.Accounts.Deletion.{
  keys_of_links, delete_user, max_user_collection_items, index_keys, swept_keys, Caps, Owned,
  canonical_key_of_entry, keys_of_items, pointer_families, pointer_keys,
}
use awesome_lambda_auth.Tokens.{
  family_echg, family_verify, family_magic, family_reset, family_sms, Family, hash_attr,
  profile_key, token_key,
}
use awesome_lambda_auth.Accounts.Owns.{Owns, Parts-Owns}
use awesome_lambda_auth.Accounts.Parts.{
  Parts, metadata_keys-listed, session_keys-listed, swept_keys-Parts,
}
use awesome_lambda_auth.Accounts.Listed.{
  Occurs-All, keys-AllPages, AllPages, last_profile-Occurs, pointer_keys-Occurs, query_all-All,
  sessions-Occurs,
}
use awesome_lambda_auth.Database.{Contents, Dynamo, Item, Key}
use awesome_lambda_auth.Paging.Swept.{delete_keys-Swept, Occurs-append}
use awesome_lambda_auth.Paging.Batch.{delete_keys, Shrinks, Batches, Occurs}
use awesome_lambda_auth.Errors.{service, user_not_found, err, Result-cases}
use awesome_lambda_auth.Tokens.Store.{check_user}
use awesome_lambda_auth.Accounts.{found_user, get_user_by_id, member_key}
use awesome_lambda_auth.Keys.{user_pk}
use awesome_lambda_auth.Common.{
  sym, String, none, some, List, [], ◌∷◌, ◌≡◌, ◌⊎◌, refl, ap, ◌∙◌, inl, inr, All, Option-cases,
}
use awesome_lambda_auth.Database.Expression.{get_s}
use awesome_lambda_auth.Env.{Env}
use awesome_lambda_auth.Tokens.Features.{email_key}

module _ (db : Dynamo) (batches : Batches db) where
  open db use {Table, contents, get_item, get_law}

  -- What is gone when a user with this profile was deleted, and what else may be.
  pub record Deletes (env : Env) (caps : Caps) (before after : Table) (tenant user : String)
      (owned : Owned) (profile : Item) : Type 0 where
    pub found : contents before (profile_key tenant user) ≡ some profile
    pub profile_gone : contents after (profile_key tenant user) ≡ none
    pub address_gone : contents after (email_key tenant (get_s profile "email")) ≡ none
    pub member_gone : contents after (member_key tenant user) ≡ none
    pub pointers_gone :
        (f : Family)
        → (f ≡ family_sms)
          ⊎ (get_s profile (hash_attr f) ≡ "")
          ⊎ (contents after (token_key f (get_s profile (hash_attr f))) ≡ none)
    pub collection_gone :
        AllPages (λ i. contents after (get_s i "PK", get_s i "SK") ≡ none) owned.collection
    pub sessions_gone :
        AllPages
          (λ i.
            (contents after (get_s i "PK", get_s i "SK") ≡ none)
            × (contents after (get_s i "PK", "SIDX") ≡ none))
          owned.sessions
    pub metadata_gone :
        AllPages (λ i. contents after (get_s i "PK", get_s i "SK") ≡ none) owned.metadata
    pub nothing_else :
        (k : Key)
        → (contents after k ≡ contents before k)
          ⊎ ((contents after k ≡ none)
              × Owns db batches env caps before tenant user owned profile k)

  -- The families with a pointer are all but the one of text messages.
  each_pointer :
      (after : Contents) (profile : Item)
      → All
          (λ f.
            (get_s profile (hash_attr f) ≡ "")
            ⊎ (after (token_key f (get_s profile (hash_attr f))) ≡ none))
          pointer_families
      → (f : Family)
      → (f ≡ family_sms)
        ⊎ (get_s profile (hash_attr f) ≡ "")
        ⊎ (after (token_key f (get_s profile (hash_attr f))) ≡ none)
  each_pointer after profile all family_reset = inr all.0
  each_pointer after profile all family_magic = inr all.1.0
  each_pointer after profile all family_verify = inr all.1.1.0
  each_pointer after profile all family_echg = inr all.1.1.1.0
  each_pointer after profile all family_sms = inl refl

  -- The strongly consistent query of a user's partition answers items of it, as they are stored.
  abbrev pub Stored : Table → String → String → Item → Type 0
  Stored t user tenant i =
      (get_s i "PK" ≡ user_pk tenant user) × (contents t (get_s i "PK", get_s i "SK") ≡ some i)

  swept_keys-Deletes :
      (env : Env) (caps : Caps) (t after : Table) (user tenant : String) (owned : Owned)
      (keys : List Key) (parts : Parts db batches env caps t user tenant owned keys)
      → AllPages (Stored t user tenant) owned.collection
      → ((k : Key) → Occurs k keys → contents after k ≡ none)
      → Shrinks (contents t) (contents after) keys
      → Deletes env caps t after tenant user owned parts.profile
  swept_keys-Deletes env caps t after user tenant owned keys parts honest gone kept =
      let Gone = λ (k : Key). contents after k ≡ none in
      let c = keys_of_items parts.items in
      let two = email_key tenant (get_s parts.profile "email") ∷ member_key tenant user ∷ [] in
      let ps = pointer_keys parts.profile pointer_families in
      let ss = parts.sessions in
      let is = index_keys ss in
      let links = keys_of_links parts.links in
      let r6 = append links parts.metadata in
      let r5 = append is r6 in
      let r4 = append ss r5 in
      let r3 = append ps r4 in
      let r2 = append two r3 in
      let swept : (k : Key) → Occurs k c ⊎ Occurs k r2 → Gone k =
        λ k h. gone k (subst (Occurs k) (sym parts.in_order) (Occurs-append k c r2 h)) in
      let swept3 : (k : Key) → Occurs k r3 → Gone k =
        λ k h. swept k (inr (Occurs-append k two r3 (inr h))) in
      let swept4 : (k : Key) → Occurs k r4 → Gone k =
        λ k h. swept3 k (Occurs-append k ps r4 (inr h)) in
      let swept5 : (k : Key) → Occurs k r5 → Gone k =
        λ k h. swept4 k (Occurs-append k ss r5 (inr h)) in
      let swept6 : (k : Key) → Occurs k parts.metadata → Gone k = λ k h.
        swept5 k (Occurs-append k is r6 (inr (Occurs-append k links parts.metadata (inr h)))) in
      let stored = Stored t user tenant in
      let ((own, there), sk, occurs) =
        last_profile-Occurs stored parts.items parts.profile parts.found (
          query_all-All stored max_user_collection_items [] owned.collection parts.items
            parts.collected tt honest) in
      let its_key : canonical_key_of_entry parts.profile ≡ profile_key tenant user =
        rw (own, sk) refl in
      let (sessions, s_got, s_keys) =
        session_keys-listed db batches env caps user tenant owned.sessions ss parts.listed in
      let (described, m_got, m_keys) =
        metadata_keys-listed db batches caps owned.metadata parts.metadata parts.described in
      record {
        found = subst (λ k. contents t k ≡ some parts.profile) its_key there;
        profile_gone =
            subst Gone its_key (swept (canonical_key_of_entry parts.profile) (inl occurs));
        address_gone = swept (email_key tenant (get_s parts.profile "email")) (inr (inl refl));
        member_gone = swept (member_key tenant user) (inr (inr (inl refl)));
        pointers_gone = each_pointer (contents after) parts.profile (
            pointer_keys-Occurs Gone parts.profile pointer_families
              (λ k h. swept3 k (Occurs-append k ps r4 (inl h))));
        collection_gone =
            keys-AllPages Gone max_user_collection_items owned.collection parts.items
              parts.collected (Occurs-All Gone c (λ k h. swept k (inl h)));
        sessions_gone =
            keys-AllPages (λ k. Gone k × Gone (k.0, "SIDX")) caps.sessions owned.sessions sessions
              s_got
              (subst (All (λ k. Gone k × Gone (k.0, "SIDX"))) (sym s_keys) (
                sessions-Occurs Gone ss (λ k h. swept4 k (
                  Occurs-append k ss r5 (elim h [
                    | inl session ↦ inl session
                    | inr entry ↦ inr (Occurs-append k is r6 (inl entry))
                  ])))));
        metadata_gone =
            keys-AllPages Gone caps.metadata_keys owned.metadata described m_got
              (subst (All Gone) (sym m_keys) (Occurs-All Gone parts.metadata swept6));
        nothing_else = λ k. elim (kept k) [
          | inl same ↦ inl same
          | inr (now, occurs) ↦
              inr (now, Parts-Owns db batches env caps t user tenant owned keys parts k occurs)
        ];
      }

  -- Afterwards no such user is found: the read says so, or fails.
  gone-unfound :
      (env : Env) (after : Table) (user tenant : String)
      → check_user env user tenant ≡ none
      → contents after (profile_key tenant user) ≡ none
      → (get_user_by_id db env after user tenant ≡ err user_not_found)
        ⊎ (get_user_by_id db env after user tenant ≡ err service)
  unfolding get_user_by_id found_user
  gone-unfound env after user tenant fine gone = elim (get_law after (profile_key tenant user)) [
    | inl read ↦ inl (rw (fine, read, gone, get_user_by_id) refl)
    | inr lost ↦ inr (rw (fine, lost, get_user_by_id) refl)
  ]

  -- Where deleting a user reports no error, and the query of its partition answered items of it as
  -- they are stored, the profile that was stored, the address and the tokens that it names, the
  -- membership, and all that was listed in the partition, as sessions, with their directory
  -- entries, and as metadata are gone, however the service split the batches; nothing else is
  -- changed, but that the bindings of accounts that read as linked to the user may be gone, and
  -- the user is not found or the read fails.
  pub delete_user-Deletes :
      (env : Env) (caps : Caps) (t : Table) (user tenant : String) (owned : Owned)
      → (delete_user db batches env caps t user tenant owned).1 ≡ none
      → AllPages (Stored t user tenant) owned.collection
      → let after = (delete_user db batches env caps t user tenant owned).0 in
        (profile : Item) × Deletes env caps t after tenant user owned profile
        × ((get_user_by_id db env after user tenant ≡ err user_not_found)
            ⊎ (get_user_by_id db env after user tenant ≡ err service))
  unfolding delete_user
  delete_user-Deletes env caps t user tenant owned h honest =
      elim (Option-cases (check_user env user tenant)) [
        | inr (e, bad) ↦ absurd (cc (rw (bad, delete_user) at h))
        | inl fine ↦ elim (Result-cases (swept_keys db batches env caps t user tenant owned)) [
          | inl (e, bad) ↦ absurd (cc (rw (fine, bad, delete_user) at h))
          | inr (keys, listed) ↦
              let step : delete_user db batches env caps t user tenant owned
                  ≡ delete_keys db batches env t keys =
                rw (fine, listed, delete_user) refl in
              let (gone, kept) =
                delete_keys-Swept db batches env t keys (ap (λ r. r.1) (sym step) ∙ h) in
              let parts = swept_keys-Parts db batches env caps t user tenant owned keys listed in
              let after = (delete_keys db batches env t keys).0 in
              let deleted =
                swept_keys-Deletes env caps t after user tenant owned keys parts honest gone kept in
              subst
                (λ r.
                  (profile : Item) × Deletes env caps t r.0 tenant user owned profile
                  × ((get_user_by_id db env r.0 user tenant ≡ err user_not_found)
                      ⊎ (get_user_by_id db env r.0 user tenant ≡ err service)))
                (sym step)
                (
                  parts.profile,
                  deleted,
                  gone-unfound env after user tenant fine deleted.profile_gone,
                )
        ]
      ]
