-- ===== src/Accounts/Listed.antt =====
-- What the keys that a deletion lists are (`DeleteUser`, internal/store/dynamodb/users.go).
use mathlib.Core.Path.{subst}
use mathlib.Core.List.{◌++◌ as append}
use awesome_lambda_auth.Accounts.Deletion.{
  index_keys, Pages, canonical_key_of_entry, keys_of_items, last_profile, pointer_keys,
}
use awesome_lambda_auth.Common.{
  sym, str-cases, ℕ, none, some, List, [], ◌∷◌, ◌≡◌, ◌⊎◌, refl, ◌∙◌, inl, inr, All, Bool-cases,
  Option-cases, str_eq, eq_iff, ltb, length,
}
use awesome_lambda_auth.Database.{Item, Key}
use awesome_lambda_auth.Database.Expression.{get_s}
use awesome_lambda_auth.Errors.{ok}
use awesome_lambda_auth.Paging.{query_all}
use awesome_lambda_auth.Paging.Batch.{Occurs}
use awesome_lambda_auth.Tokens.{Family, hash_attr, token_key}

-- Of the items of an answered page.
abbrev pub AllPages : (Item → Type 0) → Pages → Type 0
AllPages P [] = Unit
AllPages P (none ∷ rest) = AllPages P rest
AllPages P (some items ∷ rest) = All P items × AllPages P rest

All-append : (P : Item → Type 0) (xs ys : List Item) → All P xs → All P ys → All P (append xs ys)
All-append P [] ys p q = q
All-append P (x ∷ xs) ys (p, ps) q = (p, All-append P xs ys ps q)

pub query_all-All :
    (P : Item → Type 0) (most : ℕ) (out : List Item) (pages : Pages) (items : List Item)
    → query_all most out pages ≡ ok items
    → All P out
    → AllPages P pages
    → All P items
unfolding query_all
query_all-All P most out [] items h p q = subst (All P) (let e : out ≡ items = cc h in e) p
query_all-All P most out (none ∷ rest) items h p q = absurd (cc h)
query_all-All P most out (some page ∷ rest) items h p (now, q) =
    elim (Bool-cases (ltb most (length (append out page)))) [
      | inl wide ↦ absurd (cc (rw (wide, query_all) at h))
      | inr fits ↦
          query_all-All P most (append out page) rest items (rw (fits, query_all) at h)
            (All-append P out page p now) q
    ]

All-split : (P : Item → Type 0) (xs ys : List Item) → All P (append xs ys) → All P xs × All P ys
All-split P [] ys all = (tt, all)
All-split P (x ∷ xs) ys (p, all) = let (ps, qs) = All-split P xs ys all in ((p, ps), qs)

query_all-parts :
    (P : Item → Type 0) (most : ℕ) (out : List Item) (pages : Pages) (items : List Item)
    → query_all most out pages ≡ ok items
    → All P items
    → All P out × AllPages P pages
unfolding query_all
query_all-parts P most out [] items h all =
    (subst (All P) (let e : items ≡ out = cc h in e) all, tt)
query_all-parts P most out (none ∷ rest) items h all = absurd (cc h)
query_all-parts P most out (some page ∷ rest) items h all =
    elim (Bool-cases (ltb most (length (append out page)))) [
      | inl wide ↦ absurd (cc (rw (wide, query_all) at h))
      | inr fits ↦
          let (now, later) =
            query_all-parts P most (append out page) rest items (rw (fits, query_all) at h) all in
          let (before, here) = All-split P out page now in (before, (here, later))
    ]

All-keys :
    (P : Key → Type 0) (items : List Item)
    → All P (keys_of_items items)
    → All (λ i. P (canonical_key_of_entry i)) items
All-keys P [] all = tt
All-keys P (i ∷ items) (p, all) = (p, All-keys P items all)

-- What holds at the keys of all that was listed holds at the keys of the answered pages.
pub keys-AllPages :
    (P : Key → Type 0) (most : ℕ) (pages : Pages) (items : List Item)
    → query_all most [] pages ≡ ok items
    → All P (keys_of_items items)
    → AllPages (λ i. P (canonical_key_of_entry i)) pages
keys-AllPages P most pages items h all =
    (query_all-parts (λ i. P (canonical_key_of_entry i)) most [] pages items h
      (All-keys P items all)).1

pub Occurs-All : (P : Key → Type 0) (ks : List Key) → ((k : Key) → Occurs k ks → P k) → All P ks
Occurs-All P [] each = tt
Occurs-All P (k ∷ ks) each = (each k (inl refl), Occurs-All P ks (λ j h. each j (inr h)))

-- The profile that is found is one of the items, and has a profile's sort key.
pub last_profile-Occurs :
    (P : Item → Type 0) (items : List Item) (p : Item)
    → last_profile items ≡ some p
    → All P items
    → P p × (get_s p "SK" ≡ "PROFILE") × Occurs (canonical_key_of_entry p) (keys_of_items items)
unfolding last_profile
last_profile-Occurs P [] p h all = absurd (cc h)
last_profile-Occurs P (i ∷ rest) p h (here, all) = elim (Option-cases (last_profile rest)) [
  | inr (q, later) ↦
      let found : some q ≡ some p = rw (later, last_profile) at h in
      let (holds, sk, occurs) = last_profile-Occurs P rest p (later ∙ found) all in
      (holds, sk, inr occurs)
  | inl nothing ↦ elim (Bool-cases (str_eq (get_s i "SK") "PROFILE")) [
    | inr other ↦ absurd (cc (rw (nothing, other, last_profile) at h))
    | inl own ↦
        let found : some i ≡ some p = rw (nothing, own, last_profile) at h in
        let same : i ≡ p = cc found in
        subst
          (λ q.
            P q
            × (get_s q "SK" ≡ "PROFILE")
            × Occurs (canonical_key_of_entry q) (keys_of_items (i ∷ rest)))
          same (here, (eq_iff (get_s i "SK") "PROFILE").0 own, inl refl)
  ]
]

pub pointer_keys-Occurs :
    (P : Key → Type 0) (profile : Item) (fs : List Family)
    → ((k : Key) → Occurs k (pointer_keys profile fs) → P k)
    → All
        (λ f. (get_s profile (hash_attr f) ≡ "") ⊎ P (token_key f (get_s profile (hash_attr f))))
        fs
unfolding pointer_keys
pointer_keys-Occurs P profile [] each = tt
pointer_keys-Occurs P profile (f ∷ fs) each = elim (str-cases (get_s profile (hash_attr f)) "") [
  | inl empty ↦
      let rest : pointer_keys profile (f ∷ fs) ≡ pointer_keys profile fs =
        rw (empty.1, pointer_keys) refl in
      (
        inl empty.0,
        pointer_keys-Occurs P profile fs (λ k h. each k (subst (Occurs k) (sym rest) h)),
      )
  | inr kept ↦
      let own = token_key f (get_s profile (hash_attr f)) in
      let rest : pointer_keys profile (f ∷ fs) ≡ own ∷ pointer_keys profile fs =
        rw (kept.1, pointer_keys) refl in
      (
        inr (each own (subst (Occurs own) (sym rest) (inl refl))),
        pointer_keys-Occurs P profile fs (λ k h. each k (subst (Occurs k) (sym rest) (inr h))),
      )
]

-- Each session's key, and the key of its entry beside it.
pub sessions-Occurs :
    (P : Key → Type 0) (keys : List Key)
    → ((k : Key) → Occurs k keys ⊎ Occurs k (index_keys keys) → P k)
    → All (λ k. P k × P (k.0, "SIDX")) keys
sessions-Occurs P [] each = tt
sessions-Occurs P ((pk, sk) ∷ keys) each = (
  (each (pk, sk) (inl (inl refl)), each (pk, "SIDX") (inr (inl refl))),
  sessions-Occurs P keys (λ k h. each k (elim h [ inl a ↦ inl (inr a) | inr b ↦ inr (inr b) ])),
)
