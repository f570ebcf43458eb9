-- ===== src/AuthCodes/Redeem.antt =====
-- An authorization code is redeemed once, and gives back what was saved
-- (internal/store/dynamodb/auth_codes.go).
use awesome_lambda_auth.Items.{put_t-get, put_s-get, check_version}
use awesome_lambda_auth.Common.{
  inr, Option-cases, inl, ◌≢◌, refl, some, none, arith, true, ◌<◌, ◌⊎◌, ◌≡◌, ℕ,
}
use awesome_lambda_auth.Errors.{invalid_code, service, StoreError, ok, err}
use awesome_lambda_auth.Database.{
  Item, WriteLaw, Outcome, Contents, Key, Dynamo, written, refused, failed,
}
use awesome_lambda_auth.Keys.{check_hash}
use awesome_lambda_auth.AuthCodes.{
  code_key, check_code, consume_item_once, once_write, save_write, consume_code, once_done,
  save_code, saved, AuthCode, auth_code_from_item, code_item, once_cond,
}
use awesome_lambda_auth.Env.{Env}

code_item-round_trip :
    (now : ℕ) (c : AuthCode) → auth_code_from_item c.code_hash (code_item now c) ≡ ok c
unfolding auth_code_from_item code_item check_version
code_item-round_trip now c =
    rw
      (
        put_s-get c.user_id,
        put_s-get c.tenant_id,
        put_s-get c.client_id,
        put_s-get c.redirect_uri,
        put_s-get c.nonce,
        put_s-get c.scope,
        put_s-get c.code_challenge,
        put_s-get c.code_challenge_method,
        put_t-get c.expires_at,
      )
      refl

code_item-live :
    (now later : ℕ) (c : AuthCode)
    → (c.expires_at ≡ 0) ⊎ (later < c.expires_at)
    → once_cond later "expiresAt" (code_item now c) ≡ true
unfolding once_cond code_item
code_item-live now later c h = ground arith

module _ (db : Dynamo) where
  open db use {Table, contents, write_item, write_law}

  saved-there :
      (now : ℕ) (c : AuthCode) (before after : Contents) (out : Outcome)
      → saved out ≡ none
      → WriteLaw before after (save_write now c) out
      → after (code_key c.code_hash) ≡ some (code_item now c)
  unfolding saved save_write
  saved-there now c before after (written pre) h (_, _, ((new, _), _)) = new
  saved-there now c before after (refused pre) h law = absurd (cc h)
  saved-there now c before after failed h law = absurd (cc h)

  save_code-there :
      (env : Env) (t : Table) (c : AuthCode)
      → (save_code db env t c).1 ≡ none
      → (contents (save_code db env t c).0 (code_key c.code_hash) ≡ some (code_item env.now c))
        × (check_hash c.code_hash ≡ none)
  unfolding save_code check_code
  save_code-there env t c h =
      let w = save_write env.now c in
      elim (Option-cases (check_code env c)) [
        | inr (e, bad) ↦ absurd (cc (rw (bad, save_code) at h))
        | inl good ↦ (
          rw (good, save_code)
              (saved-there env.now c (contents t) (contents (write_item t w).0) (write_item t w).1
                (rw (good, save_code) at h) (write_law t w)),
          ground arith,
        )
      ]

  redeemed :
      (now : ℕ) (k : Key) (absent expired : StoreError) (i : Item) (before after : Contents)
      (out : Outcome)
      → before k ≡ some i
      → once_cond now "expiresAt" i ≡ true
      → out ≢ failed
      → WriteLaw before after (once_write now k "expiresAt") out
      → once_done absent expired out ≡ ok i
  unfolding once_done once_write
  redeemed now k absent expired i before after failed found holds ans law = absurd (ans refl)
  redeemed now k absent expired i before after (refused pre) found holds ans (lost, _, _) =
      absurd (cc (rw (found, holds) at lost))
  redeemed now k absent expired i before after (written pre) found holds ans (_, same, _) =
      rw (same, found) refl

  -- A code that was saved is redeemed, before its deadline if it has one and where the service
  -- answers, for the code that was saved, field by field.
  pub save_consume :
      (env env' : Env) (t : Table) (c : AuthCode)
      → (save_code db env t c).1 ≡ none
      → (c.expires_at ≡ 0) ⊎ (env'.now < c.expires_at)
      → let t' = (save_code db env t c).0 in
        (write_item t' (once_write env'.now (code_key c.code_hash) "expiresAt")).1 ≢ failed
        → (consume_code db env' t' c.code_hash).1 ≡ ok c
  unfolding consume_code consume_item_once
  save_consume env env' t c saved_ok early answers =
      let t' = (save_code db env t c).0 in
      let k = code_key c.code_hash in
      let w = once_write env'.now k "expiresAt" in
      let (there, full) = save_code-there env t c saved_ok in
      rw
        (
          full,
          redeemed env'.now k invalid_code invalid_code (code_item env.now c) (contents t')
              (contents (write_item t' w).0) (write_item t' w).1 there
              (code_item-live env.now env'.now c early) answers (write_law t' w),
          consume_code,
          consume_item_once,
        )
        (code_item-round_trip env.now c)

  pub once-gone :
      (now : ℕ) (k : Key) (absent expired : StoreError) (i : Item) (before after : Contents)
      (out : Outcome)
      → once_done absent expired out ≡ ok i
      → WriteLaw before after (once_write now k "expiresAt") out
      → after k ≡ none
  unfolding once_done once_write
  once-gone now k absent expired i before after (written pre) won (_, _, ((new, _), _)) = new
  once-gone now k absent expired i before after (refused none) won law = absurd (cc won)
  once-gone now k absent expired i before after (refused (some j)) won law = absurd (cc won)
  once-gone now k absent expired i before after failed won law = absurd (cc won)

  pub gone-once :
      (now : ℕ) (k : Key) (absent expired : StoreError) (before after : Contents) (out : Outcome)
      → before k ≡ none
      → WriteLaw before after (once_write now k "expiresAt") out
      → (once_done absent expired out ≡ err absent) ⊎ (once_done absent expired out ≡ err service)
  unfolding once_done once_write once_cond
  gone-once now k absent expired before after (written pre) gone (held, _, _) =
      absurd (cc (rw gone at held))
  gone-once now k absent expired before after (refused none) gone law = inl refl
  gone-once now k absent expired before after (refused (some j)) gone (_, pre, _) =
      absurd (ground (arith, pre, gone))
  gone-once now k absent expired before after failed gone law = inr refl
