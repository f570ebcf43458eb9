-- ===== src/AuthCodes/Replay.antt =====
-- A code that was redeemed is gone (internal/store/dynamodb/auth_codes.go).
use package.text.Mathlib.TextLemmas.{append_cancel_left}
use awesome_lambda_auth.AuthCodes.Redeem.{once-gone, gone-once}
use awesome_lambda_auth.AuthCodes.{
  once_done, check_code, once_write, code_key, consume_item_once, save_write, consume_code,
  save_code, AuthCode, auth_code_pk,
}
use awesome_lambda_auth.Database.{
  key-cases, WriteLaw, delete, Outcome, Contents, Write, Dynamo, Key, written, refused, failed,
}
use awesome_lambda_auth.Common.{
  refl, ◌∙◌, inl, inr, Option-cases, ap, none, ◌⊎◌, sym, ◌≡◌, All, ◌≢◌, String, List, [], ◌∷◌,
}
use awesome_lambda_auth.Errors.{Result-cases, service, invalid_code, ok, err}
use awesome_lambda_auth.Keys.{check_hash}
use awesome_lambda_auth.Env.{Env}

pub data CodeCall : Type 0 where
  save : AuthCode → CodeCall
  redeem : (hash : String) → CodeCall

-- The call saves no code under this hash.
abbrev pub SparesCode : String → CodeCall → Type 0
SparesCode hash (save c) = c.code_hash ≢ hash
SparesCode hash (redeem h) = Unit

code_key-ne : (a b : String) → a ≢ b → code_key b ≢ code_key a
unfolding auth_code_pk
code_key-ne a b ne e = ne (sym (append_cancel_left "OIDC#" b a (ap (λ (k : Key). k.0) e)))

-- A write to another key, or one that deletes, leaves a missing item missing.
write-missing :
    (k : Key) (w : Write) (before after : Contents) (out : Outcome)
    → (k ≢ w.at) ⊎ (w.effect ≡ delete)
    → WriteLaw before after w out
    → before k ≡ none
    → after k ≡ none
write-missing k w before after (written pre) (inl ne) (_, _, (_, frame)) h = frame k (ne, tt) ∙ h
write-missing k w before after (written pre) (inr e) (_, _, ((new, _), frame)) h =
    elim (key-cases k w.at) [ inl same ↦ rw (same, new, e) refl | inr ne ↦ frame k (ne, tt) ∙ h ]
write-missing k w before after (refused pre) apart (_, _, same) h = same k ∙ h
write-missing k w before after failed apart (inl same) h = same k ∙ h
write-missing k w before after failed (inl ne) (inr (_, (_, frame))) h = frame k (ne, tt) ∙ h
write-missing k w before after failed (inr e) (inr (_, ((new, _), frame))) h =
    elim (key-cases k w.at) [ inl same ↦ rw (same, new, e) refl | inr ne ↦ frame k (ne, tt) ∙ h ]

module _ (db : Dynamo) where
  open db use {Table, contents, write_item, write_law}

  unfoldable pub run_code_call : Env → Table → CodeCall → Table
  run_code_call env t (save c) = (save_code db env t c).0
  run_code_call env t (redeem hash) = (consume_code db env t hash).0

  -- Each call at its own instant, with its own options.
  unfoldable pub run_code_calls : Table → List (Env × CodeCall) → Table
  unfolding run_code_call
  run_code_calls t [] = t
  run_code_calls t ((env, c) ∷ cs) = run_code_calls (run_code_call env t c) cs

  save_code-missing :
      (env : Env) (t : Table) (c : AuthCode) (hash : String)
      → c.code_hash ≢ hash
      → contents t (code_key hash) ≡ none
      → contents (save_code db env t c).0 (code_key hash) ≡ none
  unfolding save_code save_write
  save_code-missing env t c hash ne h =
      let w = save_write env.now c in
      elim (Option-cases (check_code env c)) [
        | inr (e, bad) ↦ rw (bad, save_code) h
        | inl good ↦
            rw (good, save_code)
              (write-missing (code_key hash) w (contents t) (contents (write_item t w).0)
                (write_item t w).1 (inl (code_key-ne c.code_hash hash ne)) (write_law t w) h)
      ]

  consume_code-missing :
      (env : Env) (t : Table) (h' hash : String)
      → contents t (code_key hash) ≡ none
      → contents (consume_code db env t h').0 (code_key hash) ≡ none
  unfolding consume_code consume_item_once once_write
  consume_code-missing env t h' hash h =
      let w = once_write env.now (code_key h') "expiresAt" in
      elim (Option-cases (check_hash h')) [
        | inr (e, bad) ↦ rw (bad, consume_code) h
        | inl good ↦
            rw (good, consume_code, consume_item_once)
              (write-missing (code_key hash) w (contents t) (contents (write_item t w).0)
                (write_item t w).1 (inr refl) (write_law t w) h)
      ]

  run_code_calls-missing :
      (t : Table) (cs : List (Env × CodeCall)) (hash : String)
      → All (λ c. SparesCode hash c.1) cs
      → contents t (code_key hash) ≡ none
      → contents (run_code_calls t cs) (code_key hash) ≡ none
  unfolding run_code_calls run_code_call
  run_code_calls-missing t [] hash spare h = h
  run_code_calls-missing t ((env, save c) ∷ cs) hash (s, spare) h =
      run_code_calls-missing (save_code db env t c).0 cs hash spare
        (save_code-missing env t c hash s h)
  run_code_calls-missing t ((env, redeem h') ∷ cs) hash (s, spare) h =
      run_code_calls-missing (consume_code db env t h').0 cs hash spare
        (consume_code-missing env t h' hash h)

  redeemed-missing :
      (env : Env) (t : Table) (hash : String) (c : AuthCode)
      → (consume_code db env t hash).1 ≡ ok c
      → (contents (consume_code db env t hash).0 (code_key hash) ≡ none) × (check_hash hash ≡ none)
  unfolding consume_code consume_item_once
  redeemed-missing env t hash c won =
      let w = once_write env.now (code_key hash) "expiresAt" in
      elim (Option-cases (check_hash hash)) [
        | inr (e, bad) ↦ absurd (cc (rw (bad, consume_code) at won))
        | inl full ↦ elim (Result-cases (once_done invalid_code invalid_code (write_item t w).1)) [
          | inl (e, lost) ↦ absurd (cc (rw (full, lost, consume_code, consume_item_once) at won))
          | inr (i, got) ↦ (
            rw (full, consume_code, consume_item_once)
                (once-gone db env.now (code_key hash) invalid_code invalid_code i (contents t)
                  (contents (write_item t w).0) (write_item t w).1 got (write_law t w)),
            full,
          )
        ]
      ]

  -- A code that was redeemed is never redeemed again, whatever codes are saved and redeemed in
  -- between, failing calls included, as long as none is saved under its hash: the second call
  -- answers that the code is invalid, or that the service failed.
  pub consume_code-once :
      (env env' : Env) (t : Table) (hash : String) (c : AuthCode) (cs : List (Env × CodeCall))
      → (consume_code db env t hash).1 ≡ ok c
      → All (λ call. SparesCode hash call.1) cs
      → let again =
          (consume_code db env' (run_code_calls (consume_code db env t hash).0 cs) hash).1 in
        (again ≡ err invalid_code) ⊎ (again ≡ err service)
  unfolding consume_code consume_item_once
  consume_code-once env env' t hash c cs won spare =
      let (gone, full) = redeemed-missing env t hash c won in
      let t' = run_code_calls (consume_code db env t hash).0 cs in
      let w = once_write env'.now (code_key hash) "expiresAt" in
      elim (gone-once db env'.now (code_key hash) invalid_code invalid_code (contents t')
        (contents (write_item t' w).0) (write_item t' w).1
        (run_code_calls-missing _ cs hash spare gone) (write_law t' w)) [
          | inl invalid ↦ inl (rw (full, invalid, consume_code, consume_item_once) refl)
          | inr broken ↦ inr (rw (full, broken, consume_code, consume_item_once) refl)
        ]
