-- ===== src/Tokens/Once.antt =====
-- A token is consumed once (internal/store/dynamodb/tokens.go,
-- internal/store/dynamodb/feature_tokens.go).
use package.text.Mathlib.TextPositions.{eq_refl}
use awesome_lambda_auth.Common.{
  refl, List, [], ◌∷◌, ◌⊎◌, inl, inr, Option-cases, true, All, ◌≡◌, Bool, ◌≢◌, String, ℕ,
}
use awesome_lambda_auth.Tokens.{
  hash_attr, family_sms, family_echg, invalid_err, profile_key, consume_cond, consume_write, Family,
}
use awesome_lambda_auth.Errors.{ok, err, service}
use awesome_lambda_auth.Tokens.Kept.{
  consume-IsGone, clear-IsGone, user_by-IsGone, issue-IsGone, IsGone, update_password-IsGone,
}
use awesome_lambda_auth.Tokens.Kept.Users.{mark_verified-IsGone, apply_change-IsGone}
use awesome_lambda_auth.Keys.{check_hash}
use awesome_lambda_auth.Tokens.Features.{
  apply_email_change, mark_email_verified, check_email, get_user_by_sms_code_hash,
  update_email_change_token,
}
use awesome_lambda_auth.Tokens.Spent.{exp_attr-ne, Spent}
use awesome_lambda_auth.Database.{
  WriteLaw, Outcome, Contents, Key, Dynamo, written, refused, failed,
}
use awesome_lambda_auth.Tokens.Store.{
  clear_single_use_token, check_user, user_by_single_use_token, issue_single_use_token,
  update_password, consume_single_use_token, consumed,
}
use awesome_lambda_auth.Users.{User}
use awesome_lambda_auth.Env.{Env}

-- The methods on a user's tokens, with their arguments.
pub data TokenCall : Type 0 where
  set_password : (user tenant password_hash : String) → TokenCall
  issue_token : (f : Family) (user tenant hash : String) (expiry : ℕ) → TokenCall
  issue_change : (user tenant pending hash : String) (expiry : ℕ) → TokenCall
  resolve_token : (f : Family) (hash : String) → TokenCall
  resolve_code : (user tenant hash : String) → TokenCall
  clear_token : (f : Family) (user tenant : String) → TokenCall
  mark_verified : (user tenant : String) (verified : Bool) → TokenCall
  apply_change : (user tenant : String) → TokenCall

-- The call does not issue this hash.
abbrev pub Spares : String → TokenCall → Type 0
Spares hash (issue_token f user tenant h expiry) = h ≢ hash
Spares hash (issue_change user tenant pending h expiry) = h ≢ hash
Spares hash _ = Unit

module _ (db : Dynamo) (normalize : String → String) where
  open db use {Table, contents, get_item, write_item, write_law}

  unfoldable pub run_token_call : Env → Table → TokenCall → Table
  run_token_call env t (set_password user tenant h) = (update_password db env t user tenant h).0
  run_token_call env t (issue_token f user tenant h expiry) =
      (issue_single_use_token db env t f user tenant h expiry []).0
  run_token_call env t (issue_change user tenant pending h expiry) =
      (update_email_change_token db normalize env t user tenant pending h expiry).0
  run_token_call env t (resolve_token f h) = (user_by_single_use_token db env t f h).0
  run_token_call env t (resolve_code user tenant h) =
      (get_user_by_sms_code_hash db env t user tenant h).0
  run_token_call env t (clear_token f user tenant) =
      (clear_single_use_token db env t f user tenant).0
  run_token_call env t (mark_verified user tenant v) =
      (mark_email_verified db env t user tenant v).0
  run_token_call env t (apply_change user tenant) = (apply_email_change db env t user tenant).0

  -- Each call at its own instant, with its own options.
  unfoldable pub run_token_calls : Table → List (Env × TokenCall) → Table
  unfolding run_token_call
  run_token_calls t [] = t
  run_token_calls t ((env, c) ∷ cs) = run_token_calls (run_token_call env t c) cs

  module _ (f : Family) (hash : String) (k : Key) where
    abbrev Gone : Table → Type 0
    Gone = IsGone db f hash k

    change_token-IsGone :
        (env : Env) (t : Table) (user tenant pending h' : String) (expiry : ℕ)
        → h' ≢ hash
        → Gone t
        → Gone (update_email_change_token db normalize env t user tenant pending h' expiry).0
    unfolding update_email_change_token
    change_token-IsGone env t user tenant pending h' expiry ne h =
        elim (Option-cases (check_email (normalize pending))) [
          | inr (e, bad) ↦ rw (bad, update_email_change_token) h
          | inl good ↦
              rw (good, update_email_change_token)
                (issue-IsGone db f hash k env t family_echg user tenant h' expiry
                  (record { attr = "pendingEmail"; value = normalize pending } ∷ []) ne (refl, tt)
                  h)
        ]

    sms-IsGone :
        (env : Env) (t : Table) (user tenant h' : String)
        → Gone t
        → Gone (get_user_by_sms_code_hash db env t user tenant h').0
    unfolding get_user_by_sms_code_hash
    sms-IsGone env t user tenant h' h = elim (Option-cases (check_user env user tenant)) [
      | inr (e, bad) ↦ rw (bad, get_user_by_sms_code_hash) h
      | inl good ↦ elim (Option-cases (check_hash h')) [
        | inr (e, bad) ↦ rw (good, bad, get_user_by_sms_code_hash) h
        | inl full ↦
            rw (good, full, get_user_by_sms_code_hash)
              (consume-IsGone db f hash k env t family_sms user tenant h' h)
      ]
    ]

    run_token_call-IsGone :
        (env : Env) (t : Table) (c : TokenCall)
        → Spares hash c
        → Gone t
        → Gone (run_token_call env t c)
    unfolding run_token_call
    run_token_call-IsGone env t (set_password user tenant p) spares h =
        update_password-IsGone db f hash k env t user tenant p h
    run_token_call-IsGone env t (issue_token g user tenant h' expiry) spares h =
        issue-IsGone db f hash k env t g user tenant h' expiry [] spares tt h
    run_token_call-IsGone env t (issue_change user tenant pending h' expiry) spares h =
        change_token-IsGone env t user tenant pending h' expiry spares h
    run_token_call-IsGone env t (resolve_token g h') spares h =
        user_by-IsGone db f hash k env t g h' h
    run_token_call-IsGone env t (resolve_code user tenant h') spares h =
        sms-IsGone env t user tenant h' h
    run_token_call-IsGone env t (clear_token g user tenant) spares h =
        clear-IsGone db f hash k env t g user tenant h
    run_token_call-IsGone env t (mark_verified user tenant v) spares h =
        mark_verified-IsGone db f hash k env t user tenant v h
    run_token_call-IsGone env t (apply_change user tenant) spares h =
        apply_change-IsGone db f hash k env t user tenant h

    run_token_calls-IsGone :
        (t : Table) (cs : List (Env × TokenCall))
        → All (λ c. Spares hash c.1) cs
        → Gone t
        → Gone (run_token_calls t cs)
    unfolding run_token_calls
    run_token_calls-IsGone t [] spare h = h
    run_token_calls-IsGone t ((env, c) ∷ cs) (s, spare) h =
        run_token_calls-IsGone (run_token_call env t c) cs spare (run_token_call-IsGone env t c s h)

  consumed-lost :
      (f : Family) (now : ℕ) (user tenant hash : String) (u : User) (before after : Contents)
      (out : Outcome)
      → consumed f out ≡ ok u
      → WriteLaw before after (consume_write f now user tenant hash) out
      → Spent f hash (after (profile_key tenant user))
  unfolding consumed consume_write
  consumed-lost f now user tenant hash u before after (refused pre) won law = absurd (cc won)
  consumed-lost f now user tenant hash u before after failed won law = absurd (cc won)
  consumed-lost f now user tenant hash u before after (written pre) won (_, _, ((new, _), _)) =
      rw (new, exp_attr-ne f f, eq_refl (hash_attr f)) refl

  lost-consumed :
      (f : Family) (now : ℕ) (user tenant hash : String) (before after : Contents) (out : Outcome)
      → Spent f hash (before (profile_key tenant user))
      → WriteLaw before after (consume_write f now user tenant hash) out
      → (consumed f out ≡ err (invalid_err f)) ⊎ (consumed f out ≡ err service)
  unfolding consumed consume_write consume_cond
  lost-consumed f now user tenant hash before after (written pre) gone (held, _, _) =
      absurd (cc (rw gone at held))
  lost-consumed f now user tenant hash before after (refused pre) gone law = inl refl
  lost-consumed f now user tenant hash before after failed gone law = inr refl

  -- Where the store consumes on read, a hash that was consumed is never accepted for that user again, whatever calls run in between,
  -- failing ones included, as long as none of them issues the hash again: the second consume answers
  -- with the family's error, or with a failure of the service.
  pub consume_once :
      (env env' : Env) (t : Table) (f : Family) (user tenant hash : String) (u : User)
      (cs : List (Env × TokenCall))
      → env.consume_on_read ≡ true
      → env'.consume_on_read ≡ true
      → (consume_single_use_token db env t f user tenant hash).1 ≡ ok u
      → All (λ c. Spares hash c.1) cs
      → let again =
          (consume_single_use_token db env'
            (run_token_calls (consume_single_use_token db env t f user tenant hash).0 cs)
            f
            user
            tenant
            hash).1 in
        (again ≡ err (invalid_err f)) ⊎ (again ≡ err service)
  unfolding consume_single_use_token
  consume_once env env' t f user tenant hash u cs writes writes' won spare =
      let w = consume_write f env.now user tenant hash in
      let lost =
        consumed-lost f env.now user tenant hash u (contents t) (contents (write_item t w).0)
          (write_item t w).1 (rw (writes, consume_single_use_token) at won) (write_law t w) in
      let t' = run_token_calls (write_item t w).0 cs in
      let w' = consume_write f env'.now user tenant hash in
      let still =
        run_token_calls-IsGone f hash (profile_key tenant user) (write_item t w).0 cs spare lost in
      rw (writes, writes', consume_single_use_token)
        (lost-consumed f env'.now user tenant hash (contents t') (contents (write_item t' w').0)
          (write_item t' w').1 still (write_law t' w'))
