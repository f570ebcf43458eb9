-- ===== src/Tokens/Resolve.antt =====
-- What the methods on tokens do to the table when they succeed (internal/store/dynamodb/tokens.go).
use mathlib.Core.Path.{subst}
use awesome_lambda_auth.Tokens.Issue.{
  issued-accepted, token_pointer-version, check_issue-hash, issue_done-committed, some-injective,
  token_pointer-names, consumed-Consumes, Consumes, PendingOnly, exists-found,
}
use awesome_lambda_auth.Tokens.Kept.{issue_writes-Distinct}
use awesome_lambda_auth.Common.{
  ◌∙◌, sym, inl, inr, refl, str-ne, ◌<◌, ◌≢◌, Option-cases, some, true, none, ◌≡◌, String, ℕ, List,
  [], ◌∷◌,
}
use awesome_lambda_auth.Transaction.Retry.{transact_write_law}
use awesome_lambda_auth.Database.{
  fetched, TxLaw, text, WriteLaw, Item, Outcome, Contents, Key, Dynamo, written, refused, failed,
  committed,
}
use awesome_lambda_auth.Tokens.{
  token_pointer, token_key, consume_cond, issued, has_pointer, profile_key, TokenExtra, Family,
  consume_write, pointer_write, issue_write, password_write,
}
use awesome_lambda_auth.Users.{user_from_item, User}
use awesome_lambda_auth.Tokens.Store.{
  check_issue, check_user, issue, user_by_pointer, consume_single_use_token, consumed,
  issue_single_use_token, update_password, user_by_single_use_token, updated,
}
use awesome_lambda_auth.Transaction.{transact_write}
use awesome_lambda_auth.Keys.{check_hash}
use awesome_lambda_auth.Env.{Env}
use awesome_lambda_auth.Errors.{ok}

-- Setting a password: the profile has the new hash and no migration marker, from one write.
pub record Adopts (password : String) (k : Key) (before after : Contents) : Type 0 where
  pub old : Item
  pub found : before k ≡ some old
  pub item : Item
  pub there : after k ≡ some item
  pub adopted : item "passwordHash" ≡ some (text password)
  pub unmarked : item "migration" ≡ none
  pub kept : (a : String) → a ≢ "passwordHash" → a ≢ "updatedAt" → a ≢ "migration" → item a ≡ old a
  pub others : (j : Key) → j ≢ k → after j ≡ before j

updated-Adopts :
    (now : ℕ) (user tenant password : String) (before after : Contents) (out : Outcome)
    → updated out ≡ none
    → WriteLaw before after (password_write now user tenant password) out
    → Adopts password (profile_key tenant user) before after
unfolding updated password_write
updated-Adopts now user tenant password before after (refused pre) h law = absurd (cc h)
updated-Adopts now user tenant password before after failed h law = absurd (cc h)
updated-Adopts now user tenant password before after (written pre) h
      (held, same, ((new, _), frame)) =
    let (old, found) = exists-found (before (profile_key tenant user)) held in
    record {
      old = old;
      found = found;
      item = _;
      there = rw found at new;
      adopted = refl;
      unmarked = refl;
      kept = λ a p u m. rw (str-ne a _ p, str-ne a _ u, str-ne a _ m) refl;
      others = λ j ne. frame j (ne, tt);
    }

module _ (db : Dynamo) where
  open db use {Table, contents, get_item, write_item, write_law}

  -- Setting a password finds the profile and, in one write, sets the hash and drops the migration
  -- marker; no other attribute but the time of the update and no other item changes.
  pub update_password-Adopts :
      (env : Env) (t : Table) (user tenant password : String)
      → (update_password db env t user tenant password).1 ≡ none
      → Adopts password
          (profile_key tenant user)
          (contents t)
          (contents (update_password db env t user tenant password).0)
  unfolding update_password
  update_password-Adopts env t user tenant password h =
      let w = password_write env.now user tenant password in
      elim (Option-cases (check_user env user tenant)) [
        | inr (e, bad) ↦ absurd (cc (rw (bad, update_password) at h))
        | inl good ↦
            rw (good, update_password)
              (updated-Adopts env.now user tenant password (contents t)
                (contents (write_item t w).0) (write_item t w).1 (rw (good, update_password) at h)
                (write_law t w))
      ]

  -- Where the store consumes on read, a token that is accepted was the profile's, unexpired at that instant; the call removed it and
  -- its expiry, and changed nothing else. What it returns is the profile as it was.
  pub consume-Consumes :
      (env : Env) (t : Table) (f : Family) (user tenant hash : String) (u : User)
      → env.consume_on_read ≡ true
      → (consume_single_use_token db env t f user tenant hash).1 ≡ ok u
      → Consumes f env.now hash
          (profile_key tenant user)
          u
          (contents t)
          (contents (consume_single_use_token db env t f user tenant hash).0)
  unfolding consume_single_use_token
  consume-Consumes env t f user tenant hash u writes won =
      let w = consume_write f env.now user tenant hash in
      rw (writes, consume_single_use_token)
        (consumed-Consumes f env.now user tenant hash u (contents t) (contents (write_item t w).0)
          (write_item t w).1 (rw (writes, consume_single_use_token) at won) (write_law t w))

  -- What an issue of a pointer's family leaves behind.
  record IsIssued (env : Env) (f : Family) (user tenant hash : String) (expiry : ℕ)
      (extras : List TokenExtra) (before after : Contents) : Type 0 where
    old : Item
    found : before (profile_key tenant user) ≡ some old
    profile : after (profile_key tenant user) ≡ some (issued f env.now hash expiry extras old)
    pointer : after (token_key f hash) ≡ some (token_pointer f user tenant hash expiry)
    full : check_hash hash ≡ none

  committed-IsIssued :
      (env : Env) (f : Family) (user tenant hash : String) (expiry : ℕ) (extras : List TokenExtra)
      (before after : Contents)
      → check_hash hash ≡ none
      → TxLaw before after
          (issue_write f env.now user tenant hash expiry extras
            ∷ pointer_write f user tenant hash expiry
            ∷ [])
          committed
      → IsIssued env f user tenant hash expiry extras before after
  unfolding issue_write pointer_write
  committed-IsIssued env f user tenant hash expiry extras before after full
        ((held, _), ((step, (new, _)), frame)) =
      let (old, found) = exists-found (before (profile_key tenant user)) held in
      record { old = old; found = found; profile = rw found at step; pointer = new; full = full }

  issue-IsIssued :
      (env : Env) (t : Table) (f : Family) (user tenant hash : String) (expiry : ℕ)
      (extras : List TokenExtra)
      → has_pointer f ≡ true
      → (issue_single_use_token db env t f user tenant hash expiry extras).1 ≡ none
      → IsIssued env f user tenant hash expiry extras
          (contents t)
          (contents (issue_single_use_token db env t f user tenant hash expiry extras).0)
  unfolding issue_single_use_token issue
  issue-IsIssued env t f user tenant hash expiry extras points h =
      let ws =
        issue_write f env.now user tenant hash expiry extras
        ∷ pointer_write f user tenant hash expiry
        ∷ [] in
      let out = transact_write db env.waits t ws in
      elim (Option-cases (check_issue env f user tenant hash extras)) [
        | inr (e, bad) ↦ absurd (cc (rw (bad, issue_single_use_token) at h))
        | inl good ↦
            let done =
              issue_done-committed out.1 (rw (good, points, issue_single_use_token, issue) at h) in
            rw (good, points, issue_single_use_token, issue)
              (committed-IsIssued env f user tenant hash expiry extras (contents t) (contents out.0)
                (check_issue-hash env f user tenant hash extras good)
                (subst (TxLaw (contents t) (contents out.0) ws) done (
                  transact_write_law db env.waits ws
                    (issue_writes-Distinct db f hash (profile_key tenant user) f env.now user tenant
                      hash expiry extras)
                    t)))
      ]

  accepted :
      (f : Family) (now : ℕ) (user tenant hash : String) (i : Item) (before after : Contents)
      (out : Outcome)
      → before (profile_key tenant user) ≡ some i
      → consume_cond f now hash i ≡ true
      → out ≢ failed
      → WriteLaw before after (consume_write f now user tenant hash) out
      → consumed f out ≡ user_from_item i
  unfolding consumed consume_write
  accepted f now user tenant hash i before after failed found holds ans law = absurd (ans refl)
  accepted f now user tenant hash i before after (refused pre) found holds ans (lost, _, _) =
      absurd (cc (rw (found, holds) at lost))
  accepted f now user tenant hash i before after (written pre) found holds ans (_, same, _) =
      rw (same, found) refl

  -- A token of a family with a pointer that was issued resolves, before its expiry and where the
  -- service answers and the store consumes on read, to its user: the result is what the profile reads as after the issue.
  pub issue_resolve :
      (env env' : Env) (t : Table) (f : Family) (user tenant hash : String) (expiry : ℕ)
      (extras : List TokenExtra) (old : Item)
      → has_pointer f ≡ true
      → PendingOnly extras
      → contents t (profile_key tenant user) ≡ some old
      → (issue_single_use_token db env t f user tenant hash expiry extras).1 ≡ none
      → env'.consume_on_read ≡ true
      → env'.now < expiry
      → let t' = (issue_single_use_token db env t f user tenant hash expiry extras).0 in
        ((k : Key) → get_item t' k ≡ fetched (contents t' k))
        → (write_item t' (consume_write f env'.now user tenant hash)).1 ≢ failed
        → (user_by_single_use_token db env' t' f hash).1
          ≡ user_from_item (issued f env.now hash expiry extras old)
  unfolding user_by_single_use_token user_by_pointer consume_single_use_token
  issue_resolve env env' t f user tenant hash expiry extras old points only known won writes early
        reads answers =
      let t' = (issue_single_use_token db env t f user tenant hash expiry extras).0 in
      let p = issue-IsIssued env t f user tenant hash expiry extras points won in
      let w = consume_write f env'.now user tenant hash in
      let names = token_pointer-names f user tenant hash expiry in
      let profile = rw (some-injective (sym p.found ∙ known)) at p.profile in
      rw
        (
          points,
          p.full,
          reads (token_key f hash),
          p.pointer,
          token_pointer-version f user tenant hash expiry,
          names.0,
          names.1,
          writes,
          user_by_single_use_token,
          user_by_pointer,
          consume_single_use_token,
        )
        (accepted f env'.now user tenant hash _ (contents t') (contents (write_item t' w).0)
          (write_item t' w).1 profile
          (issued-accepted f env.now env'.now hash expiry extras old only early) answers
          (write_law t' w))
