-- ===== src/Session/Replay.antt =====
-- A rotated-out refresh token kills its session (`GetSessionByRefreshTokenHash`,
-- `classifyRotationLoss` and `revokeFamily`, internal/store/dynamodb/sessions.go).
use awesome_lambda_auth.Items.{check_version}
use awesome_lambda_auth.Common.{
  str-ne, ap, ◌∙◌, ℕ, String, ◌≡◌, ◌≢◌, refl, true, Option, none, some,
}
use awesome_lambda_auth.Database.{
  Key, Item, text, num, stamp, Contents, Dynamo, Outcome, written, refused, failed, WriteLaw,
  fetched,
}
use awesome_lambda_auth.Database.Expression.{get_s, get_n, is_some}
use awesome_lambda_auth.Errors.{session_not_found, err}
use awesome_lambda_auth.Keys.{check_hash}
use awesome_lambda_auth.Session.{
  Session, RotationScope, session_key, refresh_key, revoke_family_write,
}
use awesome_lambda_auth.Env.{Env}
use awesome_lambda_auth.Session.Store.{
  get_session_by_refresh_token_hash, resolve_pointer, judge_session, judge_found, get_session_item,
  replay_seen, family_revoked,
}
use awesome_lambda_auth.Session.Lookup.{Behind}

-- The session's item says that the family was killed, when, and by which generation.
pub record IsKilled (at : ℕ) (gen : ℕ) (after : Option Item) : Type 0 where
  pub item : Item
  pub there : after ≡ some item
  pub revoked : item "revokedAt" ≡ some (stamp at)
  pub reason : item "revokedReason" ≡ some (text "refresh_replay")
  pub generation : item "revokedGen" ≡ some (num gen)

module _ (db : Dynamo) where
  open db use {Table, contents, get_item, write_item, write_law}

  -- The reads of this table answer, and the revocation that follows them does.
  pub record Answers (t : Table) (env : Env) (id : String) (gen : ℕ) : Type 0 where
    pub reads : (k : Key) → get_item t k ≡ fetched (contents t k)
    pub writes : (write_item t (revoke_family_write env.now id "refresh_replay" gen)).1 ≢ failed

  kill-outcome :
      (now : ℕ) (id : String) (gen : ℕ) (i : Item) (before after : Contents) (out : Outcome)
      → before (session_key id) ≡ some i
      → is_some (i "PK") ≡ true
      → i "revokedAt" ≡ none
      → out ≢ failed
      → WriteLaw before after (revoke_family_write now id "refresh_replay" gen) out
      → (family_revoked db out ≡ none) × IsKilled now gen (after (session_key id))
  unfolding revoke_family_write family_revoked
  kill-outcome now id gen i before after failed e pk live ans law = absurd (ans refl)
  kill-outcome now id gen i before after (refused pre) e pk live ans (lost, _, _) =
      absurd (cc (rw (e, pk, live) at lost))
  kill-outcome now id gen i before after (written pre) e pk live ans (held, _, ((new, _), _)) = (
    refl,
    record { item = _; there = rw e at new; revoked = refl; reason = refl; generation = refl },
  )

  -- Presenting a rotated-out hash of a live session answers as if the session were unknown, and
  -- kills the session: its item is revoked at once, with the reason of a replay and the generation
  -- of the hash.
  pub replay_kills :
      (env : Env) (t : Table) (scope : Option RotationScope) (hash : String) (sess : Session)
      (b : Behind db t hash sess)
      → hash ≢ ""
      → check_version b.pointer ≡ none
      → sess.id ≡ get_s b.pointer "sessionId"
      → is_some (b.item "PK") ≡ true
      → b.item "revokedAt" ≡ none
      → sess.revoked_at ≡ none
      → get_s b.item "refreshHash" ≢ hash
      → Answers t env sess.id (get_n b.pointer "gen")
      → ((get_session_by_refresh_token_hash db env t scope hash).2 ≡ err session_not_found)
        × IsKilled env.now (get_n b.pointer "gen") (
            contents
              (get_session_by_refresh_token_hash db env t scope hash).0
              (session_key sess.id))
  unfolding get_session_by_refresh_token_hash resolve_pointer judge_session judge_found replay_seen
      get_session_item check_hash
  replay_kills env t scope hash sess b full version id pk live live' stale ans =
      let pointer = ans.reads (refresh_key hash) ∙ ap fetched b.pointed in
      let named : get_item t (session_key (get_s b.pointer "sessionId")) ≡ fetched (some b.item) =
        ans.reads (session_key (get_s b.pointer "sessionId")) ∙ ap fetched b.named in
      let (answer, killed) =
        kill-outcome env.now sess.id (get_n b.pointer "gen") b.item (contents t)
          (contents
            (write_item t
              (revoke_family_write env.now sess.id "refresh_replay" (get_n b.pointer "gen"))).0)
          (write_item t
            (revoke_family_write env.now sess.id "refresh_replay" (get_n b.pointer "gen"))).1
          (rw id b.named) pk live ans.writes (write_law t _) in
      rw
        (
          str-ne hash "" full,
          pointer,
          version,
          named,
          b.decoded,
          live',
          str-ne _ hash stale,
          answer,
          get_session_by_refresh_token_hash,
          resolve_pointer,
        )
        (refl, killed)
