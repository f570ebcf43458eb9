-- ===== src/Session/Lookup.antt =====
-- Resolving a refresh token (`GetSessionByRefreshTokenHash`, internal/store/dynamodb/sessions.go).
use awesome_lambda_auth.Items.{check_version}
use awesome_lambda_auth.Errors.{Result-cases, Result, ok, err}
use awesome_lambda_auth.Database.{unreachable, Item, Dynamo, fetched, Fetched}
use awesome_lambda_auth.Common.{
  ℕ, String, ◌≡◌, ◌≢◌, ◌⊎◌, Option, none, some, arith, eq_iff, Option-cases, inl, inr,
}
use awesome_lambda_auth.Database.Expression.{get_s, get_n}
use awesome_lambda_auth.Keys.{check_hash}
use awesome_lambda_auth.Session.{
  Session, RotationScope, session_key, refresh_key, session_from_item,
}
use awesome_lambda_auth.Env.{Env}
use awesome_lambda_auth.Session.Store.{
  get_session_by_refresh_token_hash, resolve_pointer, judge_session, judge_found, get_session_item,
}

module _ (db : Dynamo) where
  open db use {Table, contents, get_item, write_item}

  -- What stands behind a hash: its pointer, and the item of the session that it names.
  pub record Behind (t : Table) (hash : String) (sess : Session) : Type 0 where
    pub pointer : Item
    pub item : Item
    pub pointed : contents t (refresh_key hash) ≡ some pointer
    pub named : contents t (session_key (get_s pointer "sessionId")) ≡ some item
    pub decoded : session_from_item item ≡ ok sess

  get_session_item-ok :
      (t : Table) (id : String) (i : Item)
      → get_session_item db t id ≡ ok i
      → contents t (session_key id) ≡ some i
  unfolding get_session_item
  get_session_item-ok t id i h = ground (arith, db.get_law t (session_key id))

  judge_found-ok :
      (env : Env) (t : Table) (scope : Option RotationScope) (hash : String) (gen : ℕ) (i : Item)
      (found : Result Session) (sess : Session)
      → (judge_found db env t scope hash gen i found).2 ≡ ok sess
      → ((judge_found db env t scope hash gen i found).0 ≡ t)
        × (found ≡ ok sess)
        × ((sess.revoked_at ≢ none) ⊎ (get_s i "refreshHash" ≡ hash))
  unfolding judge_found
  judge_found-ok env t scope hash gen i (err e) sess h = absurd (cc h)
  judge_found-ok env t scope hash gen i (ok s) sess h =
      ground (arith, eq_iff (get_s i "refreshHash") hash)

  resolve_pointer-ok :
      (env : Env) (t : Table) (scope : Option RotationScope) (hash : String) (f : Fetched)
      (sess : Session)
      → (f ≡ fetched (contents t (refresh_key hash))) ⊎ (f ≡ unreachable)
      → (resolve_pointer db env t scope hash f).2 ≡ ok sess
      → (b : Behind t hash sess) × ((resolve_pointer db env t scope hash f).0 ≡ t)
        × ((sess.revoked_at ≢ none) ⊎ (get_s b.item "refreshHash" ≡ hash))
  unfolding resolve_pointer judge_session
  resolve_pointer-ok env t scope hash unreachable sess law h = absurd (cc h)
  resolve_pointer-ok env t scope hash (fetched none) sess law h = absurd (cc h)
  resolve_pointer-ok env t scope hash (fetched (some p)) sess law h =
      elim (Option-cases (check_version p)) [
        | inr (e, bad) ↦ absurd (cc (rw (bad, resolve_pointer) at h))
        | inl good ↦ elim (Result-cases (get_session_item db t (get_s p "sessionId"))) [
          | inl (e, lost) ↦ absurd (cc (rw (good, lost, resolve_pointer) at h))
          | inr (i, found) ↦
              let (same, decoded, current) =
                judge_found-ok env t scope hash (get_n p "gen") i (session_from_item i) sess
                  (rw (good, found, resolve_pointer) at h) in
              (
                record {
                  pointer = p;
                  item = i;
                  pointed = ground (arith, law);
                  named = get_session_item-ok t (get_s p "sessionId") i found;
                  decoded = decoded;
                },
                rw (good, found, resolve_pointer) same,
                current,
              )
        ]
      ]

  -- A hash that resolves has a pointer to the session that is returned, and that session is revoked
  -- or the hash is its current one: a rotated-out hash never resolves to a live session. The lookup
  -- changes nothing then.
  pub resolve_sound :
      (env : Env) (t : Table) (scope : Option RotationScope) (hash : String) (sess : Session)
      → (get_session_by_refresh_token_hash db env t scope hash).2 ≡ ok sess
      → (b : Behind t hash sess) × ((get_session_by_refresh_token_hash db env t scope hash).0 ≡ t)
        × ((sess.revoked_at ≢ none) ⊎ (get_s b.item "refreshHash" ≡ hash))
  unfolding get_session_by_refresh_token_hash
  resolve_sound env t scope hash sess h = elim (Option-cases (check_hash hash)) [
    | inr (e, bad) ↦ absurd (cc (rw (bad, get_session_by_refresh_token_hash) at h))
    | inl good ↦
        rw (good, get_session_by_refresh_token_hash)
          (resolve_pointer-ok env t scope hash (get_item t (refresh_key hash)) sess
            (db.get_law t (refresh_key hash)) (rw (good, get_session_by_refresh_token_hash) at h))
  ]
