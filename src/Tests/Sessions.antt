-- ===== src/Tests/Sessions.antt =====
-- Runs of the session store.
use awesome_lambda_auth.Session.{
  create_writes, check_session, revoke_family_write, session_key, revoke_by_id_write,
  session_from_item, session_item, refresh_pointer, rotated, rotation_cond, rotate_writes,
}
use awesome_lambda_auth.Keys.{
  id_pattern, check_tenant, refresh_pk, session_pk, check_hash, check_id,
}
use awesome_lambda_auth.Session.Replay.{replay_kills, IsKilled, Answers}
use awesome_lambda_auth.Database.Expression.{get_n, is_some, get_s}
use awesome_lambda_auth.Session.Rotation.{rotate_writes-Distinct}
use awesome_lambda_auth.Tests.Data.{
  empty, local_reads, created_once, revoked, stored, pinned, session_with, rotated_once, env_at,
}
use awesome_lambda_auth.Common.{
  eq_iff, String, arith, [], ◌∷◌, ◌⊎◌, List, true, ◌≢◌, refl, none, ◌≡◌,
}
use awesome_lambda_auth.Errors.{session_not_found, err, ok}
use awesome_lambda_auth.Session.Creation.{create_resolve}
use awesome_lambda_auth.Session.Store.{
  created, create_session, found_session, get_session_item, judge_found, judge_session,
  resolve_pointer, get_session_by_refresh_token_hash, revoke_session_by_id, rotation_done, rotate,
}
use awesome_lambda_auth.Transaction.Retry.{transact_write_law}
use awesome_lambda_auth.Database.{TxLaw, text, stamp, Item}
use awesome_lambda_auth.Items.{check_version}
use awesome_lambda_auth.Session.Calls.{admin_revoke, resolve, refresh_or_logout, Call}
use awesome_lambda_auth.Session.Lookup.{resolve_sound, Behind}
use awesome_lambda_auth.Env.{Env}
use awesome_lambda_auth.Session.Advance.{Advances, rotate-Advances}
use awesome_lambda_auth.Session.Winner.{revoked_never_rotates, single_winner}
use awesome_lambda_auth.Session.History.{RevokedBy, here}
use awesome_lambda_auth.Transaction.{is_transaction_conflict, transact_from, transact_write}
use awesome_lambda_auth.Database.Local.{local}

first_wins : (rotate local (env_at 2) stored (session_with "h2") pinned true).1 ≡ none
unfolding rotate rotation_done rotate_writes rotation_cond rotated refresh_pointer session_item
    transact_write transact_from is_transaction_conflict
first_wins = refl

single_winner_example :
    (rotate local (env_at 3) rotated_once (session_with "h3") pinned true).1 ≢ none
single_winner_example =
    single_winner local (env_at 2) (env_at 3) stored rotated_once (session_with "h2")
      (session_with "h3") pinned pinned refl refl refl refl first_wins here

is_revoked : RevokedBy (stamp 5) (text "admin_revoke") (revoked (session_key "s1"))
unfolding revoke_session_by_id revoke_by_id_write check_id session_item session_pk
is_revoked = (refl, refl)

abbrev later_calls : List (Env × Call)
later_calls =
    (env_at 6, refresh_or_logout none (session_with "h2"))
    ∷ (env_at 7, resolve none "h1")
    ∷ (env_at 8, admin_revoke "s1")
    ∷ []

revoked_never_rotates_example :
    (rotate local (env_at 9) revoked (session_with "h2") pinned true).1 ≢ none
revoked_never_rotates_example =
    revoked_never_rotates local (env_at 9) revoked revoked (session_with "h2") pinned true (stamp 5)
      (text "admin_revoke") is_revoked here

rotate-Advances_example : Advances (env_at 2) stored rotated_once (session_with "h2") pinned true
rotate-Advances_example =
    rotate-Advances local (env_at 2) stored (session_with "h2") pinned true first_wins

resolves :
    (get_session_by_refresh_token_hash local (env_at 2) stored none "h1").2 ≡ ok (session_with "h1")
unfolding get_session_by_refresh_token_hash resolve_pointer judge_session judge_found
    get_session_item found_session session_from_item check_version session_item refresh_pointer
    check_hash
resolves = refl

resolve_sound_example :
    (b : Behind local stored "h1" (session_with "h1")) × ((get_session_by_refresh_token_hash local
        (env_at 2)
        stored
        none
        "h1").0
      ≡ stored)
    × (((session_with "h1").revoked_at ≢ none) ⊎ (get_s b.item "refreshHash" ≡ "h1"))
resolve_sound_example = resolve_sound local (env_at 2) stored none "h1" (session_with "h1") resolves

behind_replayed : Behind local rotated_once "h1" (session_with "h2")
unfolding rotate rotation_done rotate_writes rotation_cond rotated refresh_pointer session_item
    transact_write transact_from is_transaction_conflict session_from_item check_version refresh_pk
    session_pk
behind_replayed = record {
  pointer = refresh_pointer (env_at 1) (session_with "h1") 1;
  item = rotated (env_at 2) (session_with "h2") (session_item (env_at 1) (session_with "h1") 1);
  pointed = refl;
  named = refl;
  decoded = refl;
}

abbrev replayed_item : Item
replayed_item = behind_replayed.item

replay-Answers : Answers local rotated_once (env_at 4) "s1" 1
unfolding rotate rotation_done rotate_writes rotation_cond rotated refresh_pointer session_item
    transact_write transact_from is_transaction_conflict revoke_family_write session_pk refresh_pk
replay-Answers = record { reads = local_reads rotated_once; writes = λ e. cc }

version_known : check_version (refresh_pointer (env_at 1) (session_with "h1") 1) ≡ none
unfolding check_version refresh_pointer
version_known = refl

stale : get_s replayed_item "refreshHash" ≢ "h1"
unfolding rotated session_item behind_replayed
stale = ground (arith, eq_iff "h2" "h1")

live : replayed_item "revokedAt" ≡ none
unfolding rotated session_item behind_replayed
live = refl

keyed : is_some (replayed_item "PK") ≡ true
unfolding rotated session_item behind_replayed
keyed = refl

not_empty : ◌≢◌ {A = String} "h1" ""
not_empty = ground (arith, eq_iff "h1" "")

named :
    (session_with "h2").id ≡ get_s (refresh_pointer (env_at 1) (session_with "h1") 1) "sessionId"
unfolding refresh_pointer
named = refl

replay_kills_example :
    ((get_session_by_refresh_token_hash local (env_at 4) rotated_once none "h1").2
      ≡ err session_not_found)
    × IsKilled (env_at 4).now (get_n behind_replayed.pointer "gen") (
        (get_session_by_refresh_token_hash local (env_at 4) rotated_once none "h1").0
          (session_key (session_with "h2").id))
unfolding behind_replayed
replay_kills_example =
    replay_kills local (env_at 4) rotated_once none "h1" (session_with "h2") behind_replayed
      not_empty version_known named keyed live refl stale replay-Answers

creates_it : (create_session local (env_at 1) empty (session_with "h1")).1 ≡ ok (session_with "h1")
unfolding create_session created check_session check_tenant check_id check_hash id_pattern
    create_writes transact_write transact_from is_transaction_conflict session_pk refresh_pk
creates_it = refl

create_resolve_example :
    get_session_by_refresh_token_hash local (env_at 2) created_once none "h1"
    ≡ (created_once, none, ok (session_with "h1"))
create_resolve_example =
    create_resolve local (env_at 1) (env_at 2) empty none (session_with "h1") (session_with "h1")
      creates_it refl (local_reads created_once)

transact_write_law_example :
    TxLaw stored
      (transact_write local
        (λ n. true)
        stored
        (rotate_writes (env_at 2) (session_with "h2") pinned true)).0
      (rotate_writes (env_at 2) (session_with "h2") pinned true)
      (transact_write local
        (λ n. true)
        stored
        (rotate_writes (env_at 2) (session_with "h2") pinned true)).1
transact_write_law_example =
    transact_write_law local (λ n. true) (rotate_writes (env_at 2) (session_with "h2") pinned true)
      (rotate_writes-Distinct (env_at 2) (session_with "h2") pinned true) stored
