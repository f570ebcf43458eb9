-- ===== src/Session/History/ItemSteps.antt =====
-- The steps of internal/store/dynamodb/sessions.go seen from one session's item.
use mathlib.Core.Path.{subst}
use awesome_lambda_auth.Session.SortKeys.{refresh-ne, index-ne, sort-ne}
use awesome_lambda_auth.Common.{
  ℕ, String, ◌≡◌, ◌≢◌, refl, sym, ap, Bool, true, Option, none, some, List, arith, str-cases, inl,
  inr, All,
}
use awesome_lambda_auth.Database.{
  Value, Item, Key, Write, Contents, attributes, apply_effect, Holds, AllApplied,
}
use awesome_lambda_auth.Keys.Injective.{session_pk_injective}
use awesome_lambda_auth.Session.{
  Session, RotationPrecondition, session_key, rotation_cond, rotated, create_writes, rotate_writes,
  revoke_write, revoke_family_write, revoke_by_id_write,
}
use awesome_lambda_auth.Env.{Env}
use awesome_lambda_auth.Session.History.{
  Issued, creates, rotates, logs_out, kills_family, kills_by_id, Step, idles, commits, reaps,
}

-- What a step does to the session's item.
pub data ItemStep : Option Item → Option Item → Type 0 where
  kept : (o : Option Item) → ItemStep o o
  gone : (o : Option Item) → ItemStep o none
  rotation :
      (env : Env) (sess : Session) (pre : RotationPrecondition) (have_pre : Bool) (i : Item)
      → rotation_cond pre have_pre i ≡ true
      → ItemStep (some i) (some (rotated env sess i))
  written :
      (i j : Item)
      → j "gen" ≡ i "gen"
      → ((v : Value) → i "revokedAt" ≡ some v → j "revokedAt" ≡ some v)
      → ((v r : Value)
          → i "revokedAt" ≡ some v
          → i "revokedReason" ≡ some r
          → j "revokedReason" ≡ some r)
      → ItemStep (some i) (some j)

session_key-ne : (id other : String) → other ≢ id → session_key id ≢ session_key other
session_key-ne id other h e = h (sym (session_pk_injective id other (ap (λ (k : Key). k.0) e)))

session-ne : (id : String) (k : Key) → k.1 ≢ "SESSION" → session_key id ≢ k
session-ne id k h = sort-ne (session_key id) k (λ e. h (sym e))

revoke-ItemStep :
    (other : String) (at : ℕ) (before after : Option Item)
    → (revoke_write other at).cond (attributes before) ≡ true
    → after ≡ apply_effect (revoke_write other at).effect before
    → ItemStep before after
unfolding revoke_write
revoke-ItemStep other at none after held applied = absurd (cc held)
revoke-ItemStep other at (some i) after held applied =
    rw applied (written i _ refl (λ v h. ground arith) (λ v r h k. ground arith))

family-ItemStep :
    (now : ℕ) (other reason : String) (gen : ℕ) (before after : Option Item)
    → (revoke_family_write now other reason gen).cond (attributes before) ≡ true
    → after ≡ apply_effect (revoke_family_write now other reason gen).effect before
    → ItemStep before after
unfolding revoke_family_write
family-ItemStep now other reason gen none after held applied = absurd (cc held)
family-ItemStep now other reason gen (some i) after held applied =
    rw applied (written i _ refl (λ v h. ground arith) (λ v r h k. ground arith))

by_id-ItemStep :
    (now : ℕ) (other : String) (before after : Option Item)
    → (revoke_by_id_write now other).cond (attributes before) ≡ true
    → after ≡ apply_effect (revoke_by_id_write now other).effect before
    → ItemStep before after
unfolding revoke_by_id_write
by_id-ItemStep now other none after held applied = absurd (cc held)
by_id-ItemStep now other (some i) after held applied =
    rw applied (written i _ (ground arith) (λ v h. ground arith) (λ v r h k. ground arith))

rotation-ItemStep :
    (env : Env) (sess : Session) (pre : RotationPrecondition) (have_pre : Bool)
    (before after : Option Item)
    → rotation_cond pre have_pre (attributes before) ≡ true
    → after ≡ some (rotated env sess (attributes before))
    → ItemStep before after
unfolding rotation_cond
rotation-ItemStep env sess pre have_pre none after held applied = absurd (cc held)
rotation-ItemStep env sess pre have_pre (some i) after held applied =
    rw applied (rotation env sess pre have_pre i held)

-- What happened to the other session, or to this one if it is the same.
at_key-ItemStep :
    (id other : String) (before after : Contents)
    → (session_key id ≢ session_key other → after (session_key id) ≡ before (session_key id))
    → ItemStep (before (session_key other)) (after (session_key other))
    → ItemStep (before (session_key id)) (after (session_key id))
at_key-ItemStep id other before after frame step = elim (str-cases other id) [
  | inl (e, _) ↦ subst (λ o. ItemStep (before (session_key o)) (after (session_key o))) e step
  | inr (ne, _) ↦ rw (frame (session_key-ne id other ne)) (kept _)
]

Issued-ItemStep :
    (id : String) (before after : Contents) (ws : List Write)
    → Issued id ws
    → All (Holds before) ws
    → AllApplied before after ws
    → ItemStep (before (session_key id)) (after (session_key id))
unfolding create_writes rotate_writes revoke_write revoke_family_write revoke_by_id_write
Issued-ItemStep id before after _ (creates env sess ne) held (applied, frame) =
    rw
      (frame (session_key id) (
        session_key-ne id sess.id ne,
        (session-ne id _ (λ e. index-ne (sym e)), (session-ne id _ refresh-ne, tt)),
      ))
      (kept _)
Issued-ItemStep id before after _ (rotates env sess pre have_pre) (_, (held, _))
      ((_, (new, _)), frame) =
    at_key-ItemStep id sess.id before after
      (λ ne. frame (session_key id) (session-ne id _ refresh-ne, (ne, tt)))
      (rotation-ItemStep env sess pre have_pre _ _ held new)
Issued-ItemStep id before after _ (logs_out other at) (held, _) ((new, _), frame) =
    at_key-ItemStep id other before after (λ ne. frame (session_key id) (ne, tt))
      (revoke-ItemStep other at _ _ held new)
Issued-ItemStep id before after _ (kills_family now other reason gen) (held, _) ((new, _), frame) =
    at_key-ItemStep id other before after (λ ne. frame (session_key id) (ne, tt))
      (family-ItemStep now other reason gen _ _ held new)
Issued-ItemStep id before after _ (kills_by_id now other) (held, _) ((new, _), frame) =
    at_key-ItemStep id other before after (λ ne. frame (session_key id) (ne, tt))
      (by_id-ItemStep now other _ _ held new)

pub Step-ItemStep :
    {id : String} {before after : Contents}
    → Step id before after
    → ItemStep (before (session_key id)) (after (session_key id))
Step-ItemStep {id} (idles same) = rw (same (session_key id)) (kept _)
Step-ItemStep {id} {before} {after} (commits ws issued held applied) =
    Issued-ItemStep id before after ws issued held applied
Step-ItemStep {id} {before} {after} (reaps lost) = elim (lost (session_key id)) [
  | inl same ↦ rw same (kept _)
  | inr none_left ↦ rw none_left (gone _)
]
