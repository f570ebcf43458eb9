-- ===== src/Session/Advance.antt =====
-- What a refresh that succeeds has done, attribute by attribute (`rotate`,
-- internal/store/dynamodb/sessions.go).
use awesome_lambda_auth.Common.{
  ◌+◌, String, Bool, true, false, Option, none, some, ◌≡◌, ◌≢◌, ◌⊎◌, inl, inr, refl, ap, ◌∙◌, ℕ,
  str-ne, arith, eq_iff, Bool-cases,
}
use awesome_lambda_auth.Database.{
  Contents, Dynamo, Item, Key, Value, flag, num, object, stamp, text,
}
use awesome_lambda_auth.Database.Expression.{add_to, eq_at, get_n, number_of, unix, value_eq}
use awesome_lambda_auth.Session.Winner.{live}
use awesome_lambda_auth.Env.{Env}
use awesome_lambda_auth.Session.{
  RotationPrecondition, Session, refresh_key, refresh_pointer, rotated, rotation_cond, session_key,
}
use awesome_lambda_auth.Session.Rotation.{rotate-Rotates}
use awesome_lambda_auth.Session.Store.{rotate}

-- What the precondition pins of the session item.
pub record Pinned (pre : RotationPrecondition) (old : Item) : Type 0 where
  pub hash : old "refreshHash" ≡ some (text pre.old_hash)
  pub gen : (pre.has_gen ≡ false) ⊎ (old "gen" ≡ some (num pre.gen))

-- The session item before and after.
pub record AdvancesItem (env : Env) (sess : Session) (old item : Item) : Type 0 where
  pub hash : item "refreshHash" ≡ some (text sess.refresh_token_hash)
  pub gen : item "gen" ≡ some (num (get_n old "gen" + 1))
  pub expires : item "expiresAt" ≡ some (stamp sess.expires_at)
  pub touched : item "updatedAt" ≡ some (stamp env.now)
  pub reaped : item "ttl" ≡ some (num (unix (sess.expires_at + env.ttl_grace)))
  pub kept :
      (a : String)
      → a ≢ "refreshHash"
      → a ≢ "gen"
      → a ≢ "expiresAt"
      → a ≢ "updatedAt"
      → a ≢ "ttl"
      → item a ≡ old a

-- The pointer of the new hash.
pub record PointsAt (sess : Session) (pre : RotationPrecondition) (p : Item) : Type 0 where
  pub session : p "sessionId" ≡ some (text sess.id)
  pub user : p "userId" ≡ some (text sess.user_id)
  pub tenant : p "tenantId" ≡ some (text sess.tenant_id)
  pub gen : p "gen" ≡ some (num (pre.gen + 1))

-- What a refresh that succeeds has found and done.
pub record Advances (env : Env) (before after : Contents) (sess : Session)
    (pre : RotationPrecondition) (have_pre : Bool) : Type 0 where
  pub old : Item
  pub item : Item
  pub pointer : Item
  pub found : before (session_key sess.id) ≡ some old
  pub alive : old "revokedAt" ≡ none
  pub pinned : (have_pre ≡ false) ⊎ Pinned pre old
  pub there : after (session_key sess.id) ≡ some item
  pub advanced : AdvancesItem env sess old item
  pub pointed : after (refresh_key sess.refresh_token_hash) ≡ some pointer
  pub points : PointsAt sess pre pointer
  pub others :
      (k : Key)
      → k ≢ session_key sess.id
      → k ≢ refresh_key sess.refresh_token_hash
      → after k ≡ before k

value_eq-text : (w : Value) (v : String) → value_eq w (text v) ≡ true → w ≡ text v
value_eq-text (text a) v h = ap text ((eq_iff a v).0 h)
value_eq-text (num a) v h = absurd (cc h)
value_eq-text (stamp a) v h = absurd (cc h)
value_eq-text (flag true) v h = absurd (cc h)
value_eq-text (flag false) v h = absurd (cc h)
value_eq-text (object fields) v h = absurd (cc h)

value_eq-num : (w : Value) (n : ℕ) → value_eq w (num n) ≡ true → w ≡ num n
value_eq-num (num a) n h = ap num ground arith
value_eq-num (text a) n h = absurd (cc h)
value_eq-num (stamp a) n h = absurd (cc h)
value_eq-num (flag true) n h = absurd (cc h)
value_eq-num (flag false) n h = absurd (cc h)
value_eq-num (object fields) n h = absurd (cc h)

eq_at-some :
    (o : Option Value) (v : Value)
    → eq_at o v ≡ true
    → (w : Value) × (o ≡ some w) × (value_eq w v ≡ true)
eq_at-some none v h = absurd (cc h)
eq_at-some (some w) v h = (w, refl, h)

cond-Pinned :
    (pre : RotationPrecondition) (have_pre : Bool) (old : Item)
    → rotation_cond pre have_pre old ≡ true
    → (have_pre ≡ false) ⊎ Pinned pre old
unfolding rotation_cond
cond-Pinned pre false old h = inl refl
cond-Pinned pre true old h =
    let same : eq_at (old "refreshHash") (text pre.old_hash) ≡ true = ground arith in
    let (w, here, equal) = eq_at-some (old "refreshHash") (text pre.old_hash) same in
    inr (record {
      hash = here ∙ ap some (value_eq-text w pre.old_hash equal);
      gen = elim (Bool-cases pre.has_gen) [
        | inr off ↦ inl off
        | inl on ↦
            let counted : eq_at (old "gen") (num pre.gen) ≡ true = ground arith in
            let (g, there, same_gen) = eq_at-some (old "gen") (num pre.gen) counted in
            inr (there ∙ ap some (value_eq-num g pre.gen same_gen))
      ];
    })

-- `ADD` counts on from what the attribute reads as.
add_to-num : (o : Option Value) → add_to o 1 ≡ num (number_of o + 1)
add_to-num none = refl
add_to-num (some (num a)) = refl
add_to-num (some (text a)) = refl
add_to-num (some (stamp a)) = refl
add_to-num (some (flag a)) = refl
add_to-num (some (object a)) = refl

rotated-AdvancesItem :
    (env : Env) (sess : Session) (old : Item) → AdvancesItem env sess old (rotated env sess old)
unfolding rotated
rotated-AdvancesItem env sess old = record {
  hash = refl;
  gen = ap some (add_to-num (old "gen"));
  expires = refl;
  touched = refl;
  reaped = refl;
  kept =
      λ a h g e u t. rw (str-ne a _ h, str-ne a _ g, str-ne a _ e, str-ne a _ u, str-ne a _ t) refl;
}

refresh_pointer-PointsAt :
    (env : Env) (sess : Session) (pre : RotationPrecondition)
    → PointsAt sess pre (refresh_pointer env sess (pre.gen + 1))
unfolding refresh_pointer
refresh_pointer-PointsAt env sess pre = record {
  session = refl;
  user = refl;
  tenant = refl;
  gen = refl;
}

module _ (db : Dynamo) where
  open db use {Table, contents}

  -- A refresh that succeeds found the session live and with the hash and the generation that its
  -- precondition pins; it set the new hash, the next generation, the expiry, the removal time and
  -- the update time, and no other attribute, pointed the new hash at the session with the
  -- generation behind the pinned one, and changed no other item.
  pub rotate-Advances :
      (env : Env) (t : Table) (sess : Session) (pre : RotationPrecondition) (have_pre : Bool)
      → (rotate db env t sess pre have_pre).1 ≡ none
      → Advances env (contents t) (contents (rotate db env t sess pre have_pre).0) sess pre have_pre
  rotate-Advances env t sess pre have_pre h =
      let r = rotate-Rotates db env t sess pre have_pre h in
      record {
        old = r.old;
        item = rotated env sess r.old;
        pointer = refresh_pointer env sess (pre.gen + 1);
        found = r.found;
        alive = live pre have_pre r.old r.allowed;
        pinned = cond-Pinned pre have_pre r.old r.allowed;
        there = r.advanced;
        advanced = rotated-AdvancesItem env sess r.old;
        pointed = r.pointed;
        points = refresh_pointer-PointsAt env sess pre;
        others = r.others;
      }
