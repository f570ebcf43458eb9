-- ===== src/Tokens/Issue.antt =====
-- Issuing a token and resolving it, and setting the password (internal/store/dynamodb/tokens.go).
use package.text.Mathlib.TextPositions.{eq_refl}
use awesome_lambda_auth.Database.Expression.{
  attribute_exists, remove, assign, exceeds, equals, get_s,
}
use awesome_lambda_auth.Common.{
  Option, ◌≢◌, sym, ◌∙◌, arith, false, none, refl, some, true, ◌<◌, ◌≡◌, All, String, str_eq, ℕ,
  List, [], ◌∷◌,
}
use awesome_lambda_auth.Tokens.{
  family_sms, family_echg, family_verify, profile_key, family_magic, assign_extras, family_reset,
  exp_attr, hash_attr, consume_write, Family, TokenExtra, consume_cond, issued, token_pointer,
}
use awesome_lambda_auth.Tokens.Spent.{exp_attr-ne, other-ne}
use awesome_lambda_auth.Users.{user_from_item, User}
use awesome_lambda_auth.Database.{
  WriteLaw, Outcome, stamp, text, Contents, Key, attributes, Item, TxOutcome, written, refused,
  failed, committed, cancelled, tx_failed,
}
use awesome_lambda_auth.Keys.{check_hash}
use awesome_lambda_auth.Env.{Env}
use awesome_lambda_auth.Items.{check_version}
use awesome_lambda_auth.Tokens.Store.{check_issue, consumed, issue_done}
use awesome_lambda_auth.Errors.{ok}

-- What consuming a token has done: the profile held the hash, unexpired, and has lost the hash and
-- the expiry and nothing else.
pub record Consumes (f : Family) (now : ℕ) (hash : String) (k : Key) (u : User)
    (before after : Contents) : Type 0 where
  pub item : Item
  pub found : before k ≡ some item
  pub matches : equals (hash_attr f) (text hash) item ≡ true
  pub unexpired : exceeds (exp_attr f) (stamp now) item ≡ true
  pub decoded : user_from_item item ≡ ok u
  pub spent : after k ≡ some (remove (exp_attr f) (remove (hash_attr f) item))
  pub others : (j : Key) → j ≢ k → after j ≡ before j

missing-unheld :
    (f : Family) (now : ℕ) (hash : String) → consume_cond f now hash (attributes none) ≡ false
unfolding consume_cond
missing-unheld f now hash = refl

pub consumed-Consumes :
    (f : Family) (now : ℕ) (user tenant hash : String) (u : User) (before after : Contents)
    (out : Outcome)
    → consumed f out ≡ ok u
    → WriteLaw before after (consume_write f now user tenant hash) out
    → Consumes f now hash (profile_key tenant user) u before after
unfolding consumed consume_write consume_cond
consumed-Consumes f now user tenant hash u before after (refused pre) won law = absurd (cc won)
consumed-Consumes f now user tenant hash u before after failed won law = absurd (cc won)
consumed-Consumes f now user tenant hash u before after (written none) won law = absurd (cc won)
consumed-Consumes f now user tenant hash u before after (written (some i)) won
      (held, same, ((new, _), frame)) =
    let found = sym same in
    let holds = rw found at held in
    record {
      item = i;
      found = found;
      matches = ground arith;
      unexpired = ground arith;
      decoded = won;
      spent = rw found at new;
      others = λ j ne. frame j (ne, tt);
    }

abbrev pub PendingOnly : List TokenExtra → Type 0
PendingOnly extras = All (λ (e : TokenExtra). e.attr ≡ "pendingEmail") extras

extras-other :
    (es : List TokenExtra) (i : Item) (a : String)
    → PendingOnly es
    → str_eq a "pendingEmail" ≡ false
    → assign_extras es i a ≡ i a
extras-other [] i a only ne = refl
extras-other (e ∷ es) i a (o, only) ne =
    extras-other es (assign e.attr (text e.value) i) a only ne ∙ rw (o, ne) refl

exp_attr-pending : (f : Family) → str_eq (exp_attr f) "pendingEmail" ≡ false
exp_attr-pending family_reset = refl
exp_attr-pending family_magic = refl
exp_attr-pending family_verify = refl
exp_attr-pending family_echg = refl
exp_attr-pending family_sms = refl

exp_attr-updated : (f : Family) → str_eq (exp_attr f) "updatedAt" ≡ false
exp_attr-updated family_reset = refl
exp_attr-updated family_magic = refl
exp_attr-updated family_verify = refl
exp_attr-updated family_echg = refl
exp_attr-updated family_sms = refl

issued-hash :
    (f : Family) (now : ℕ) (hash : String) (expiry : ℕ) (es : List TokenExtra) (i : Item)
    → PendingOnly es
    → issued f now hash expiry es i (hash_attr f) ≡ some (text hash)
unfolding issued
issued-hash f now hash expiry es i only =
    extras-other es _ (hash_attr f) only (other-ne f "pendingEmail" refl)
    ∙ rw (other-ne f "updatedAt" refl, exp_attr-ne f f, eq_refl (hash_attr f)) refl

issued-exp :
    (f : Family) (now : ℕ) (hash : String) (expiry : ℕ) (es : List TokenExtra) (i : Item)
    → PendingOnly es
    → issued f now hash expiry es i (exp_attr f) ≡ some (stamp expiry)
unfolding issued
issued-exp f now hash expiry es i only =
    extras-other es _ (exp_attr f) only (exp_attr-pending f)
    ∙ rw (exp_attr-updated f, eq_refl (exp_attr f)) refl

-- A token that was just issued is accepted before its expiry.
pub issued-accepted :
    (f : Family) (now later : ℕ) (hash : String) (expiry : ℕ) (es : List TokenExtra) (i : Item)
    → PendingOnly es
    → later < expiry
    → consume_cond f later hash (issued f now hash expiry es i) ≡ true
unfolding consume_cond
issued-accepted f now later hash expiry es i only early =
    rw
      (
        issued-hash f now hash expiry es i only,
        issued-exp f now hash expiry es i only,
        eq_refl hash,
      )
      (ground arith)

pub token_pointer-version :
    (f : Family) (user tenant hash : String) (expiry : ℕ)
    → check_version (token_pointer f user tenant hash expiry) ≡ none
unfolding token_pointer check_version
token_pointer-version f user tenant hash expiry = ground arith

pub token_pointer-names :
    (f : Family) (user tenant hash : String) (expiry : ℕ)
    → (get_s (token_pointer f user tenant hash expiry) "userId" ≡ user)
      × (get_s (token_pointer f user tenant hash expiry) "tenantId" ≡ tenant)
unfolding token_pointer
token_pointer-names f user tenant hash expiry = (refl, refl)

pub issue_done-committed : (out : TxOutcome) → issue_done out ≡ none → out ≡ committed
unfolding issue_done
issue_done-committed committed h = refl
issue_done-committed tx_failed h = cc
issue_done-committed (cancelled rs) h = ground arith

pub check_issue-hash :
    (env : Env) (f : Family) (user tenant hash : String) (es : List TokenExtra)
    → check_issue env f user tenant hash es ≡ none
    → check_hash hash ≡ none
unfolding check_issue
check_issue-hash env f user tenant hash es h = ground arith

-- A condition that asks for the partition key holds of no missing item.
pub exists-found :
    (old : Option Item)
    → attribute_exists "PK" (attributes old) ≡ true
    → (i : Item) × (old ≡ some i)
exists-found none h = absurd (cc h)
exists-found (some i) h = (i, refl)

pub some-injective : {i j : Item} → some i ≡ some j → i ≡ j
some-injective e = cc
