-- ===== src/Tokens/Spent.antt =====
-- A hash that the profile no longer holds (internal/store/dynamodb/tokens.go): which writes leave it
-- so.
use awesome_lambda_auth.Database.{stamp, text, apply_effect, attributes, Item, Value, Write}
use awesome_lambda_auth.Tokens.{
  family_sms, family_echg, family_verify, assign_extras, family_magic, TokenExtra,
  extra_clear_attrs, family_reset, issued, remove_all, clear_write, consume_write, exp_attr,
  hash_attr, issue_write, password_write, token_pointer, Family, pointer_write,
}
use awesome_lambda_auth.Common.{
  inr, [], ap, inl, refl, Bool-cases, str-ne, ◌∷◌, false, true, ◌||◌, ◌≢◌, All, Bool, List, Option,
  str_eq, ◌≡◌, String, ℕ,
}
use awesome_lambda_auth.Database.Expression.{assign, equals, remove}
use awesome_lambda_auth.Tokens.Features.{email_item, verified_write, change_writes}

-- The names of the hashes, apart from every other attribute that is written.
abbrev pub is_hash_attr : String → Bool
is_hash_attr a =
    str_eq a "resetHash"
    || str_eq a "magicHash"
    || str_eq a "verifyHash"
    || str_eq a "echgHash"
    || str_eq a "smsHash"

hash_attr-is : (f : Family) → is_hash_attr (hash_attr f) ≡ true
hash_attr-is family_reset = refl
hash_attr-is family_magic = refl
hash_attr-is family_verify = refl
hash_attr-is family_echg = refl
hash_attr-is family_sms = refl

exp_attr-not : (f : Family) → is_hash_attr (exp_attr f) ≡ false
exp_attr-not family_reset = refl
exp_attr-not family_magic = refl
exp_attr-not family_verify = refl
exp_attr-not family_echg = refl
exp_attr-not family_sms = refl

pub other-ne : (f : Family) (a : String) → is_hash_attr a ≡ false → str_eq (hash_attr f) a ≡ false
other-ne f a h = str-ne (hash_attr f) a (λ e. cc (hash_attr-is f, h, ap is_hash_attr e))

pub exp_attr-ne : (f g : Family) → str_eq (hash_attr f) (exp_attr g) ≡ false
exp_attr-ne f g = other-ne f (exp_attr g) (exp_attr-not g)

module _ (f : Family) (hash : String) where
  -- The item does not hold the hash.
  abbrev pub Lost : Item → Type 0
  Lost i = equals (hash_attr f) (text hash) i ≡ false

  abbrev pub Spent : Option Item → Type 0
  Spent o = Lost (attributes o)

  -- The write cannot bring the hash back.
  abbrev pub Safe : Write → Type 0
  Safe w = (o : Option Item) → Spent o → Spent (apply_effect w.effect o)

  assign-Lost :
      (a : String) (v : Value) (i : Item) → is_hash_attr a ≡ false → Lost i → Lost (assign a v i)
  assign-Lost a v i other h = rw (other-ne f a other) h

  assign_text-Lost : (a h' : String) (i : Item) → h' ≢ hash → Lost i → Lost (assign a (text h') i)
  assign_text-Lost a h' i ne h = elim (Bool-cases (str_eq (hash_attr f) a)) [
    | inl same ↦ rw same (str-ne h' hash ne)
    | inr other ↦ rw other h
  ]

  remove-Lost : (a : String) (i : Item) → Lost i → Lost (remove a i)
  remove-Lost a i h = elim (Bool-cases (str_eq (hash_attr f) a)) [
    | inl same ↦ rw same refl
    | inr other ↦ rw other h
  ]

  remove_all-Lost : (as_ : List String) (i : Item) → Lost i → Lost (remove_all as_ i)
  remove_all-Lost [] i h = h
  remove_all-Lost (a ∷ as_) i h = remove_all-Lost as_ (remove a i) (remove-Lost a i h)

  abbrev pub OtherExtras : List TokenExtra → Type 0
  OtherExtras extras = All (λ (e : TokenExtra). is_hash_attr e.attr ≡ false) extras

  extras-Lost :
      (es : List TokenExtra) (i : Item) → OtherExtras es → Lost i → Lost (assign_extras es i)
  extras-Lost [] i others h = h
  extras-Lost (e ∷ es) i (o, others) h =
      extras-Lost es (assign e.attr (text e.value) i) others (assign-Lost e.attr _ i o h)

  pub issue_write-Safe :
      (g : Family) (now : ℕ) (user tenant h' : String) (expiry : ℕ) (extras : List TokenExtra)
      → h' ≢ hash
      → OtherExtras extras
      → Safe (issue_write g now user tenant h' expiry extras)
  unfolding issue_write issued
  issue_write-Safe g now user tenant h' expiry extras ne others o h =
      let set_hash = assign (hash_attr g) (text h') (attributes o) in
      extras-Lost extras
        (assign "updatedAt" (stamp now) (assign (exp_attr g) (stamp expiry) set_hash)) others
        (rw (other-ne f "updatedAt" refl, exp_attr-ne f g)
          (assign_text-Lost (hash_attr g) h' (attributes o) ne h))

  pub consume_write-Safe :
      (g : Family) (now : ℕ) (user tenant h' : String) → Safe (consume_write g now user tenant h')
  unfolding consume_write
  consume_write-Safe g now user tenant h' o h =
      rw (exp_attr-ne f g) (remove-Lost (hash_attr g) (attributes o) h)

  pub clear_write-Safe : (g : Family) (user tenant : String) → Safe (clear_write g user tenant)
  unfolding clear_write
  clear_write-Safe g user tenant o h =
      remove_all-Lost (extra_clear_attrs g)
        (remove (exp_attr g) (remove (hash_attr g) (attributes o)))
        (rw (exp_attr-ne f g) (remove-Lost (hash_attr g) (attributes o) h))

  pub password_write-Safe :
      (now : ℕ) (user tenant password : String) → Safe (password_write now user tenant password)
  unfolding password_write
  password_write-Safe now user tenant password o h =
      rw (other-ne f "migration" refl, other-ne f "updatedAt" refl, other-ne f "passwordHash" refl)
        h

  pub verified_write-Safe :
      (now : ℕ) (user tenant : String) (v : Bool) → Safe (verified_write now user tenant v)
  unfolding verified_write
  verified_write-Safe now user tenant v o h =
      rw (other-ne f "updatedAt" refl, other-ne f "isEmailVerified" refl) h

pub pointer_write-Safe :
    (f : Family) (hash : String) (g : Family) (user tenant h' : String) (expiry : ℕ)
    → Safe f hash (pointer_write g user tenant h' expiry)
unfolding pointer_write token_pointer
pointer_write-Safe family_reset hash g user tenant h' expiry o h = refl
pointer_write-Safe family_magic hash g user tenant h' expiry o h = refl
pointer_write-Safe family_verify hash g user tenant h' expiry o h = refl
pointer_write-Safe family_echg hash g user tenant h' expiry o h = refl
pointer_write-Safe family_sms hash g user tenant h' expiry o h = refl

email_item-Lost :
    (f : Family) (hash user tenant email : String) → Lost f hash (email_item user tenant email)
email_item-Lost family_reset hash user tenant email = refl
email_item-Lost family_magic hash user tenant email = refl
email_item-Lost family_verify hash user tenant email = refl
email_item-Lost family_echg hash user tenant email = refl
email_item-Lost family_sms hash user tenant email = refl

pub change_writes-Safe :
    (f : Family) (hash : String) (now : ℕ) (user tenant current pending : String)
    → All (Safe f hash) (change_writes now user tenant current pending)
unfolding change_writes
change_writes-Safe f hash now user tenant current pending = (
  λ o h. email_item-Lost f hash user tenant pending,
  (
    λ o h. refl,
    (
      λ o h.
          rw (other-ne f "pendingEmail" refl, other-ne f "updatedAt" refl, other-ne f "email" refl)
            h,
      tt,
    ),
  ),
)
