-- ===== src/Tokens.antt =====
-- The single-use tokens of a user: internal/store/dynamodb/tokens.go, the families of
-- internal/store/dynamodb/keys.go, and what is written.
pub mod Store
pub mod Features
pub mod Spent
pub mod Kept
pub mod Change
pub mod Once
pub mod Issue
pub mod Resolve
use Prim.Native.String.{◌++◌}
use awesome_lambda_auth.Database.Expression.{
  unix, exceeds, schema_version, assign, attribute_exists, attribute_not_exists, equals, item_of,
  remove,
}
use awesome_lambda_auth.Database.{put, num, stamp, text, update, Item, Key, Write}
use awesome_lambda_auth.Common.{◌&&◌, ◌||◌, [], str_eq, not, ◌∷◌, Bool, List, String, ℕ}
use awesome_lambda_auth.Errors.{invalid_token, invalid_code, StoreError}
use awesome_lambda_auth.Keys.{user_pk}

-- `tokenFamily`: a family is one of five values, and its fields are functions.
pub data Family : Type 0 where
  family_reset family_magic family_verify family_echg family_sms : Family

abbrev pub name : Family → String
name family_reset = "reset"
name family_magic = "magic"
name family_verify = "verify"
name family_echg = "echg"
name family_sms = "sms"

-- The prefix of the pointer's key; a family with none has no pointer.
abbrev pub pk_prefix : Family → String
pk_prefix family_reset = "RESET#"
pk_prefix family_magic = "MAGIC#"
pk_prefix family_verify = "VERIFY#"
pk_prefix family_echg = "ECHG#"
pk_prefix family_sms = ""

abbrev pub hash_attr : Family → String
hash_attr family_reset = "resetHash"
hash_attr family_magic = "magicHash"
hash_attr family_verify = "verifyHash"
hash_attr family_echg = "echgHash"
hash_attr family_sms = "smsHash"

abbrev pub exp_attr : Family → String
exp_attr family_reset = "resetExp"
exp_attr family_magic = "magicExp"
exp_attr family_verify = "verifyExp"
exp_attr family_echg = "echgExp"
exp_attr family_sms = "smsExp"

abbrev pub extra_issue_attrs : Family → List String
extra_issue_attrs family_echg = "pendingEmail" ∷ []
extra_issue_attrs _ = []

abbrev pub extra_clear_attrs : Family → List String
extra_clear_attrs family_echg = "pendingEmail" ∷ []
extra_clear_attrs _ = []

abbrev pub invalid_err : Family → StoreError
invalid_err family_sms = invalid_code
invalid_err _ = invalid_token

abbrev pub has_pointer : Family → Bool
has_pointer f = not (str_eq (pk_prefix f) "")

abbrev pub profile_key : String → String → Key
profile_key tenant user = (user_pk tenant user, "PROFILE")

abbrev pub token_key : Family → String → Key
token_key f hash = (pk_prefix f ++ hash, "TOKEN")

-- An attribute that is written with the token, and its value.
pub record TokenExtra : Type 0 where
  pub attr : String
  pub value : String

abbrev pub assign_extras : List TokenExtra → Item → Item
assign_extras [] i = i
assign_extras (e ∷ es) i = assign_extras es (assign e.attr (text e.value) i)

abbrev pub remove_all : List String → Item → Item
remove_all [] i = i
remove_all (a ∷ as_) i = remove_all as_ (remove a i)

-- What issuing sets on the profile.
unfoldable pub issued : Family → ℕ → String → ℕ → List TokenExtra → Item → Item
issued f now hash expiry extras i = assign_extras extras (
    assign "updatedAt" (stamp now)
      (assign (exp_attr f) (stamp expiry) (assign (hash_attr f) (text hash) i)))

unfoldable pub token_pointer : Family → String → String → String → ℕ → Item
token_pointer f user tenant hash expiry = item_of (
    ("PK", text (token_key f hash).0)
    ∷ ("SK", text "TOKEN")
    ∷ ("_t", text "token")
    ∷ ("_v", num schema_version)
    ∷ ("family", text (name f))
    ∷ ("userId", text user)
    ∷ ("tenantId", text tenant)
    ∷ ("ttl", num (unix expiry))
    ∷ [])

unfoldable pub issue_write : Family → ℕ → String → String → String → ℕ → List TokenExtra → Write
unfolding issued
issue_write f now user tenant hash expiry extras = record {
  at = profile_key tenant user;
  cond = attribute_exists "PK";
  effect = update (issued f now hash expiry extras);
}

unfoldable pub pointer_write : Family → String → String → String → ℕ → Write
unfolding token_pointer
pointer_write f user tenant hash expiry = record {
  at = token_key f hash;
  cond = λ i.
      attribute_not_exists "PK" i
      || (equals "userId" (text user) i && equals "tenantId" (text tenant) i);
  effect = put (token_pointer f user tenant hash expiry);
}

-- The hash matches and has not expired.
unfoldable pub consume_cond : Family → ℕ → String → Item → Bool
consume_cond f now hash i = equals (hash_attr f) (text hash) i && exceeds (exp_attr f) (stamp now) i

unfoldable pub consume_write : Family → ℕ → String → String → String → Write
unfolding consume_cond
consume_write f now user tenant hash = record {
  at = profile_key tenant user;
  cond = consume_cond f now hash;
  effect = update (λ i. remove (exp_attr f) (remove (hash_attr f) i));
}

unfoldable pub clear_write : Family → String → String → Write
clear_write f user tenant = record {
  at = profile_key tenant user;
  cond = attribute_exists "PK";
  effect =
      update (λ i. remove_all (extra_clear_attrs f) (remove (exp_attr f) (remove (hash_attr f) i)));
}

unfoldable pub password_write : ℕ → String → String → String → Write
password_write now user tenant hash = record {
  at = profile_key tenant user;
  cond = attribute_exists "PK";
  effect = update (λ i.
      remove "migration" (assign "updatedAt" (stamp now) (assign "passwordHash" (text hash) i)));
}
