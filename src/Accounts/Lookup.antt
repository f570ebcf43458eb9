-- ===== src/Accounts/Lookup.antt =====
-- Finding a user that was created (`GetUserByID` and `GetUserByEmail`,
-- internal/store/dynamodb/users.go).
use awesome_lambda_auth.Keys.{check_id, check_tenant}
use awesome_lambda_auth.Common.{
  if◌then◌else◌, List, [], ◌∷◌, lookup, str_eq, ◌∙◌, String, inr, arith, ap, inl, ◌==◌, Bool-cases,
  refl, none, ◌≡◌, some, ◌≢◌, Option, ℕ,
}
use awesome_lambda_auth.Accounts.{value_or, found_user, get_user_by_id, tp_value, profile_item}
use awesome_lambda_auth.Tokens.{profile_key}
use awesome_lambda_auth.Database.{fetched, Dynamo}
use awesome_lambda_auth.Env.{Env}
use awesome_lambda_auth.Tokens.Store.{check_user}
use awesome_lambda_auth.Items.{put_t-get, put_s-get, decode_time_ptr, check_version}
use awesome_lambda_auth.Users.{
  MetaValue, User, as_entries, entries, fields_value, other_value, string_map_av, string_map_from,
  text_entries, user_from_item,
}
use awesome_lambda_auth.Errors.{ok}

-- No expiry is there and the zero time, which is left out of an item.
pub record NoZeroExpiry (u : User) : Type 0 where
  pub reset : u.reset_token_expires_at ≢ some 0
  pub magic : u.magic_link_token_expires_at ≢ some 0
  pub verification : u.email_verification_token_expiry ≢ some 0
  pub change : u.email_change_token_expiry ≢ some 0
  pub sms : u.sms_code_expires_at ≢ some 0

-- Any other expiry reads back.
put_tp-get : (o : Option ℕ) → o ≢ some 0 → decode_time_ptr (λ a. tp_value o none) "" ≡ ok o
put_tp-get none h = refl
put_tp-get (some t) h = elim (Bool-cases (t == 0)) [
  | inl zero_ ↦ absurd (h (ap some (ground (arith, zero_))))
  | inr later ↦ rw later refl
]

-- What of a user's metadata survives: of the imported attributes the texts that are not empty, and
-- nothing else.
abbrev pub kept_entries : List (String × Option String) → List (String × Option String)
kept_entries [] = []
kept_entries ((key, none) ∷ rest) = kept_entries rest
kept_entries ((key, some v) ∷ rest) =
    if str_eq v "" then kept_entries rest else (key, some v) ∷ kept_entries rest

abbrev pub imported_only : List (String × Option String) → List (String × MetaValue)
imported_only [] = []
imported_only (e ∷ es) = ("imported", entries (e ∷ es)) ∷ []

abbrev pub of_imported : Option MetaValue → List (String × MetaValue)
of_imported (some (entries es)) = imported_only (kept_entries es)
of_imported _ = []

abbrev pub surviving : List (String × MetaValue) → List (String × MetaValue)
surviving metadata = of_imported (lookup "imported" metadata)

-- The user that is read back.
abbrev pub as_stored : User → User
as_stored u = record u { metadata = surviving u.metadata }

text_entries-kept :
    (es : List (String × Option String)) → as_entries (text_entries es) ≡ kept_entries es
unfolding text_entries
text_entries-kept [] = refl
text_entries-kept ((key, none) ∷ rest) = text_entries-kept rest
text_entries-kept ((key, some v) ∷ rest) = elim (Bool-cases (str_eq v "")) [
  | inl empty ↦ rw (empty, text_entries) (text_entries-kept rest)
  | inr full ↦ rw (full, text_entries) (ap (λ es. (key, some v) ∷ es) (text_entries-kept rest))
]

from_fields :
    (fields : List (String × String))
    → string_map_from (value_or (fields_value fields) none) ≡ imported_only (as_entries fields)
unfolding string_map_from
from_fields [] = refl
from_fields (field ∷ rest) = refl

string_map-round_trip :
    (o : Option MetaValue) → string_map_from (value_or (string_map_av o) none) ≡ of_imported o
unfolding string_map_av string_map_from
string_map-round_trip none = refl
string_map-round_trip (some other_value) = refl
string_map-round_trip (some (entries es)) =
    from_fields (text_entries es) ∙ ap imported_only (text_entries-kept es)

pub profile_item-round_trip :
    (u : User) → NoZeroExpiry u → user_from_item (profile_item u) ≡ ok (as_stored u)
unfolding user_from_item profile_item check_version
profile_item-round_trip u h =
    rw
      (
        put_s-get u.password_hash,
        put_s-get u.phone_number,
        put_s-get u.first_name,
        put_s-get u.last_name,
        put_s-get u.role,
        put_s-get u.login_provider,
        put_s-get u.totp_secret,
        put_s-get u.pending_email,
        put_s-get u.reset_token_hash,
        put_s-get u.magic_link_token_hash,
        put_s-get u.email_verification_token_hash,
        put_s-get u.email_change_token_hash,
        put_s-get u.sms_code_hash,
        put_t-get u.created_at,
        put_t-get u.updated_at,
        put_tp-get u.reset_token_expires_at h.reset,
        put_tp-get u.magic_link_token_expires_at h.magic,
        put_tp-get u.email_verification_token_expiry h.verification,
        put_tp-get u.email_change_token_expiry h.change,
        put_tp-get u.sms_code_expires_at h.sms,
        string_map-round_trip (lookup "imported" u.metadata),
      )
      refl

module _ (db : Dynamo) (normalize : String → String) where
  open db use {Table, contents, get_item}

  pub profile_found :
      (env : Env) (t : Table) (u : User)
      → NoZeroExpiry u
      → check_tenant env.multi_tenant u.tenant_id ≡ none
      → check_id u.id ≡ none
      → get_item t (profile_key u.tenant_id u.id) ≡ fetched (some (profile_item u))
      → get_user_by_id db env t u.id u.tenant_id ≡ ok (as_stored u)
  unfolding get_user_by_id check_user found_user
  profile_found env t u times tenant_ok id_ok profile =
      rw (tenant_ok, id_ok, profile, get_user_by_id) (profile_item-round_trip u times)
