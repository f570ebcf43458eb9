-- ===== src/Users.antt =====
-- The user behind a profile item: `userFromItem`, internal/store/dynamodb/users.go.
use awesome_lambda_auth.Database.Expression.{get_bool, get_s}
use awesome_lambda_auth.Errors.{ok, passes, ◌>>=◌, ◌>>◌, Result}
use awesome_lambda_auth.Items.{decode_time_ptr, decode_time, check_version}
use awesome_lambda_auth.Common.{
  Option, none, some, Bool, String, ℕ, List, [], ◌∷◌, str_eq, if◌then◌else◌,
}
use awesome_lambda_auth.Database.{Item, Value, object}

-- A value of `User.Metadata`: a map, with `none` for an entry that is no text, or anything else.
pub data MetaValue : Type 0 where
  entries : List (String × Option String) → MetaValue
  other_value : MetaValue

-- `reservedMetadataKeys` has one key, whose attribute has the same name.
abbrev pub imported_key : String
imported_key = "imported"

-- `stringMapAV`: texts that are not empty survive, and a map with none is left out.
unfoldable pub text_entries : List (String × Option String) → List (String × String)
text_entries [] = []
text_entries ((key, none) ∷ rest) = text_entries rest
text_entries ((key, some v) ∷ rest) =
    let later = text_entries rest in if str_eq v "" then later else (key, v) ∷ later

abbrev pub fields_value : List (String × String) → Option Value
fields_value [] = none
fields_value (field ∷ rest) = some (object (field ∷ rest))

unfoldable pub string_map_av : Option MetaValue → Option Value
unfolding text_entries
string_map_av (some (entries es)) = fields_value (text_entries es)
string_map_av _ = none

-- `stringMapFrom`, and the map that `Metadata` becomes.
abbrev pub as_entries : List (String × String) → List (String × Option String)
as_entries [] = []
as_entries ((key, v) ∷ rest) = (key, some v) ∷ as_entries rest

unfoldable pub string_map_from : Option Value → List (String × MetaValue)
string_map_from (some (object (field ∷ rest))) =
    (imported_key, entries (as_entries (field ∷ rest))) ∷ []
string_map_from _ = []

-- `auth.User`; instants are nanoseconds since the Unix epoch, and 0 is the zero time.
pub record User : Type 0 where
  pub id : String
  pub email : String
  pub password_hash : String
  pub tenant_id : String
  pub phone_number : String
  pub first_name : String
  pub last_name : String
  pub role : String
  pub is_admin : Bool
  pub login_provider : String
  pub is_email_verified : Bool
  pub require_2fa : Bool
  pub is_totp_enabled : Bool
  pub totp_secret : String
  pub pending_email : String
  pub reset_token_hash : String
  pub magic_link_token_hash : String
  pub email_verification_token_hash : String
  pub email_change_token_hash : String
  pub sms_code_hash : String
  pub created_at : ℕ
  pub updated_at : ℕ
  pub reset_token_expires_at : Option ℕ
  pub magic_link_token_expires_at : Option ℕ
  pub email_verification_token_expiry : Option ℕ
  pub email_change_token_expiry : Option ℕ
  pub sms_code_expires_at : Option ℕ
  pub metadata : List (String × MetaValue)

unfoldable pub user_from_item : Item → Result User
unfolding check_version string_map_from
user_from_item i = do
  passes (check_version i)
  created ← decode_time i "createdAt"
  updated ← decode_time i "updatedAt"
  reset_exp ← decode_time_ptr i "resetExp"
  magic_exp ← decode_time_ptr i "magicExp"
  verify_exp ← decode_time_ptr i "verifyExp"
  echg_exp ← decode_time_ptr i "echgExp"
  sms_exp ← decode_time_ptr i "smsExp"
  ok (record {
    id = get_s i "userId";
    email = get_s i "email";
    password_hash = get_s i "passwordHash";
    tenant_id = get_s i "tenantId";
    phone_number = get_s i "phoneNumber";
    first_name = get_s i "firstName";
    last_name = get_s i "lastName";
    role = get_s i "role";
    is_admin = get_bool i "isAdmin";
    login_provider = get_s i "loginProvider";
    is_email_verified = get_bool i "isEmailVerified";
    require_2fa = get_bool i "require2FA";
    is_totp_enabled = get_bool i "isTotpEnabled";
    totp_secret = get_s i "totpSecret";
    pending_email = get_s i "pendingEmail";
    reset_token_hash = get_s i "resetHash";
    magic_link_token_hash = get_s i "magicHash";
    email_verification_token_hash = get_s i "verifyHash";
    email_change_token_hash = get_s i "echgHash";
    sms_code_hash = get_s i "smsHash";
    created_at = created;
    updated_at = updated;
    reset_token_expires_at = reset_exp;
    magic_link_token_expires_at = magic_exp;
    email_verification_token_expiry = verify_exp;
    email_change_token_expiry = echg_exp;
    sms_code_expires_at = sms_exp;
    metadata = string_map_from (i imported_key);
  })
