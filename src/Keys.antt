-- ===== src/Keys.antt =====
-- internal/store/dynamodb/keys.go: the keys of the table's items, and the checks on what they are
-- built from.
pub mod Injective
use Prim.Native.Char.{code}
use Prim.Native.String.{◌++◌, len}
use awesome_lambda_auth.Errors.{invalid_identifier, tenant_required, StoreError}
use awesome_lambda_auth.Common.{
  ℕ, String, Bool, true, false, ◌&&◌, ◌||◌, Option, none, some, List, [], ◌∷◌, str_eq, leb, ltb,
  ◌==◌, length, if◌then◌else◌,
}

-- The code points of a text.
abbrev pub codes : String → List ℕ
codes String.[] = []
codes (String.◌∷◌ letter rest) = code letter ∷ codes rest

pub is_alphanumeric : ℕ → Bool
is_alphanumeric c =
    (leb b'A' c && leb c b'Z') || (leb b'a' c && leb c b'z') || (leb b'0' c && leb c b'9')

pub is_id_char : ℕ → Bool
unfolding is_alphanumeric
is_id_char c = is_alphanumeric c || c == b'.' || c == b'_' || c == b'-'

pub all_id_chars : List ℕ → Bool
unfolding is_id_char
all_id_chars [] = true
all_id_chars (c ∷ cs) = is_id_char c && all_id_chars cs

-- `^[A-Za-z0-9][A-Za-z0-9._-]{0,63}$`
unfoldable pub id_pattern : List ℕ → Bool
unfolding all_id_chars
id_pattern [] = false
id_pattern (c ∷ cs) = is_alphanumeric c && all_id_chars cs && leb (length cs) 63

unfoldable pub check_tenant : Bool → String → Option StoreError
unfolding id_pattern
check_tenant multi_tenant tenant =
    if str_eq tenant ""
    then (if multi_tenant then some tenant_required else none)
    else if id_pattern (codes tenant)
    then none
    else some invalid_identifier

unfoldable pub check_id : String → Option StoreError
unfolding id_pattern
check_id id = if id_pattern (codes id) then none else some invalid_identifier

unfoldable pub check_hash : String → Option StoreError
check_hash hash = if str_eq hash "" then some invalid_identifier else none

abbrev pub key_sep : String
key_sep = "#"

unfoldable pub user_pk : String → String → String
user_pk tenant user = "USER#" ++ (tenant ++ (key_sep ++ user))

unfoldable pub session_pk : String → String
session_pk id = "SESSION#" ++ id

unfoldable pub refresh_pk : String → String
refresh_pk hash = "REFRESH#" ++ hash

unfoldable pub session_gsi1_sk : String → String → String
session_gsi1_sk created_at id = "SESSION" ++ (key_sep ++ (created_at ++ (key_sep ++ id)))
