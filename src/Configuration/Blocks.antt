-- ===== src/Configuration/Blocks.antt =====
-- The blocks of the configuration tree: the structs of internal/config/config.go with their fields,
-- `Secret` and `resolvedSecret` of secret.go, and `Duration` and `StringList` of duration.go. A Go
-- map is an association list, and a field of type `any` is the text of its value.
use awesome_lambda_auth.Common.{String, Bool, Option, List, ℤ}

pub record Secret : Type 0 where
  pub secrets_manager : String
  pub ssm_parameter : String
  pub env_var : String
  pub literal : String
  pub err : Option String

pub record ResolvedSecret : Type 0 where
  pub value : String
  pub source : String
  pub failed : Bool

-- Why a value is not one term of the ms grammar, or not a span at all.
pub data DurationError : Type 0 where
  empty_value no_number bad_number unknown_unit not_ms : DurationError

pub record Duration : Type 0 where
  pub raw : String
  pub d : ℤ
  pub err : Option DurationError

pub record StringList : Type 0 where
  pub values : List String
  pub err : Option String

pub record Deployment : Type 0 where
  pub environment : String
  pub stage : String
  pub public_url : String

pub record Claim : Type 0 where
  pub from_user_field : String
  pub const : Option String

pub record Webhook : Type 0 where
  pub url : String
  pub timeout_ms : ℤ
  pub secret : Secret

pub record Jwt : Type 0 where
  pub access_token_secret : Secret
  pub refresh_token_secret : Secret
  pub access_token_ttl : Duration
  pub refresh_token_ttl : Duration
  pub extra_claims : List (String × Claim)
  pub claims_webhook : Webhook

pub record Password : Type 0 where
  pub bcrypt_salt_rounds : ℤ

pub record Csrf : Type 0 where
  pub enabled : Bool

pub record Security : Type 0 where
  pub jwt : Jwt
  pub password : Password
  pub csrf : Csrf

pub record Tokens : Type 0 where
  pub password_reset_ttl_minutes : ℤ
  pub email_verification_ttl_minutes : ℤ
  pub email_change_ttl_minutes : ℤ
  pub account_link_ttl_minutes : ℤ
  pub magic_link_ttl_minutes : ℤ

pub record Cookies : Type 0 where
  pub secure : Bool
  pub same_site : String
  pub domain : String
  pub path : String
  pub refresh_token_path : String
  pub allow_insecure_cookie_mode : Bool

pub record Sessions : Type 0 where
  pub check_on : String

pub record Mailer : Type 0 where
  pub endpoint : String
  pub api_key : Secret
  pub from : String
  pub from_name : String
  pub provider : String
  pub default_lang : String

pub record EmailVerification : Type 0 where
  pub mode : String

pub record Email : Type 0 where
  pub site_urls : List String
  pub mailer : Mailer
  pub verification : EmailVerification
  pub templates_dir : String
  pub delivery_webhook : Webhook

pub record Sms : Type 0 where
  pub endpoint : String
  pub api_key : Secret
  pub username : Secret
  pub password : Secret
  pub code_ttl_minutes : ℤ

pub record OAuthProvider : Type 0 where
  pub client_id : String
  pub client_secret : Secret
  pub callback_url : String
  pub project_id : String
  pub authorization_url : String
  pub token_url : String
  pub user_info_url : String
  pub scope : String
  pub additional_auth_params : List (String × String)
  pub profile_map : List (String × String)

pub record OAuthProvisioning : Type 0 where
  pub auto_create : Bool
  pub allowed_email_domains : List String
  pub on_email_match : String
  pub field_map : List (String × String)
  pub require_verified_email : Bool

pub record OAuth : Type 0 where
  pub providers : List (String × OAuthProvider)
  pub provisioning : OAuthProvisioning

pub record TwoFactor : Type 0 where
  pub app_name : String
