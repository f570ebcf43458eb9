-- ===== src/Configuration/Rules.antt =====
-- internal/config/rules.go: the refuse-to-start rules.
pub mod Safe
pub mod Plain
pub mod Modes
pub mod Addresses
pub mod Table
use Prim.Native.String.{◌++◌, len}
use mathlib.Core.List.{◌++◌ as append}
use awesome_lambda_auth.Common.{
  ℕ, String, Bool, true, false, not, ◌&&◌, ◌||◌, Option, none, some, List, [], ◌∷◌, str_eq, ltb,
  if◌then◌else◌, ℤ, pos, negsuc, ◌==◌,
}
use awesome_lambda_auth.Configuration.Blocks.{OAuthProvider}
use awesome_lambda_auth.Configuration.Surfaces.{Config}
use awesome_lambda_auth.Configuration.StoreRules.{
  StoreCapabilities, check_rs10_first_user, check_rs11_oauth_providers, check_rs12_memory_store,
  check_rs13_migration, check_store_requirements,
}
use awesome_lambda_auth.Configuration.Sorting.{sorted_keys}
use awesome_lambda_auth.Configuration.Defaults.{default_runtime_settings}
use awesome_lambda_auth.Configuration.Text.{
  Std, Url, trim_space, has_prefix, has_suffix, before, trim_suffix_of,
}
use awesome_lambda_auth.Configuration.Checks.{
  Diagnostic, errf, report, ◌and◌, secret_value, secret_failed, is_production, active,
  cookie_delivery_active, admin_guard_verifies_tokens, migration_active, dual_read,
  verifier_configured, is_one_of,
}
use awesome_lambda_auth.Configuration.Validate.Providers.{provider_of}
use awesome_lambda_auth.Configuration.Validate.Credentials.{is_set}

abbrev pub min_hs256_secret_length : ℕ
min_hs256_secret_length = 32

module _ (x : Std) where
  unfoldable pub is_shared_aws_domain : String → Bool
  is_shared_aws_domain host =
      has_suffix (x.to_lower host) ".amazonaws.com" || has_suffix (x.to_lower host) ".on.aws"

  abbrev host_or : String → Option Url → String
  host_or raw none = before b'/' raw
  host_or raw (some u) = if str_eq u.host "" then before b'/' raw else u.hostname

  unfoldable pub host_of : String → String
  host_of raw = trim_suffix_of b'.' (host_or raw (x.parse_url raw))

abbrev pub is_https : Option Url → Bool
is_https none = false
is_https (some u) = str_eq u.scheme "https" && not (str_eq u.host "")

module _ (c : Config) where
  abbrev access_path : String
  access_path = "security.jwt.accessTokenSecret"

  abbrev refresh_path : String
  refresh_path = "security.jwt.refreshTokenSecret"

  -- The loop over the paths: missing, or shorter than the floor.
  unfoldable pub check_secret : String → List Diagnostic
  unfolding secret_value secret_failed errf
  check_secret path =
      report
        (not (secret_failed c path)
          && (str_eq (secret_value c path) ""
              || ltb (len (secret_value c path)) min_hs256_secret_length))
        (errf c "RS-1" path)

  -- Both secrets: each of them, and one apart from the other.
  unfoldable pub check_secret_pair : List Diagnostic
  unfolding errf
  check_secret_pair =
      check_secret access_path
      and check_secret refresh_path
      and report
          (not (str_eq (secret_value c access_path) "")
            && str_eq (secret_value c access_path) (secret_value c refresh_path))
          (errf c "RS-1" refresh_path)

  unfoldable pub check_rs1_secrets : List Diagnostic
  unfolding admin_guard_verifies_tokens errf
  check_rs1_secrets =
      if c.resource_server.enabled
      then (if admin_guard_verifies_tokens c then check_secret access_path else [])
      else check_secret_pair

  unfoldable pub check_rs2_insecure_cookie_mode : Std → List Diagnostic
  unfolding cookie_delivery_active errf
  check_rs2_insecure_cookie_mode x =
      if not (cookie_delivery_active c) || c.cookies.allow_insecure_cookie_mode
      then []
      else if str_eq c.deployment.public_url ""
      then errf c "RS-2" "deployment.publicUrl" ∷ []
      else report (is_shared_aws_domain x (host_of x c.deployment.public_url))
          (errf c "RS-2" "deployment.publicUrl")

  unfoldable pub check_rs3_csrf : List Diagnostic
  unfolding cookie_delivery_active errf
  check_rs3_csrf =
      report (cookie_delivery_active c && not c.security.csrf.enabled)
        (errf c "RS-3" "security.csrf.enabled")

  unfoldable pub check_rs4_id_provider_keys : List Diagnostic
  unfolding secret_value is_production errf
  check_rs4_id_provider_keys =
      let pem = not (str_eq (secret_value c "idProvider.privateKey") "") in
      let kms = not (str_eq (trim_space c.id_provider.kms_key_id) "") in
      if not (active c.id_provider)
      then []
      else if pem && kms
      then errf c "RS-4" "idProvider.kmsKeyId" ∷ []
      else if pem || kms
      then []
      else report (is_production c) (errf c "RS-4" "idProvider.privateKey")

  unfoldable pub check_rs5_same_site : List Diagnostic
  unfolding errf
  check_rs5_same_site =
      report (str_eq c.cookies.same_site "none" && not c.cookies.secure)
        (errf c "RS-5" "cookies.sameSite")

  unfoldable pub check_rs6_admin_guard : List Diagnostic
  unfolding secret_value errf
  check_rs6_admin_guard =
      report
        (c.admin.enabled
          && str_eq c.admin.access_policy ""
          && str_eq (secret_value c "admin.bootstrapSecret") "")
        (errf c "RS-6" "admin.accessPolicy")

  unfoldable pub check_rs8_resource_server_jwks : Std → List Diagnostic
  unfolding errf
  check_rs8_resource_server_jwks x =
      if not c.resource_server.enabled
      then []
      else if str_eq c.resource_server.jwks_url ""
      then errf c "RS-8" "resourceServer.jwksUrl" ∷ []
      else report (not (is_https (x.parse_url c.resource_server.jwks_url)))
          (errf c "RS-8" "resourceServer.jwksUrl")

  unfoldable pub check_identity_mode_conflict : List Diagnostic
  unfolding errf
  check_identity_mode_conflict =
      report (c.resource_server.enabled && active c.id_provider)
        (errf c "IDENTITY" "resourceServer.enabled")

  unfoldable pub check_rules : Std → (String → StoreCapabilities) → List Diagnostic
  check_rules x capabilities =
      check_rs1_secrets
      and check_rs2_insecure_cookie_mode x
      and check_rs3_csrf
      and check_rs4_id_provider_keys
      and check_rs5_same_site
      and check_rs6_admin_guard
      and check_rs8_resource_server_jwks x
      and check_identity_mode_conflict
      and check_rs10_first_user c capabilities
      and check_rs11_oauth_providers c
      and check_rs12_memory_store c
      and check_rs13_migration c capabilities
      and check_store_requirements c
