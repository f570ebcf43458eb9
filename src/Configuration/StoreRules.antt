-- ===== src/Configuration/StoreRules.antt =====
-- The rules of internal/config/rules.go on what the stores and the providers must offer, and
-- `StoreCapabilities` of load.go.
use Prim.Native.String.{◌++◌}
use mathlib.Core.List.{◌++◌ as append}
use awesome_lambda_auth.Common.{
  String, Bool, true, false, not, ◌&&◌, ◌||◌, List, [], ◌∷◌, str_eq, if◌then◌else◌, ℤ, pos, negsuc,
  ◌==◌,
}
use awesome_lambda_auth.Configuration.Blocks.{OAuthProvider}
use awesome_lambda_auth.Configuration.Surfaces.{Config}
use awesome_lambda_auth.Configuration.Sorting.{sorted_keys}
use awesome_lambda_auth.Configuration.Defaults.{default_runtime_settings}
use awesome_lambda_auth.Configuration.Text.{trim_space, has_prefix}
use awesome_lambda_auth.Configuration.Checks.{
  Diagnostic, errf, report, ◌and◌, secret_value, is_production, migration_active, dual_read,
  verifier_configured, is_one_of,
}
use awesome_lambda_auth.Configuration.Validate.Providers.{provider_of}
use awesome_lambda_auth.Configuration.Validate.Credentials.{is_set}

pub record StoreCapabilities : Type 0 where
  pub list_users : Bool
  pub migration_marker : Bool

-- `builtinCapabilities`, the zero value for another driver.
unfoldable pub builtin_capabilities : String → StoreCapabilities
builtin_capabilities driver = record {
  list_users = str_eq driver "dynamodb" || str_eq driver "postgres" || str_eq driver "memory";
  migration_marker = str_eq driver "dynamodb";
}

-- `Config.RedirectOrigins`: the loop over both lists, `seen` being what `out` holds.
unfoldable pub distinct_origins : List String → List String → List String
unfolding is_one_of
distinct_origins seen [] = []
distinct_origins seen (origin ∷ rest) =
    let passed_over = distinct_origins seen rest in
    let kept = origin ∷ distinct_origins (origin ∷ seen) rest in
    if str_eq origin "" then passed_over else if is_one_of origin seen then passed_over else kept

unfoldable pub redirect_origins : Config → List String
unfolding distinct_origins
redirect_origins c = distinct_origins [] (append c.email.site_urls c.http.cors.origins)

abbrev int_eq : ℤ → ℤ → Bool
int_eq (pos a) (pos b) = a == b
int_eq (negsuc a) (negsuc b) = a == b
int_eq (pos a) (negsuc b) = false
int_eq (negsuc a) (pos b) = false

abbrev xor : Bool → Bool → Bool
xor true b = not b
xor false b = b

unfoldable pub runtime_settings_configured : Config → Bool
runtime_settings_configured c =
    let seeds = c.runtime_settings in
    let usual = default_runtime_settings in
    xor seeds.require2_fa usual.require2_fa
    || is_set seeds.enabled_webhook_actions
    || not (
        int_eq seeds.lazy_email_verification_grace_period_days
          usual.lazy_email_verification_grace_period_days)

module _ (c : Config) where
  unfoldable pub check_rs10_first_user : (String → StoreCapabilities) → List Diagnostic
  unfolding errf
  check_rs10_first_user capabilities =
      report
        (str_eq c.admin.access_policy "first-user" && not (capabilities c.stores.driver).list_users)
        (errf c "RS-10" "admin.accessPolicy")

  unfoldable pub is_incomplete : String → OAuthProvider → Bool
  unfolding secret_value
  is_incomplete name p =
      str_eq p.client_id ""
      || str_eq (secret_value c ("oauth.providers." ++ (name ++ ".clientSecret"))) ""
      || str_eq p.callback_url ""

  abbrev pub is_empty : List String → Bool
  is_empty [] = true
  is_empty (first ∷ rest) = false

  unfoldable pub check_providers : List String → List Diagnostic
  unfolding errf
  check_providers [] = []
  check_providers (name ∷ rest) =
      report (is_empty (redirect_origins c)) (errf c "RS-11" ("oauth.providers." ++ name))
      and report (is_incomplete name (provider_of c name))
          (errf c "RS-11" ("oauth.providers." ++ name))
      and check_providers rest

  -- The checks that a provider sets off, for the sorted names.
  unfoldable pub check_named_providers : List String → List Diagnostic
  unfolding errf
  check_named_providers [] = []
  check_named_providers (name ∷ rest) =
      report (not c.stores.enable.linked_accounts) (errf c "RS-11" "stores.enable.linkedAccounts")
      and report
          (str_eq c.oauth.provisioning.on_email_match "conflict"
            && not c.stores.enable.pending_links)
          (errf c "RS-11" "oauth.provisioning.onEmailMatch")
      and check_providers (name ∷ rest)

  unfoldable pub check_rs11_oauth_providers : List Diagnostic
  unfolding check_named_providers
  check_rs11_oauth_providers = check_named_providers (sorted_keys c.oauth.providers)

  unfoldable pub check_rs12_memory_store : List Diagnostic
  unfolding is_production errf
  check_rs12_memory_store =
      report (str_eq c.stores.driver "memory" && is_production c) (errf c "RS-12" "stores.driver")

  -- The block is configured beside its source.
  unfoldable pub has_migration_knobs : Bool
  has_migration_knobs =
      let m = c.stores.migration in
      not (str_eq (trim_space m.user_pool_id) "")
      || not (str_eq (trim_space m.client_id) "")
      || (not (str_eq m.mode "") && not (str_eq m.mode "import-only"))

  unfoldable pub check_rs13_migration : (String → StoreCapabilities) → List Diagnostic
  unfolding migration_active has_migration_knobs dual_read verifier_configured errf
  check_rs13_migration capabilities =
      let m = c.stores.migration in
      let marker = (capabilities c.stores.driver).migration_marker in
      if not (migration_active m)
      then report has_migration_knobs (errf c "RS-13" "stores.migration.source")
      else (if str_eq (trim_space m.user_pool_id) ""
          then errf c "RS-13" "stores.migration.userPoolId" ∷ []
          else report (str_eq (trim_space m.region) "") (errf c "RS-13" "stores.migration.region"))
        and report (dual_read m && not marker) (errf c "RS-13" "stores.migration.mode")
        and report (verifier_configured m && not marker)
            (errf c "RS-13" "stores.migration.clientId")

  unfoldable pub require_store : Bool → String → Bool → List Diagnostic
  unfolding errf
  require_store enabled store_path store_enabled =
      report (enabled && not store_enabled) (errf c "STORE" store_path)

  unfoldable pub check_store_requirements : List Diagnostic
  unfolding require_store
  check_store_requirements =
      let stores = c.stores.enable in
      require_store (not (str_eq c.sessions.check_on "none")) "stores.enable.sessions"
        stores.sessions
      and require_store
          (has_prefix c.admin.access_policy "rbac:"
            || has_prefix c.admin.access_policy "permission:")
          "stores.enable.rbac" stores.rbac
      and require_store (not (str_eq (trim_space c.email.templates_dir) ""))
          "stores.enable.templates" stores.templates
      and require_store (c.tools.enabled && c.tools.inbound_webhooks.enabled)
          "stores.enable.webhooks" stores.webhooks
      and require_store (runtime_settings_configured c) "stores.enable.settings" stores.settings
      and require_store (c.tools.enabled && c.tools.telemetry.enabled) "stores.enable.telemetry"
          stores.telemetry
