-- ===== src/Configuration/Phases.antt =====
-- internal/config/phases.go: the blocks that are accepted and not wired, and `reflect.DeepEqual` of
-- their structs.
use awesome_lambda_auth.Common.{
  String, Bool, true, false, not, ◌&&◌, ◌||◌, Option, none, some, List, [], ◌∷◌, str_eq, ◌==◌,
  if◌then◌else◌, ℤ, pos, negsuc,
}
use awesome_lambda_auth.Configuration.Blocks.{
  Secret, ResolvedSecret, Duration, DurationError, empty_value, no_number, bad_number, unknown_unit,
  not_ms,
}
use awesome_lambda_auth.Configuration.Surfaces.{Config, Admin, Tools, Distributor}
use awesome_lambda_auth.Configuration.Text.{Std, has_prefix}
use awesome_lambda_auth.Configuration.Checks.{Diagnostic, Severity, errf, source}
use awesome_lambda_auth.Configuration.Defaults.{default_admin, default_tools}
use awesome_lambda_auth.Configuration.Duration.{parse_duration}

unfoldable pub same_bool : Bool → Bool → Bool
same_bool true b = b
same_bool false b = not b

unfoldable pub same_int : ℤ → ℤ → Bool
same_int (pos a) (pos b) = a == b
same_int (negsuc a) (negsuc b) = a == b
same_int (pos a) (negsuc b) = false
same_int (negsuc a) (pos b) = false

abbrev same_text? : Option String → Option String → Bool
same_text? none none = true
same_text? (some a) (some b) = str_eq a b
same_text? none (some b) = false
same_text? (some a) none = false

abbrev rank : Option DurationError → String
rank none = ""
rank (some empty_value) = "empty"
rank (some no_number) = "no number"
rank (some bad_number) = "bad number"
rank (some unknown_unit) = "unknown unit"
rank (some not_ms) = "not ms"

unfoldable pub same_secret : Secret → Secret → Bool
same_secret a b =
    str_eq a.secrets_manager b.secrets_manager
    && str_eq a.ssm_parameter b.ssm_parameter
    && str_eq a.env_var b.env_var
    && str_eq a.literal b.literal
    && same_text? a.err b.err

unfoldable pub same_duration : Duration → Duration → Bool
unfolding same_int
same_duration a b = str_eq a.raw b.raw && same_int a.d b.d && str_eq (rank a.err) (rank b.err)

unfoldable pub same_admin : Admin → Admin → Bool
unfolding same_bool same_secret same_duration same_int
same_admin a b =
    same_bool a.enabled b.enabled
    && str_eq a.access_policy b.access_policy
    && same_secret a.bootstrap_secret b.bootstrap_secret
    && str_eq a.root_user.email b.root_user.email
    && same_secret a.root_user.password_hash b.root_user.password_hash
    && str_eq a.cookie_prefix b.cookie_prefix
    && str_eq a.login_path b.login_path
    && str_eq a.base_path b.base_path
    && same_duration a.session_ttl b.session_ttl
    && same_int a.upload.max_file_size_mb b.upload.max_file_size_mb

unfoldable pub same_distributor : Distributor → Distributor → Bool
unfolding same_secret
same_distributor a b =
    str_eq a.type b.type
    && str_eq a.endpoint b.endpoint
    && str_eq a.topic_arn b.topic_arn
    && str_eq a.username b.username
    && same_secret a.password b.password

unfoldable pub same_tools : Tools → Tools → Bool
unfolding same_bool same_int same_distributor
same_tools a b =
    same_bool a.enabled b.enabled
    && same_bool a.telemetry.enabled b.telemetry.enabled
    && same_bool a.notify.enabled b.notify.enabled
    && same_bool a.stream.enabled b.stream.enabled
    && str_eq a.auth b.auth
    && str_eq a.base_path b.base_path
    && same_bool a.sse.enabled b.sse.enabled
    && same_int a.sse.heartbeat_interval_ms b.sse.heartbeat_interval_ms
    && same_bool a.sse.deduplicate b.sse.deduplicate
    && same_distributor a.sse.distributor b.sse.distributor
    && same_bool a.inbound_webhooks.enabled b.inbound_webhooks.enabled
    && same_int a.inbound_webhooks.script_timeout_ms b.inbound_webhooks.script_timeout_ms
    && str_eq a.outbound_webhooks.payload_version b.outbound_webhooks.payload_version
    && same_int a.outbound_webhooks.defaults.max_retries b.outbound_webhooks.defaults.max_retries
    && same_int a.outbound_webhooks.defaults.retry_delay_ms
        b.outbound_webhooks.defaults.retry_delay_ms

unfoldable pub has_secret_under : String → List (String × ResolvedSecret) → Bool
unfolding has_prefix
has_secret_under start [] = false
has_secret_under start ((path, resolved) ∷ rest) =
    (has_prefix path start && not (str_eq resolved.value "")) || has_secret_under start rest

unfoldable pub warn : Config → String → Diagnostic
unfolding source
warn c path = record { severity = Severity.warning; path = path; rule = ""; source = source c path }

module _ (x : Std) (c : Config) where
  -- `domainConfigured` of the two domains that are not wired.
  unfoldable pub admin_configured : Bool
  unfolding same_admin has_secret_under parse_duration
  admin_configured =
      not (same_admin c.admin (default_admin x)) || has_secret_under "admin." c.secrets

  -- `derive` has normalised the distributor's type and trimmed the texts of the defaults too, which
  -- changes none of them.
  unfoldable pub tools_configured : Bool
  unfolding same_tools has_secret_under
  tools_configured = not (same_tools c.tools default_tools) || has_secret_under "tools." c.secrets

  unfoldable pub unwired : List (Bool × String)
  unfolding admin_configured tools_configured
  unwired = (admin_configured, "admin") ∷ (tools_configured, "tools") ∷ []

  -- The diagnostics and the warnings of the loop over the domains.
  unfoldable pub gaps : Bool → List (Bool × String) → List Diagnostic × List Diagnostic
  unfolding errf warn
  gaps allow [] = ([], [])
  gaps allow ((moved, path) ∷ rest) =
      let (refused, warned) = gaps allow rest in
      if not moved
      then (refused, warned)
      else if allow
      then (refused, warn c path ∷ warned)
      else (errf c "PHASE" path ∷ refused, warned)

  unfoldable pub check_phase_gaps : Bool → List Diagnostic × List Diagnostic
  unfolding gaps unwired
  check_phase_gaps allow = gaps allow unwired
