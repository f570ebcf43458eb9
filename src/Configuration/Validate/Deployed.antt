-- ===== src/Configuration/Validate/Deployed.antt =====
-- internal/config/validate.go: two-factor, the hosted pages, admin, tools, rate limits, the stores,
-- HTTP and the documentation.
use Prim.Native.String.{◌++◌, len}
use awesome_lambda_auth.Common.{
  ℕ, ◌+◌, String, Bool, false, not, ◌&&◌, ◌||◌, List, [], ◌∷◌, str_eq, ltb, if◌then◌else◌,
}
use awesome_lambda_auth.Configuration.Surfaces.{Config}
use awesome_lambda_auth.Configuration.Text.{Std, trim_space, has_prefix}
use awesome_lambda_auth.Configuration.Checks.{
  Diagnostic, errf, report, ◌and◌, is_one_of, enum, at_least, positive, in_range, ttl,
  absolute_path, email_address,
}
use awesome_lambda_auth.Configuration.Validate.Credentials.{absolute_urls}

abbrev pub rate_limit_endpoints : List String
rate_limit_endpoints =
    "login" ∷ "register" ∷ "refresh" ∷ "forgot-password" ∷ "reset-password" ∷ "magic-link"
    ∷ "sms-code" ∷ "2fa-verify" ∷ "verify-email" ∷ "resend-verification" ∷ []

unfoldable pub known_rate_limit_endpoint : String → Bool
unfolding is_one_of
known_rate_limit_endpoint name = is_one_of name rate_limit_endpoints

-- A policy that is spelled with a prefix and something behind it.
unfoldable pub is_prefixed : String → String → Bool
is_prefixed policy start = has_prefix policy start && ltb (len start) (len policy)

unfoldable pub is_access_policy : String → Bool
unfolding is_prefixed is_one_of
is_access_policy p =
    is_one_of p ("first-user" ∷ "is-admin-flag" ∷ "open" ∷ [])
    || is_prefixed p "rbac:"
    || is_prefixed p "permission:"

module _ (x : Std) (c : Config) where
  unfoldable pub validate_two_factor : List Diagnostic
  unfolding errf
  validate_two_factor =
      report (str_eq (trim_space c.two_factor.app_name) "") (errf c "" "twoFactor.appName")

  unfoldable pub validate_ui : List Diagnostic
  unfolding errf
  validate_ui =
      if not c.ui.enabled
      then []
      else report (str_eq (trim_space c.ui.branding.site_name) "")
          (errf c "" "ui.branding.siteName")
        and report (str_eq c.ui.branding.primary_color "") (errf c "" "ui.branding.primaryColor")
        and report (str_eq c.ui.branding.secondary_color "")
            (errf c "" "ui.branding.secondaryColor")

  unfoldable pub validate_admin : List Diagnostic
  unfolding ttl absolute_path errf is_access_policy email_address in_range
  validate_admin =
      let a = c.admin in
      ttl c "admin.sessionTtl" a.session_ttl a.enabled
      and absolute_path c "admin.basePath" a.base_path
      and report
          (not (str_eq a.login_path "")
            && not (has_prefix a.login_path "/")
            && not (has_prefix a.login_path "http"))
          (errf c "" "admin.loginPath")
      and report (not (str_eq a.access_policy "") && not (is_access_policy a.access_policy))
          (errf c "" "admin.accessPolicy")
      and (if str_eq a.root_user.email ""
          then []
          else email_address c "admin.rootUser.email" a.root_user.email)
      and in_range c "admin.upload.maxFileSizeMb" a.upload.max_file_size_mb 1 50

  unfoldable pub validate_distributor : List Diagnostic
  unfolding errf
  validate_distributor =
      let d = c.tools.sse.distributor in
      report (str_eq d.type "redis" && str_eq d.endpoint "")
        (errf c "" "tools.sse.distributor.endpoint")
      and report (str_eq d.type "sns" && str_eq d.topic_arn "")
          (errf c "" "tools.sse.distributor.topicArn")

  unfoldable pub validate_tools : List Diagnostic
  unfolding enum absolute_path validate_distributor in_range at_least
  validate_tools =
      let t = c.tools in
      (if str_eq t.auth ""
        then []
        else enum c "tools.auth" t.auth ("none" ∷ "session" ∷ "apiKey" ∷ "admin" ∷ []))
      and absolute_path c "tools.basePath" t.base_path
      and enum c "tools.sse.distributor.type" t.sse.distributor.type ("none" ∷ "redis" ∷ "sns" ∷ [])
      and validate_distributor
      and in_range c "tools.inboundWebhooks.scriptTimeoutMs" t.inbound_webhooks.script_timeout_ms
          100 30_000
      and in_range c "tools.outboundWebhooks.defaults.maxRetries"
          t.outbound_webhooks.defaults.max_retries 0 10
      and at_least c "tools.outboundWebhooks.defaults.retryDelayMs"
          t.outbound_webhooks.defaults.retry_delay_ms 100

  unfoldable pub validate_scopes : ℕ → List String → List Diagnostic
  unfolding known_rate_limit_endpoint errf
  validate_scopes i [] = []
  validate_scopes i (ep ∷ rest) =
      report (not (known_rate_limit_endpoint ep))
        (errf c "" ("rateLimit.scope[" ++ (x.itoa i ++ "]")))
      and validate_scopes (i + 1) rest

  unfoldable pub validate_rate_limit : List Diagnostic
  unfolding positive enum validate_scopes
  validate_rate_limit =
      if not c.rate_limit.enabled
      then []
      else positive c "rateLimit.windowSeconds" c.rate_limit.window_seconds
        and positive c "rateLimit.max" c.rate_limit.max
        and enum c "rateLimit.keyBy" c.rate_limit.key_by ("ip" ∷ "email" ∷ [])
        and validate_scopes 0 c.rate_limit.scope

  unfoldable pub validate_migration : List Diagnostic
  unfolding enum
  validate_migration =
      let m = c.stores.migration in
      (if str_eq (trim_space m.source) ""
        then []
        else enum c "stores.migration.source" m.source ("cognito" ∷ []))
      and enum c "stores.migration.mode" m.mode ("import-only" ∷ "dual-read" ∷ [])

  unfoldable pub validate_stores : List Diagnostic
  unfolding enum errf validate_migration
  validate_stores =
      let s = c.stores in
      enum c "stores.driver" s.driver ("dynamodb" ∷ "postgres" ∷ "memory" ∷ [])
      and report (str_eq s.driver "dynamodb" && str_eq s.connection.table_name "")
          (errf c "" "stores.connection.tableName")
      and report (str_eq s.driver "postgres" && str_eq s.connection.dsn "")
          (errf c "" "stores.connection.dsn")
      and report (not s.enable.users) (errf c "" "stores.enable.users")
      and validate_migration

  unfoldable pub validate_http_and_docs : List Diagnostic
  unfolding absolute_path absolute_urls enum
  validate_http_and_docs =
      absolute_path c "http.apiPrefix" c.http.api_prefix
      and absolute_urls x c "http.cors.origins" (λ u. false) 0 c.http.cors.origins
      and enum c "docs.swagger" c.docs.swagger ("true" ∷ "false" ∷ "auto" ∷ [])
      and absolute_path c "docs.basePath" c.docs.base_path
