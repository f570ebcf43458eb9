-- ===== src/Configuration/Validate/Credentials.antt =====
-- internal/config/validate.go: deployment, tokens and claims, cookies, sessions, e-mail and SMS.
use Prim.Native.String.{◌++◌}
use awesome_lambda_auth.Common.{
  ℕ, ◌+◌, String, Bool, true, false, not, ◌&&◌, ◌||◌, Option, none, some, List, [], ◌∷◌, str_eq,
  if◌then◌else◌, pos, lt_int, lookup,
}
use awesome_lambda_auth.Configuration.Blocks.{Webhook, Claim}
use awesome_lambda_auth.Configuration.Surfaces.{Config}
use awesome_lambda_auth.Configuration.Sorting.{sorted_keys}
use awesome_lambda_auth.Configuration.Text.{Std, trim_space, contains_any, contains}
use awesome_lambda_auth.Configuration.Checks.{
  Diagnostic, errf, report, configured, secret_value, secret_failed, is_one_of, enum, at_least,
  positive, ◌and◌, in_range, ttl, absolute_path, email_address, absolute_url,
}

pub record SignedWebhook : Type 0 where
  pub base : String
  pub hook : Webhook
  pub no_timeout : String

abbrev pub max_webhook_timeout_ms : ℕ
max_webhook_timeout_ms = 10_000

abbrev pub base_claims : List String
base_claims = "sub" ∷ "email" ∷ "role" ∷ "loginProvider" ∷ "isEmailVerified" ∷ "isTotpEnabled" ∷ []

abbrev pub is_set : {A : Type 0} → Option A → Bool
is_set none = false
is_set (some a) = true

module _ (x : Std) (c : Config) where
  unfoldable pub validate_deployment : List Diagnostic
  unfolding enum absolute_url
  validate_deployment =
      enum c "deployment.environment" c.deployment.environment ("production" ∷ "development" ∷ [])
      and (if str_eq c.deployment.public_url ""
          then []
          else absolute_url c x "deployment.publicUrl" c.deployment.public_url false)

  unfoldable pub webhook_timeout : SignedWebhook → List Diagnostic
  unfolding errf positive
  webhook_timeout w =
      if lt_int (pos max_webhook_timeout_ms) w.hook.timeout_ms
      then errf c "" (w.base ++ ".timeoutMs") ∷ []
      else if lt_int (pos 0) w.hook.timeout_ms
      then []
      else if not (str_eq w.no_timeout "")
      then errf c "" (w.base ++ ".timeoutMs") ∷ []
      else positive c (w.base ++ ".timeoutMs") w.hook.timeout_ms

  unfoldable pub webhook_secret : SignedWebhook → List Diagnostic
  unfolding errf secret_value secret_failed
  webhook_secret w =
      report
        (not (secret_failed c (w.base ++ ".secret"))
          && str_eq (secret_value c (w.base ++ ".secret")) "")
        (errf c "" (w.base ++ ".secret"))

  -- `absoluteURLOrigin` differs from `absoluteURL` in its prose alone.
  unfoldable pub validate_signed_webhook : SignedWebhook → List Diagnostic
  unfolding errf configured webhook_timeout webhook_secret absolute_url
  validate_signed_webhook w =
      if str_eq (trim_space w.hook.url) ""
      then report (configured w.hook.secret) (errf c "" (w.base ++ ".url"))
      else absolute_url c x (w.base ++ ".url") (trim_space w.hook.url) true
        and webhook_timeout w
        and webhook_secret w

  abbrev claim_or_zero : Option Claim → Claim
  claim_or_zero none = record { from_user_field = ""; const = none }
  claim_or_zero (some claim) = claim

  unfoldable pub validate_claim : String → Claim → List Diagnostic
  unfolding errf is_one_of
  validate_claim name claim =
      let path = "security.jwt.extraClaims." ++ name in
      report (is_one_of name base_claims) (errf c "" path)
      and report (str_eq claim.from_user_field "" && not (is_set claim.const)) (errf c "" path)
      and report (not (str_eq claim.from_user_field "") && is_set claim.const) (errf c "" path)

  unfoldable pub validate_claims : List String → List Diagnostic
  unfolding validate_claim
  validate_claims [] = []
  validate_claims (name ∷ rest) =
      validate_claim name (claim_or_zero (lookup name c.security.jwt.extra_claims))
      and validate_claims rest

  unfoldable pub validate_jwt : List Diagnostic
  unfolding ttl in_range validate_claims validate_signed_webhook
  validate_jwt =
      ttl c "security.jwt.accessTokenTtl" c.security.jwt.access_token_ttl true
      and ttl c "security.jwt.refreshTokenTtl" c.security.jwt.refresh_token_ttl true
      and in_range c "security.password.bcryptSaltRounds" c.security.password.bcrypt_salt_rounds 10
          15
      and validate_claims (sorted_keys c.security.jwt.extra_claims)
      and validate_signed_webhook (record {
        base = "security.jwt.claimsWebhook";
        hook = c.security.jwt.claims_webhook;
        no_timeout = "the claims webhook has no positive timeout";
      })

  unfoldable pub validate_tokens : List Diagnostic
  unfolding at_least
  validate_tokens =
      at_least c "tokens.passwordResetTtlMinutes" c.tokens.password_reset_ttl_minutes 5
      and at_least c "tokens.emailVerificationTtlMinutes" c.tokens.email_verification_ttl_minutes 5
      and at_least c "tokens.emailChangeTtlMinutes" c.tokens.email_change_ttl_minutes 5
      and at_least c "tokens.accountLinkTtlMinutes" c.tokens.account_link_ttl_minutes 5
      and at_least c "tokens.magicLinkTtlMinutes" c.tokens.magic_link_ttl_minutes 1

  unfoldable pub validate_cookies : List Diagnostic
  unfolding enum absolute_path errf
  validate_cookies =
      enum c "cookies.sameSite" c.cookies.same_site ("strict" ∷ "lax" ∷ "none" ∷ [])
      and absolute_path c "cookies.path" c.cookies.path
      and absolute_path c "cookies.refreshTokenPath" c.cookies.refresh_token_path
      and report
          (not (str_eq c.cookies.domain "")
            && (contains_any (b'/' ∷ b':' ∷ b' ' ∷ []) c.cookies.domain
                || not (contains c.cookies.domain ".")))
          (errf c "" "cookies.domain")

  unfoldable pub validate_sessions : List Diagnostic
  unfolding enum
  validate_sessions =
      enum c "sessions.checkOn" c.sessions.check_on ("allcalls" ∷ "refresh" ∷ "none" ∷ [])

  -- `for i, u := range urls`, each entry but those that `skip` passes over.
  unfoldable pub absolute_urls : String → (String → Bool) → ℕ → List String → List Diagnostic
  unfolding absolute_url
  absolute_urls path skip i [] = []
  absolute_urls path skip i (u ∷ rest) =
      (if skip u then [] else absolute_url c x (path ++ ("[" ++ (x.itoa i ++ "]"))) u false)
      and absolute_urls path skip (i + 1) rest

  unfoldable pub validate_mailer : List Diagnostic
  unfolding configured errf absolute_url email_address
  validate_mailer =
      let m = c.email.mailer in
      if not (str_eq m.endpoint "") || not (str_eq m.from "") || configured m.api_key
      then (if str_eq m.endpoint ""
          then errf c "" "email.mailer.endpoint" ∷ []
          else absolute_url c x "email.mailer.endpoint" m.endpoint true)
        and (if str_eq m.from ""
            then errf c "" "email.mailer.from" ∷ []
            else email_address c "email.mailer.from" m.from)
      else []

  unfoldable pub validate_email : List Diagnostic
  unfolding enum absolute_urls validate_mailer validate_signed_webhook
  validate_email =
      enum c "email.verification.mode" c.email.verification.mode ("none" ∷ "lazy" ∷ "strict" ∷ [])
      and enum c "email.mailer.defaultLang" c.email.mailer.default_lang ("en" ∷ "it" ∷ [])
      and absolute_urls "email.siteUrls" (λ u. false) 0 c.email.site_urls
      and validate_mailer
      and validate_signed_webhook (record {
        base = "email.deliveryWebhook";
        hook = c.email.delivery_webhook;
        no_timeout = "";
      })

  unfoldable pub validate_sms : List Diagnostic
  unfolding configured errf absolute_url at_least
  validate_sms =
      let s = c.sms in
      if not (str_eq s.endpoint "")
        || configured s.api_key
        || configured s.username
        || configured s.password
      then (if str_eq s.endpoint ""
          then errf c "" "sms.endpoint" ∷ []
          else absolute_url c x "sms.endpoint" s.endpoint true)
        and at_least c "sms.codeTtlMinutes" s.code_ttl_minutes 1
      else []
